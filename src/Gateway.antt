-- ===== src/Gateway.antt =====
-- internal/desktopgateway: the handlers of the Desktop Gateway over the control registry. Calls to
-- KubeVirt and the classification of API errors (k8s.io/apimachinery) are parameters.
pub mod KubeVirt
pub mod Power
pub mod Outcomes
pub mod Config
pub mod Load
pub mod Configured
pub mod Auth
pub mod SignIn
pub mod Origins
pub mod Owners
pub mod Handlers
pub mod Listeners
pub mod Safety
