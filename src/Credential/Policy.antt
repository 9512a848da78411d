-- ===== src/Credential/Policy.antt =====
-- operation.go: the checks of a typed operation and of the policy that authorizes it. Strings that
-- are only compared are `String`, and those that the code walks are `Text`.
use package.text.Mathlib.Text.{◌==◌ as str_eq}
use typeclaw_operator.Prelude.{
  ℕ, zero, suc, String, Bool, true, false, ◌&&◌, ◌||◌, not, Option, none, some, List, [], ◌∷◌, ◌++◌,
  ltb, leb, ◌==◌, if◌then◌else◌, length, all, any,
}
use typeclaw_operator.Prelude.Text.{Text, text, ◌==◌ as text_eq, split}
use typeclaw_operator.Ints.{ℤ, pos, gtb}

pub data AccessMode : Type 0 where
  deny : AccessMode
  confirm : AccessMode
  pre_authorized : AccessMode
  bypass : AccessMode
  other_mode : AccessMode

pub record SecretRef : Type 0 where
  pub name : String
  pub key : String
  pub uid : String
  pub resource_version : String
  pub immutable : Bool

pub record ConsumerSpec : Type 0 where
  pub name : String
  pub operations : List String
  pub access_mode : AccessMode
  pub allowed_repositories : List Text

pub record PolicySpec : Type 0 where
  pub secret : SecretRef
  pub consumers : List ConsumerSpec
  pub allow_bypass : Bool

abbrev pub create_issue : String
create_issue = "github.createIssue"

abbrev pub slash : ℕ
slash = 47

-- The characters of a repository's owner or name. Every byte of a longer rune fails the test, as the
-- rune does.
abbrev pub is_repository_char : ℕ → Bool
is_repository_char c =
    leb 97 c && leb c 122
    || leb 65 c && leb c 90
    || leb 48 c && leb c 57
    || c == 46
    || c == 45
    || c == 95

-- `validRepositoryPart`: the names `.` and `..` start with a dot, as those that `HasPrefix` refuses.
unfoldable pub valid_repository_part : Text → Bool
valid_repository_part [] = false
valid_repository_part (c ∷ cs) = not (c == 46) && all is_repository_char (c ∷ cs)

unfoldable pub valid_repository : List Text → Bool
unfolding valid_repository_part
valid_repository (owner ∷ name ∷ []) = valid_repository_part owner && valid_repository_part name
valid_repository _ = false

abbrev pub has_nul : Text → Bool
has_nul = any (λ c. c == 0)

abbrev pub is_empty_text : Text → Bool
is_empty_text [] = true
is_empty_text (c ∷ cs) = false

unfoldable pub validate_github_create_issue : Text → Text → Text → Bool
unfolding valid_repository split
validate_github_create_issue repository title body =
    valid_repository (split slash repository)
    && (not (is_empty_text title || ltb 256 (length title) || has_nul title)
        && not (ltb 65536 (length body) || has_nul body))

unfoldable pub validate_secret_binding : SecretRef → Bool
validate_secret_binding ref =
    not (str_eq ref.name "")
    && not (str_eq ref.key "")
    && not (str_eq ref.uid "")
    && not (str_eq ref.resource_version "")
    && ref.immutable

pub data PolicyError : Type 0 where
  policy_denied : PolicyError
  malformed_input : PolicyError
  unsupported : PolicyError

-- A mode that is not `Deny`, or the error that comes with `Deny`.
pub data Decision : Type 0 where
  granted : AccessMode → Decision
  refused : PolicyError → Decision

unfoldable pub allowed_repository : List Text → Text → Bool
allowed_repository [] repository = false
allowed_repository (allowed ∷ others) repository =
    let rest = allowed_repository others repository in
    if text_eq allowed repository then true else rest

unfoldable pub allowed_operation : List String → String → Bool
allowed_operation [] operation = false
allowed_operation (allowed ∷ others) operation =
    let rest = allowed_operation others operation in if str_eq allowed operation then true else rest

unfoldable pub decide_mode : Bool → AccessMode → Decision
decide_mode allow_bypass confirm = granted confirm
decide_mode allow_bypass pre_authorized = granted pre_authorized
decide_mode true bypass = granted bypass
decide_mode false bypass = refused policy_denied
decide_mode allow_bypass deny = refused policy_denied
decide_mode allow_bypass other_mode = refused policy_denied

-- The loop of `AuthorizePolicy`: the first consumer of the name decides.
unfoldable pub authorize_consumer : Bool → String → String → Text → List ConsumerSpec → Decision
unfolding allowed_operation allowed_repository decide_mode
authorize_consumer allow_bypass consumer operation repository [] = refused policy_denied
authorize_consumer allow_bypass consumer operation repository (candidate ∷ others) =
    let rest = authorize_consumer allow_bypass consumer operation repository others in
    if str_eq candidate.name consumer
    then if allowed_operation candidate.operations operation
        && allowed_repository candidate.allowed_repositories repository
      then decide_mode allow_bypass candidate.access_mode
      else refused policy_denied
    else rest

unfoldable pub authorize_policy : Option PolicySpec → String → String → Text → Decision
unfolding validate_secret_binding validate_github_create_issue authorize_consumer
authorize_policy none consumer operation repository = refused policy_denied
authorize_policy (some policy) consumer operation repository =
    if not (validate_secret_binding policy.secret)
    then refused policy_denied
    else if not (str_eq operation create_issue)
    then refused unsupported
    else if not (validate_github_create_issue repository (text "title") [])
    then refused malformed_input
    else authorize_consumer policy.allow_bypass consumer operation repository policy.consumers

-- `RequestName`.
abbrev pub take : ℕ → Text → Text
take zero s = []
take (suc n) [] = []
take (suc n) (c ∷ cs) = c ∷ take n cs

unfoldable pub request_name : Text → Text
request_name ticket_digest = text "credential-" ++ take 24 ticket_digest

pub data Phase : Type 0 where
  unset : Phase
  pending : Phase
  pending_approval : Phase
  ticket_consumed : Phase
  running : Phase
  succeeded : Phase
  failed : Phase
  denied : Phase
  unknown_outcome : Phase

unfoldable pub is_terminal : Phase → Bool
is_terminal succeeded = true
is_terminal failed = true
is_terminal denied = true
is_terminal unknown_outcome = true
is_terminal _ = false

pub record IssueResult : Type 0 where
  pub number : ℤ
  pub url : String
  pub title : String

pub record RunnerResult : Type 0 where
  pub result : Option IssueResult
  pub error_code : String

unfoldable pub valid_error_code : String → Bool
valid_error_code code =
    str_eq code "credential_unavailable"
    || str_eq code "policy_denied"
    || str_eq code "approval_denied"
    || str_eq code "secret_binding_invalid"
    || str_eq code "spiffe_unavailable"
    || str_eq code "network_authority_unavailable"
    || str_eq code "runner_failed"
    || str_eq code "result_invalid"
    || str_eq code "ticket_expired"

unfoldable pub complete : IssueResult → String → Bool
unfolding gtb
complete issue error_code =
    str_eq error_code ""
    && gtb issue.number (pos 0)
    && not (str_eq issue.url "")
    && not (str_eq issue.title "")

-- `DecodeRunnerResult`, from what the JSON decoder makes of the message: a record, and whether
-- anything follows it.
pub data Decoded : Type 0 where
  undecodable : Decoded
  decoded : RunnerResult → (trailing : Bool) → Decoded

unfoldable pub check_result : RunnerResult → Option IssueResult → Option RunnerResult
unfolding valid_error_code complete
check_result r none = if valid_error_code r.error_code then some r else none
check_result r (some issue) = if complete issue r.error_code then some r else none

unfoldable pub decode_runner_result : Decoded → Option RunnerResult
unfolding check_result
decode_runner_result undecodable = none
decode_runner_result (decoded r true) = none
decode_runner_result (decoded r false) = check_result r r.result
