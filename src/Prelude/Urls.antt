-- ===== src/Prelude/Urls.antt =====
-- `url.URL`, as far as the code looks at it.
use mathlib.Core.Bool.{Bool}
use package.typeclaw_operator.Prelude.Text.{Text}

pub record Url : Type 0 where
  pub scheme : Text
  pub has_user : Bool
  pub host : Text
  pub hostname : Text
  pub path : Text
  pub raw_query : Text
  pub fragment : Text
