-- ===== src/Conditions.antt =====
-- typeclawinstance_controller.go (setCondition) and autoupdate_controller.go (removeCondition): the
-- conditions of an instance's status. A `metav1.Time` is a number of nanoseconds, `none` when zero.
pub mod Updates
use text.Mathlib.Text.{◌==◌ as str_eq}
use typeclaw_operator.Prelude.{
  ℕ, String, Bool, true, false, ◌&&◌, not, Option, none, some, List, [], ◌∷◌, if◌then◌else◌,
  is_some,
}
use typeclaw_operator.Prelude.Text.{Text, ◌==◌ as text_eq}

pub record Condition : Type 0 where
  pub type : String
  pub positive : Bool
  pub observed_generation : ℕ
  pub reason : String
  pub message : Text
  pub last_transition_time : Option ℕ

-- `cond`, built from the arguments.
abbrev pub new_condition : ℕ → ℕ → String → Bool → String → String → Text → Condition
new_condition now generation type positive true_reason false_reason message = record {
  type = type;
  positive = positive;
  observed_generation = generation;
  reason = if positive then true_reason else false_reason;
  message = message;
  last_transition_time = some now;
}

abbrev pub same : Bool → Bool → Bool
same true b = b
same false b = not b

abbrev pub observed_at : ℕ → Condition → Condition
observed_at generation c = record {
  type = c.type;
  positive = c.positive;
  observed_generation = generation;
  reason = c.reason;
  message = c.message;
  last_transition_time = c.last_transition_time;
}

abbrev pub since : Option ℕ → Condition → Condition
since time c = record {
  type = c.type;
  positive = c.positive;
  observed_generation = c.observed_generation;
  reason = c.reason;
  message = c.message;
  last_transition_time = time;
}

-- What becomes of the existing entry of the type.
unfoldable pub renew : Condition → Condition → Condition
renew cond existing =
    if same existing.positive cond.positive
    then if is_some existing.last_transition_time
        && (str_eq existing.reason cond.reason && text_eq existing.message cond.message)
      then observed_at cond.observed_generation existing
      else since existing.last_transition_time cond
    else cond

unfoldable pub put : Condition → List Condition → List Condition
unfolding renew
put cond [] = cond ∷ []
put cond (existing ∷ others) =
    let rest = put cond others in
    if str_eq existing.type cond.type then renew cond existing ∷ others else existing ∷ rest

unfoldable pub set_condition :
    ℕ → List Condition → ℕ → String → Bool → String → String → Text → List Condition
unfolding put
set_condition now conditions generation type positive true_reason false_reason message =
    put (new_condition now generation type positive true_reason false_reason message) conditions

unfoldable pub remove_condition : List Condition → String → List Condition
remove_condition [] type = []
remove_condition (existing ∷ others) type =
    let rest = remove_condition others type in
    if str_eq existing.type type then others else existing ∷ rest

-- The condition that is read under a type.
unfoldable pub condition_of : String → List Condition → Option Condition
condition_of type [] = none
condition_of type (existing ∷ others) =
    let rest = condition_of type others in if str_eq existing.type type then some existing else rest
