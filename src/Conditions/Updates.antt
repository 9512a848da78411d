-- ===== src/Conditions/Updates.antt =====
-- setCondition: what a reader of the conditions sees after it.
-- A condition under a type, with what `setCondition` promises of its transition time.
use package.text.Mathlib.TextPositions.{eq_refl as str_eq_refl}
use package.text.Mathlib.TextEquality.{eq_iff as str_eq_iff}
use package.text.Mathlib.Text.{◌==◌ as str_eq}
use typeclaw_operator.Prelude.{
  String, ◌≡◌, refl, sym, ap, subst, Bool, true, false, ◌&&◌, Option, none, some, List, [], ◌∷◌,
  arith, if◌then◌else◌, is_some, if_intro,
}
use typeclaw_operator.Prelude.Text.{◌==◌ as text_eq, eq_iff as text_eq_iff}
use typeclaw_operator.Conditions.{Condition, same, observed_at, since, renew, put, condition_of}

abbrev pub Updated : Condition → Option Condition → Option Condition → Type 0
Updated cond before none = ⊥
Updated cond none (some after) = after ≡ cond
Updated cond (some before) (some after) =
    (after.type ≡ cond.type)
    × (after.positive ≡ cond.positive)
    × (after.observed_generation ≡ cond.observed_generation)
    × (after.reason ≡ cond.reason)
    × (after.message ≡ cond.message)
    × (after.last_transition_time ≡ (
        if same before.positive cond.positive
        then before.last_transition_time
        else cond.last_transition_time))

same_iff : (b c : Bool) → same b c ≡ true → b ≡ c
same_iff true true h = refl
same_iff false false h = refl
same_iff true false h = absurd (cc)
same_iff false true h = absurd (cc)

and-both : (b c : Bool) → (b && c) ≡ true → (b ≡ true) × (c ≡ true)
and-both b c h = ground arith

-- The three outcomes of an update of an existing condition.
observed-Updated :
    (cond existing : Condition)
    → existing.type ≡ cond.type
    → same existing.positive cond.positive ≡ true
    → str_eq existing.reason cond.reason ≡ true
    → text_eq existing.message cond.message ≡ true
    → Updated cond (some existing) (some (observed_at cond.observed_generation existing))
observed-Updated cond existing named equal reason message = (
  named,
  same_iff _ _ equal,
  refl,
  (str_eq_iff existing.reason cond.reason).0 reason,
  (text_eq_iff existing.message cond.message).0 message,
  sym (ap (λ b. if b then existing.last_transition_time else cond.last_transition_time) equal),
)

since-Updated :
    (cond existing : Condition)
    → same existing.positive cond.positive ≡ true
    → Updated cond (some existing) (some (since existing.last_transition_time cond))
since-Updated cond existing equal = (
  refl,
  refl,
  refl,
  refl,
  refl,
  sym (ap (λ b. if b then existing.last_transition_time else cond.last_transition_time) equal),
)

replaced-Updated :
    (cond existing : Condition)
    → same existing.positive cond.positive ≡ false
    → Updated cond (some existing) (some cond)
replaced-Updated cond existing differs = (
  refl,
  refl,
  refl,
  refl,
  refl,
  sym (ap (λ b. if b then existing.last_transition_time else cond.last_transition_time) differs),
)

renew-Updated :
    (cond existing : Condition)
    → existing.type ≡ cond.type
    → Updated cond (some existing) (some (renew cond existing))
unfolding renew
renew-Updated cond existing named =
    if_intro (λ c. Updated cond (some existing) (some c)) (same existing.positive cond.positive) _
      cond
      (λ equal.
        if_intro (λ c. Updated cond (some existing) (some c))
          (is_some existing.last_transition_time
            && (str_eq existing.reason cond.reason && text_eq existing.message cond.message))
          (observed_at cond.observed_generation existing) (since existing.last_transition_time cond)
          (λ unchanged.
            let texts = (and-both _ _ (and-both _ _ unchanged).1) in
            observed-Updated cond existing named equal texts.0 texts.1)
          (λ changed. since-Updated cond existing equal))
      (λ differs. replaced-Updated cond existing differs)

renew-type :
    (cond existing : Condition) → existing.type ≡ cond.type → (renew cond existing).type ≡ cond.type
renew-type cond existing named = (renew-Updated cond existing named).0

-- The entry read under a type, from the test of the first entry.
found-first :
    (type : String) (c : Condition) (others : List Condition)
    → str_eq c.type type ≡ true
    → condition_of type (c ∷ others) ≡ some c
unfolding condition_of
found-first type c others h = rw h

found-later :
    (type : String) (c : Condition) (others : List Condition)
    → str_eq c.type type ≡ false
    → condition_of type (c ∷ others) ≡ condition_of type others
unfolding condition_of
found-later type c others h = rw h

none-Updated : (cond : Condition) → Updated cond (condition_of cond.type []) (some cond)
unfolding condition_of
none-Updated cond = refl

moved :
    (cond : Condition) (before before' after after' : Option Condition)
    → before ≡ before'
    → after ≡ after'
    → Updated cond before' after'
    → Updated cond before after
moved cond before before' after after' p q u =
    subst (λ b. Updated cond b after) (sym p) (subst (Updated cond before') (sym q) u)

-- `setCondition` leaves, under the condition's type, an entry with the new status, generation,
-- reason and message, whose transition time is new exactly where the status changed or the entry is.
pub put-Updated :
    (cond : Condition) (conditions : List Condition)
    → Updated cond
        (condition_of cond.type conditions)
        (condition_of cond.type (put cond conditions))
unfolding put
put-Updated cond [] =
    subst (Updated cond (condition_of cond.type []))
      (sym (found-first cond.type cond [] (str_eq_refl cond.type))) (none-Updated cond)
put-Updated cond (c ∷ cs) =
    if_intro
      (λ after. Updated cond (condition_of cond.type (c ∷ cs)) (condition_of cond.type after))
      (str_eq c.type cond.type) (renew cond c ∷ cs) (c ∷ put cond cs)
      (λ here.
        let named = (str_eq_iff c.type cond.type).0 here in
        moved cond (condition_of cond.type (c ∷ cs)) (some c)
          (condition_of cond.type (renew cond c ∷ cs)) (some (renew cond c))
          (found-first cond.type c cs here)
          (found-first cond.type (renew cond c) cs
            ((str_eq_iff (renew cond c).type cond.type).1 (renew-type cond c named)))
          (renew-Updated cond c named))
      (λ other.
        moved cond (condition_of cond.type (c ∷ cs)) (condition_of cond.type cs)
          (condition_of cond.type (c ∷ put cond cs)) (condition_of cond.type (put cond cs))
          (found-later cond.type c cs other) (found-later cond.type c (put cond cs) other)
          (put-Updated cond cs))
