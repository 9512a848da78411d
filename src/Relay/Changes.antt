-- ===== src/Relay/Changes.antt =====
-- config.go: the keys that an observation calls changed.
use package.text.Mathlib.Text.{◌==◌ as str_eq}
use package.text.Mathlib.TextEquality.{eq_iff as str_eq_iff}
use typeclaw_operator.Prelude.{
  String, ◌≡◌, refl, sym, ap, ap₂, ◌∙◌, Bool, true, false, ◌||◌, not, Option, none, some, List, [],
  ◌∷◌, ◌++◌, arith, if◌then◌else◌, is_some, if_intro, any, any_none, any_ext, any_or,
}
use typeclaw_operator.Prelude.Maps.{lookup}
use typeclaw_operator.Prelude.Text.{Text, text, ◌==◌ as text_eq, before}
use typeclaw_operator.Relay.Config.{
  insert_sorted, sort_strings, Values, differs, edited_keys, removed_keys, changed_keys, contains,
  intersects,
}

or_exchange : (a b c : Bool) → (a || (b || c)) ≡ (b || (a || c))
or_exchange a b c = ground arith

or_assoc : (a b c : Bool) → (a || (b || c)) ≡ ((a || b) || c)
or_assoc a b c = ground arith

contains-insert_sorted :
    (key other : String) (keys : List String)
    → contains key (insert_sorted other keys) ≡ (str_eq other key || contains key keys)
unfolding contains insert_sorted
contains-insert_sorted key other [] = refl
contains-insert_sorted key other (k ∷ keys) =
    if_intro (λ l. contains key l ≡ (str_eq other key || (str_eq k key || contains key keys)))
      (before (text k) (text other)) (k ∷ insert_sorted other keys) (other ∷ k ∷ keys)
      (λ h.
        ap (λ b. str_eq k key || b) (contains-insert_sorted key other keys)
        ∙ or_exchange (str_eq k key) (str_eq other key) (contains key keys))
      (λ h. refl)

contains-sort_strings :
    (key : String) (keys : List String) → contains key (sort_strings keys) ≡ contains key keys
unfolding contains sort_strings
contains-sort_strings key [] = refl
contains-sort_strings key (k ∷ keys) =
    contains-insert_sorted key k (sort_strings keys)
    ∙ ap (λ b. str_eq k key || b) (contains-sort_strings key keys)

contains-append :
    (key : String) (xs ys : List String)
    → contains key (xs ++ ys) ≡ (contains key xs || contains key ys)
unfolding contains
contains-append key [] ys = refl
contains-append key (x ∷ xs) ys =
    ap (λ b. str_eq x key || b) (contains-append key xs ys)
    ∙ or_assoc (str_eq x key) (contains key xs) (contains key ys)

if_or : (a b : Bool) → (if a then true else b) ≡ (a || b)
if_or true b = refl
if_or false b = refl

-- Each key of a map stands in one entry.
abbrev pub IsMap : Values → Type 0
IsMap [] = Unit
IsMap ((key, value) ∷ others) = (lookup key others ≡ none) × IsMap others

-- Whether a key reads differently in two maps.
abbrev pub is_new : Option Text → Option Text → Bool
is_new old none = false
is_new old (some value) = differs old value

abbrev pub is_gone : Option Text → Option Text → Bool
is_gone old none = is_some old
is_gone old (some value) = false

contains-edited_keys :
    (prev next : Values) (key : String)
    → IsMap next
    → contains key (edited_keys prev next) ≡ is_new (lookup key prev) (lookup key next)
unfolding contains edited_keys lookup
contains-edited_keys prev [] key m = ground arith
contains-edited_keys prev ((k, value) ∷ next) key m =
    ground (arith, str_eq_iff k key, m.0, contains-edited_keys prev next key m.1)

contains-removed_keys :
    (next prev : Values) (key : String)
    → contains key (removed_keys next prev) ≡ is_gone (lookup key prev) (lookup key next)
unfolding contains removed_keys lookup
contains-removed_keys next [] key = ground arith
contains-removed_keys next ((k, value) ∷ prev) key =
    ground (arith, str_eq_iff k key, contains-removed_keys next prev key)

-- A reference for `changedKeys`: a key whose value is another, or whose presence is.
unfoldable pub reads_differently : Option Text → Option Text → Bool
reads_differently none none = false
reads_differently none (some value) = true
reads_differently (some old) none = true
reads_differently (some old) (some value) = not (text_eq old value)

new_or_gone :
    (old value : Option Text)
    → (is_new old value || is_gone old value) ≡ reads_differently old value
unfolding differs reads_differently
new_or_gone none none = refl
new_or_gone none (some value) = refl
new_or_gone (some old) none = refl
new_or_gone (some old) (some value) = ground arith

-- Of two observations, whatever they hold, the changed paths contain a key exactly when the value of
-- the key in the one is not that in the other, where a key that is missing is a value of its own.
pub contains-changed_keys :
    (prev next : Values) (key : String)
    → IsMap next
    → contains key (changed_keys prev next) ≡ reads_differently (lookup key prev) (lookup key next)
unfolding changed_keys
contains-changed_keys prev next key m =
    contains-sort_strings key (edited_keys prev next ++ removed_keys next prev)
    ∙ contains-append key (edited_keys prev next) (removed_keys next prev)
    ∙ ap₂ (λ a b. a || b) (contains-edited_keys prev next key m)
        (contains-removed_keys next prev key)
    ∙ new_or_gone (lookup key prev) (lookup key next)

contains-any :
    (key : String) (keys : List String) → contains key keys ≡ any (λ k. str_eq key k) keys
unfolding contains
contains-any key [] = refl
contains-any key (k ∷ keys) =
    ground (arith, str_eq_iff k key, str_eq_iff key k, contains-any key keys)

contains_swap :
    (policy keys : List String) → intersects policy keys ≡ any (λ path. contains path keys) policy
unfolding intersects contains
contains_swap policy [] = sym (any_none policy)
contains_swap policy (key ∷ keys) =
    ap₂ (λ a b. if a then true else b) (contains-any key policy) (contains_swap policy keys)
    ∙ if_or (any (λ path. str_eq key path) policy) (any (λ path. contains path keys) policy)
    ∙ sym (any_or (λ path. str_eq key path) (λ path. contains path keys) policy)

-- A change violates the policy exactly when a protected path reads differently.
pub intersects-changed_keys :
    (policy : List String) (prev next : Values)
    → IsMap next
    → intersects policy (changed_keys prev next)
      ≡ any (λ path. reads_differently (lookup path prev) (lookup path next)) policy
intersects-changed_keys policy prev next m =
    contains_swap policy (changed_keys prev next)
    ∙ any_ext (λ path. contains-changed_keys prev next path m) policy
