-- ===== src/Prelude/Splits.antt =====
-- `strings.Split` and `strings.Join` for a separator of one byte.
use Prim.Native.Nat.{ℕ}
use mathlib.Core.Path.{◌≡◌, refl, sym, ap, ap₂, ◌∙◌}
use mathlib.Core.Bool.{true, false, not}
use mathlib.Core.List.{List, [], ◌∷◌, ◌++◌}
use native.Mathlib.Omega.{arith}
use package.typeclaw_operator.Prelude.Tests.{◌==◌, ==_iff, if_intro}
use package.typeclaw_operator.Prelude.Lists.{all, All}
use package.typeclaw_operator.Prelude.Text.{Text, push_front, split}

module _ (sep : ℕ) where
  abbrev pub IsPart : Text → Type 0
  IsPart t = all (λ c. not (c == sep)) t ≡ true

  abbrev pub join : List Text → Text
  join [] = []
  join (p ∷ []) = p
  join (p ∷ q ∷ ps) = p ++ (sep ∷ join (q ∷ ps))

  IsPart-head : (c : ℕ) (p : Text) → IsPart (c ∷ p) → ((c == sep) ≡ false) × IsPart p
  IsPart-head c p h = ground (arith, h)

  pub split_part : (p : Text) → IsPart p → split sep p ≡ p ∷ []
  unfolding split
  split_part [] h = refl
  split_part (c ∷ p) h = let parts = IsPart-head c p h in rw (parts.0, split_part p parts.1) refl

  sep_self : (sep == sep) ≡ true
  sep_self = ground arith

  pub split_onward : (p rest : Text) → IsPart p → split sep (p ++ (sep ∷ rest)) ≡ p ∷ split sep rest
  unfolding split
  split_onward [] rest h = rw sep_self refl
  split_onward (c ∷ p) rest h =
      let parts = IsPart-head c p h in rw (parts.0, split_onward p rest parts.1) refl

  join_push : (c : ℕ) (ps : List Text) → join (push_front c ps) ≡ c ∷ join ps
  join_push c [] = refl
  join_push c (p ∷ []) = refl
  join_push c (p ∷ q ∷ ps) = refl

  abbrev IsCons : List Text → Type 0
  IsCons ps = (p : Text) × (rest : List Text) × (ps ≡ p ∷ rest)

  push_front-IsCons : (c : ℕ) (ps : List Text) → IsCons (push_front c ps)
  push_front-IsCons c [] = (c ∷ [], [], refl)
  push_front-IsCons c (p ∷ ps) = (c ∷ p, ps, refl)

  split-IsCons : (s : Text) → IsCons (split sep s)
  unfolding split
  split-IsCons [] = ([], [], refl)
  split-IsCons (c ∷ s) =
      if_intro IsCons (c == sep) ([] ∷ split sep s) (push_front c (split sep s))
        (λ here. ([], split sep s, refl)) (λ other. push_front-IsCons c (split sep s))

  join_empty : (ps : List Text) → IsCons ps → join ([] ∷ ps) ≡ sep ∷ join ps
  join_empty [] (p, rest, e) = absurd (cc)
  join_empty (q ∷ ps) more = refl

  pub join-split : (s : Text) → join (split sep s) ≡ s
  unfolding split
  join-split [] = refl
  join-split (c ∷ s) =
      if_intro (λ ps. join ps ≡ c ∷ s) (c == sep) ([] ∷ split sep s) (push_front c (split sep s))
        (λ here.
          join_empty (split sep s) (split-IsCons s)
          ∙ ap₂ (λ d t. d ∷ t) (sym ((==_iff c sep).0 here)) (join-split s))
        (λ other. join_push c (split sep s) ∙ ap (λ t. c ∷ t) (join-split s))

  push_front-IsPart :
      (c : ℕ) (ps : List Text) → (c == sep) ≡ false → All IsPart ps → All IsPart (push_front c ps)
  push_front-IsPart c [] other a = ((ground (arith, other)), tt)
  push_front-IsPart c (p ∷ ps) other (part, a) = ((ground (arith, other, part)), a)

  pub split-IsPart : (s : Text) → All IsPart (split sep s)
  unfolding split
  split-IsPart [] = (refl, tt)
  split-IsPart (c ∷ s) =
      if_intro (All IsPart) (c == sep) ([] ∷ split sep s) (push_front c (split sep s))
        (λ here. (refl, split-IsPart s))
        (λ other. push_front-IsPart c (split sep s) other (split-IsPart s))
