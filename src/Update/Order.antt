-- ===== src/Update/Order.antt =====
-- registry.go: the order of the release tags, and what `PickVersion` picks.
use typeclaw_operator.Prelude.{
  ◌≡◌, refl, sym, ◌∙◌, subst, ◌⊎◌, inl, inr, Bool, true, false, ◌||◌, Option, none, some, List, [],
  ◌∷◌, arith, if◌then◌else◌, Bool-cases, if_intro, In,
}
use typeclaw_operator.Prelude.Text.{Text, ◌==◌ as text_eq, split}
use typeclaw_operator.Ints.{ℤ, pos, negsuc, gtb}
use typeclaw_operator.Update.Versions.{
  three_numbers, plain_semver, Version, parse_version, compare_place, compare_parsed,
  compare_version, newer, qualifies, consider, pick_best, nonempty, pick_version,
}

compare_place_trans :
    (x y z r s t : ℤ)
    → (gtb r (pos 0) ≡ true → gtb s (pos 0) ≡ true → gtb t (pos 0) ≡ true)
    → gtb (compare_place x y r) (pos 0) ≡ true
    → gtb (compare_place y z s) (pos 0) ≡ true
    → gtb (compare_place x z t) (pos 0) ≡ true
unfolding compare_place gtb
compare_place_trans (pos x) (pos y) (pos z) r s t rest = ground (arith, rest)
compare_place_trans (pos x) (pos y) (negsuc z) r s t rest = ground (arith, rest)
compare_place_trans (pos x) (negsuc y) (pos z) r s t rest = ground (arith, rest)
compare_place_trans (pos x) (negsuc y) (negsuc z) r s t rest = ground (arith, rest)
compare_place_trans (negsuc x) (pos y) (pos z) r s t rest = ground (arith, rest)
compare_place_trans (negsuc x) (pos y) (negsuc z) r s t rest = ground (arith, rest)
compare_place_trans (negsuc x) (negsuc y) (pos z) r s t rest = ground (arith, rest)
compare_place_trans (negsuc x) (negsuc y) (negsuc z) r s t rest = ground (arith, rest)

compare_parsed_trans :
    (u v w : Option Version)
    → gtb (compare_parsed u v) (pos 0) ≡ true
    → gtb (compare_parsed v w) (pos 0) ≡ true
    → gtb (compare_parsed u w) (pos 0) ≡ true
unfolding compare_parsed gtb
compare_parsed_trans (some u) (some v) (some w) =
    compare_place_trans u.0 v.0 w.0 _ _ _
      (compare_place_trans u.1 v.1 w.1 _ _ _ (compare_place_trans u.2 v.2 w.2 _ _ _ (λ h k. h)))
compare_parsed_trans (some u) (some v) none = λ h k. refl
compare_parsed_trans (some u) none none = λ h k. absurd (cc)
compare_parsed_trans (some u) none (some w) = λ h k. absurd (cc)
compare_parsed_trans none none none = λ h k. absurd (cc)
compare_parsed_trans none none (some w) = λ h k. absurd (cc)
compare_parsed_trans none (some v) none = λ h k. absurd (cc)
compare_parsed_trans none (some v) (some w) = λ h k. absurd (cc)

pub newer_trans : (a b c : Text) → newer a b ≡ true → newer b c ≡ true → newer a c ≡ true
unfolding newer compare_version
newer_trans a b c = compare_parsed_trans (parse_version a) (parse_version b) (parse_version c)

compare_place_irrefl : (x r : ℤ) → gtb r (pos 0) ≡ false → gtb (compare_place x x r) (pos 0) ≡ false
unfolding compare_place gtb
compare_place_irrefl (pos x) r rest = ground (arith, rest)
compare_place_irrefl (negsuc x) r rest = ground (arith, rest)

compare_parsed_irrefl : (v : Option Version) → gtb (compare_parsed v v) (pos 0) ≡ false
unfolding compare_parsed gtb
compare_parsed_irrefl none = refl
compare_parsed_irrefl (some v) =
    compare_place_irrefl v.0 _ (compare_place_irrefl v.1 _ (compare_place_irrefl v.2 (pos 0) refl))

newer_irrefl : (a : Text) → newer a a ≡ false
unfolding newer compare_version
newer_irrefl a = compare_parsed_irrefl (parse_version a)

qualifies-nonempty : (track tag : Text) → qualifies track tag ≡ true → text_eq tag [] ≡ false
unfolding text_eq qualifies plain_semver split three_numbers
qualifies-nonempty track [] h = absurd (cc)
qualifies-nonempty track (c ∷ cs) h = refl

beaten-by_newer :
    (t tag best : Text) → newer tag best ≡ true → newer t best ≡ false → newer t tag ≡ false
beaten-by_newer t tag best beats h = elim (Bool-cases (newer t tag)) [
  | inl y ↦ absurd (cc (newer_trans t tag best y beats))
  | inr n ↦ n
]

or-right : (b c : Bool) → (b || c) ≡ true → b ≡ false → c ≡ true
or-right b c h n = ground arith

-- A best tag is only replaced by a newer one.
abbrev Above : Text → Text → Type 0
Above t best = (text_eq best [] ≡ false) × (newer t best ≡ false)

consider-newer : (track best tag t : Text) → Above t best → Above t (consider track best tag)
unfolding consider
consider-newer track best tag t above =
    if_intro (Above t) (qualifies track tag) _ _
      (λ q.
        if_intro (Above t) (text_eq best [] || newer tag best) tag best
          (λ r. (
            qualifies-nonempty track tag q,
            beaten-by_newer t tag best (or-right _ _ r above.0) above.1,
          ))
          (λ r. above))
      (λ q. above)

or-false : (b c : Bool) → (b || c) ≡ false → (b ≡ false) × (c ≡ false)
or-false b c h = ground arith

consider-itself :
    (track best tag : Text) → qualifies track tag ≡ true → Above tag (consider track best tag)
unfolding consider
consider-itself track best tag h =
    if_intro (Above tag) (qualifies track tag) _ _
      (λ q.
        if_intro (Above tag) (text_eq best [] || newer tag best) tag best
          (λ r. (qualifies-nonempty track tag q, newer_irrefl tag)) (λ r. or-false _ _ r))
      (λ q. absurd (cc))

pick_best-newer :
    (track best : Text) (tags : List Text) (t : Text)
    → Above t best
    → Above t (pick_best track best tags)
unfolding pick_best
pick_best-newer track best [] t above = above
pick_best-newer track best (tag ∷ tags) t above =
    pick_best-newer track (consider track best tag) tags t (consider-newer track best tag t above)

pick_best-best :
    (track best : Text) (tags : List Text) (t : Text)
    → In t tags
    → qualifies track t ≡ true
    → Above t (pick_best track best tags)
unfolding pick_best
pick_best-best track best [] t i h = absurd i
pick_best-best track best (tag ∷ tags) t (inl here) h =
    subst (λ s. Above s (pick_best track best (tag ∷ tags))) here
      (pick_best-newer track (consider track best tag) tags tag
        (consider-itself track best tag (subst (λ s. qualifies track s ≡ true) (sym here) h)))
pick_best-best track best (tag ∷ tags) t (inr later) h =
    pick_best-best track (consider track best tag) tags t later h

-- What the loop has picked is the tag it started from, or a tag of the list that qualifies.
consider-cases :
    (track best tag : Text)
    → (consider track best tag ≡ best)
      ⊎ ((consider track best tag ≡ tag) × (qualifies track tag ≡ true))
unfolding consider
consider-cases track best tag =
    if_intro (λ b. (b ≡ best) ⊎ ((b ≡ tag) × (qualifies track tag ≡ true))) (qualifies track tag)
      (if text_eq best [] || newer tag best then tag else best) best
      (λ q.
        if_intro (λ b. (b ≡ best) ⊎ ((b ≡ tag) × (qualifies track tag ≡ true)))
          (text_eq best [] || newer tag best) tag best (λ r. inr (refl, q)) (λ r. inl refl))
      (λ q. inl refl)

pick_best-cases :
    (track best : Text) (tags : List Text)
    → (pick_best track best tags ≡ best)
      ⊎ (In (pick_best track best tags) tags × (qualifies track (pick_best track best tags) ≡ true))
unfolding pick_best
pick_best-cases track best [] = inl refl
pick_best-cases track best (tag ∷ tags) =
    elim (pick_best-cases track (consider track best tag) tags) [
      | inl same ↦ elim (consider-cases track best tag) [
        | inl old ↦ inl (same ∙ old)
        | inr new ↦ inr (
          inl (sym (same ∙ new.0)),
          subst (λ s. qualifies track s ≡ true) (sym (same ∙ new.0)) new.1,
        )
      ]
      | inr found ↦ inr (inr found.0, found.1)
    ]

-- What a pick may be: nothing where no tag qualifies, or a tag that qualifies and that no other
-- that qualifies is newer than.
abbrev pub IsBest : List Text → Text → Option Text → Type 0
IsBest tags track none = (t : Text) → In t tags → qualifies track t ≡ false
IsBest tags track (some best) =
    In best tags
    × (qualifies track best ≡ true)
    × ((t : Text) → In t tags → qualifies track t ≡ true → newer t best ≡ false)

picked-IsBest :
    (tags : List Text) (track best : Text)
    → (best ≡ []) ⊎ (In best tags × (qualifies track best ≡ true))
    → ((t : Text)
        → In t tags
        → qualifies track t ≡ true
        → (text_eq best [] ≡ false) × (newer t best ≡ false))
    → IsBest tags track (nonempty best)
unfolding text_eq
picked-IsBest tags track [] from above = λ t i. ground (arith, above t i)
picked-IsBest tags track (c ∷ cs) (inl h) above = absurd (cc)
picked-IsBest tags track (c ∷ cs) (inr from) above = (from.0, from.1, λ t i q. (above t i q).1)

-- `PickVersion` returns a release tag of the list that is on the track and that no other release
-- tag of the list on the track is newer than, and it returns none only when the list has no
-- release tag on the track.
pub pick_version-IsBest :
    (tags : List Text) (track : Text) → IsBest tags track (pick_version tags track)
unfolding pick_version
pick_version-IsBest tags track =
    picked-IsBest tags track (pick_best track [] tags) (pick_best-cases track [] tags)
      (pick_best-best track [] tags)
