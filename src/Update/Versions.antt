-- ===== src/Update/Versions.antt =====
-- registry.go: release tags, their order, and the rollout candidate of a track.
use typeclaw_operator.Prelude.{
  ℕ, Bool, false, ◌&&◌, ◌||◌, Option, none, some, List, [], ◌∷◌, ◌++◌, if◌then◌else◌,
}
use typeclaw_operator.Prelude.Text.{Text, text, ◌==◌ as text_eq, split, has_prefix}
use typeclaw_operator.Ints.{ℤ, pos, negsuc, gtb, all_digits, atoi}

abbrev pub dot : ℕ
dot = 46

unfoldable pub digits : Text → Bool
unfolding all_digits
digits [] = false
digits (c ∷ cs) = all_digits (c ∷ cs)

-- `plainSemver`, the pattern of three decimal numbers with a dot between them.
unfoldable pub three_numbers : List Text → Bool
unfolding digits
three_numbers (a ∷ b ∷ c ∷ []) = digits a && digits b && digits c
three_numbers _ = false

unfoldable pub plain_semver : Text → Bool
unfolding split three_numbers
plain_semver tag = three_numbers (split dot tag)

-- A `[3]int`.
abbrev pub Version : Type 0
Version = ℤ × ℤ × ℤ

unfoldable pub triple : Option ℤ → Option ℤ → Option ℤ → Option Version
triple (some a) (some b) (some c) = some (a, b, c)
triple _ _ _ = none

unfoldable pub parse_parts : List Text → Option Version
unfolding atoi triple
parse_parts (a ∷ b ∷ c ∷ []) = triple (atoi a) (atoi b) (atoi c)
parse_parts _ = none

unfoldable pub parse_version : Text → Option Version
unfolding split parse_parts
parse_version tag = parse_parts (split dot tag)

-- One round of the loop of `compareVersion`: the first place where the versions differ decides.
unfoldable pub compare_place : ℤ → ℤ → ℤ → ℤ
unfolding gtb
compare_place a b rest = if gtb a b then pos 1 else if gtb b a then negsuc 0 else rest

unfoldable pub compare_parsed : Option Version → Option Version → ℤ
unfolding compare_place
compare_parsed none none = pos 0
compare_parsed none (some w) = negsuc 0
compare_parsed (some v) none = pos 1
compare_parsed (some v) (some w) =
    compare_place v.0 w.0 (compare_place v.1 w.1 (compare_place v.2 w.2 (pos 0)))

unfoldable pub compare_version : Text → Text → ℤ
unfolding parse_version compare_parsed
compare_version a b = compare_parsed (parse_version a) (parse_version b)

unfoldable pub newer : Text → Text → Bool
unfolding compare_version gtb
newer a b = gtb (compare_version a b) (pos 0)

-- The tests that `PickVersion` makes of a tag.
unfoldable pub qualifies : Text → Text → Bool
unfolding plain_semver has_prefix
qualifies track tag =
    plain_semver tag && (text_eq track (text "latest") || has_prefix tag (track ++ (dot ∷ [])))

-- One round of the loop of `PickVersion`, from the best tag so far.
unfoldable pub consider : Text → Text → Text → Text
unfolding qualifies newer
consider track best tag =
    if qualifies track tag then if text_eq best [] || newer tag best then tag else best else best

unfoldable pub pick_best : Text → Text → List Text → Text
unfolding consider
pick_best track best [] = best
pick_best track best (tag ∷ tags) = pick_best track (consider track best tag) tags

abbrev pub nonempty : Text → Option Text
nonempty [] = none
nonempty (c ∷ cs) = some (c ∷ cs)

unfoldable pub pick_version : List Text → Text → Option Text
unfolding pick_best
pick_version tags track = nonempty (pick_best track [] tags)
