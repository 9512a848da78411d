-- ===== src/Relay/Config.antt =====
-- config.go: the observations of typeclaw.json, and cmd/relay/main.go, which records them in the
-- status of the instance. What `readObservation` reads and what the JSON decoder makes of it are
-- arguments, as is whether the API server accepts the patch of the status.
use package.text.Mathlib.Text.{◌==◌ as str_eq}
use typeclaw_operator.Prelude.{
  ℕ, zero, suc, ◌+◌, String, Bool, true, false, ◌&&◌, ◌||◌, not, Option, none, some, List, [], ◌∷◌,
  ◌++◌, leb, ◌==◌, if◌then◌else◌, is_some, length, all,
}
use typeclaw_operator.Prelude.Maps.{lookup}
use typeclaw_operator.Prelude.Text.{Text, text, ◌==◌ as text_eq, before}
use typeclaw_operator.Ints.{ℤ, pos, negsuc, int64}
use typeclaw_operator.Conditions.{same}

-- `sort.Strings`, on the bytes of ASCII keys.
unfoldable pub insert_sorted : String → List String → List String
unfolding before
insert_sorted key [] = key ∷ []
insert_sorted key (other ∷ others) =
    let rest = insert_sorted key others in
    if before (text other) (text key) then other ∷ rest else key ∷ other ∷ others

unfoldable pub sort_strings : List String → List String
unfolding insert_sorted
sort_strings [] = []
sort_strings (key ∷ keys) = insert_sorted key (sort_strings keys)

abbrev pub Values : Type 0
Values = List (String × Text)

-- The loops of `changedKeys`. Go's maps are walked in some order; the result is sorted.
unfoldable pub differs : Option Text → Text → Bool
differs none value = true
differs (some old) value = not (text_eq old value)

unfoldable pub edited_keys : Values → Values → List String
unfolding differs
edited_keys prev [] = []
edited_keys prev ((key, value) ∷ others) =
    let rest = edited_keys prev others in
    if differs (lookup key prev) value then key ∷ rest else rest

unfoldable pub removed_keys : Values → Values → List String
removed_keys next [] = []
removed_keys next ((key, value) ∷ others) =
    let rest = removed_keys next others in if is_some (lookup key next) then rest else key ∷ rest

unfoldable pub changed_keys : Values → Values → List String
unfolding sort_strings edited_keys removed_keys
changed_keys prev next = sort_strings (edited_keys prev next ++ removed_keys next prev)

unfoldable pub contains : String → List String → Bool
contains key [] = false
contains key (other ∷ others) = str_eq other key || contains key others

unfoldable pub intersects : List String → List String → Bool
unfolding contains
intersects policy [] = false
intersects policy (key ∷ keys) =
    let rest = intersects policy keys in if contains key policy then true else rest

pub record Document : Type 0 where
  pub digest : Text
  pub values : Values

pub data Reading : Type 0 where
  not_emitted : Reading
  unread : Reading
  undecodable : Reading
  document : Document → Reading

abbrev pub is_hex_digit : ℕ → Bool
is_hex_digit c = leb 48 c && leb c 57 || leb 97 c && leb c 102 || leb 65 c && leb c 70

-- `hex.DecodeString` of a text of the even length that is tested before it.
abbrev pub is_hex : ℕ → Text → Bool
is_hex size t = length t == size && all is_hex_digit t

unfoldable pub valid_values : Values → Bool
valid_values [] = true
valid_values ((key, digest) ∷ others) =
    not (str_eq key "") && is_hex 16 digest && valid_values others

-- The checks of `decodeObservationDocument`; an empty digest fails that of the length.
unfoldable pub valid_document : Document → Bool
unfolding valid_values
valid_document d = is_hex 64 d.digest && valid_values d.values

-- `SelfConfigStatus`. A nil one is the record of zero values, as its JSON omits those. `observed_at`
-- counts the seconds of the time's JSON.
pub record SelfConfig : Type 0 where
  pub observed_digest : Text
  pub observed_at : Option ℕ
  pub revision : ℤ
  pub changed_paths : List String
  pub protected_violation : Bool

abbrev pub no_config : SelfConfig
no_config = record {
  observed_digest = [];
  observed_at = none;
  revision = pos 0;
  changed_paths = [];
  protected_violation = false;
}

-- The watcher, with its copy of the instance's status and the status that the API server stores.
pub record ConfigWatcher : Type 0 where
  pub protected_paths : List String
  pub last_digest : Text
  pub last_values : Values
  pub snapshot : SelfConfig
  pub stored : SelfConfig

unfoldable pub next_int64 : ℤ → ℤ
unfolding int64
next_int64 (pos n) = int64 (n + 1)
next_int64 (negsuc zero) = pos 0
next_int64 (negsuc (suc n)) = negsuc n

abbrev pub same_keys : List String → List String → Bool
same_keys [] [] = true
same_keys [] (d ∷ t) = false
same_keys (c ∷ s) [] = false
same_keys (c ∷ s) (d ∷ t) = str_eq c d && same_keys s t

abbrev pub same_time : Option ℕ → Option ℕ → Bool
same_time none none = true
same_time none (some b) = false
same_time (some a) none = false
same_time (some a) (some b) = a == b

abbrev pub same_int : ℤ → ℤ → Bool
same_int (pos a) (pos b) = a == b
same_int (negsuc a) (negsuc b) = a == b
same_int (pos a) (negsuc b) = false
same_int (negsuc a) (pos b) = false

-- A merge patch from `base` to `next`, at the object `stored`: a field that is the same in both is
-- no part of the patch.
unfoldable pub merge_patch : SelfConfig → SelfConfig → SelfConfig → SelfConfig
merge_patch base next stored = record {
  observed_digest =
      if text_eq base.observed_digest next.observed_digest
      then stored.observed_digest
      else next.observed_digest;
  observed_at =
      if same_time base.observed_at next.observed_at then stored.observed_at else next.observed_at;
  revision = if same_int base.revision next.revision then stored.revision else next.revision;
  changed_paths =
      if same_keys base.changed_paths next.changed_paths
      then stored.changed_paths
      else next.changed_paths;
  protected_violation =
      if same base.protected_violation next.protected_violation
      then stored.protected_violation
      else next.protected_violation;
}

-- `Observe` of cmd/relay. The copy is changed before the patch and stays so when that fails; a patch
-- that is accepted brings the copy up to what the API server stores.
unfoldable pub observe : ConfigWatcher → SelfConfig → Bool → ConfigWatcher
unfolding merge_patch
observe w next false = record w { snapshot = next }
observe w next true =
    let merged = merge_patch w.snapshot next w.stored in
    record w { snapshot = merged; stored = merged }

unfoldable pub observation : ConfigWatcher → ℕ → Document → SelfConfig
unfolding changed_keys intersects next_int64
observation w now d =
    let changed = changed_keys w.last_values d.values in
    if text_eq w.last_digest []
    then record {
      observed_digest = d.digest;
      observed_at = some now;
      revision = pos 0;
      changed_paths = [];
      protected_violation = false;
    }
    else record {
      observed_digest = d.digest;
      observed_at = some now;
      revision = next_int64 w.snapshot.revision;
      changed_paths = changed;
      protected_violation = intersects w.protected_paths changed;
    }

unfoldable pub commit : ConfigWatcher → Document → Bool → ConfigWatcher
commit w d accepted =
    if accepted then record w { last_digest = d.digest; last_values = d.values } else w

unfoldable pub poll_config : ConfigWatcher → ℕ → Bool → Reading → ConfigWatcher
unfolding valid_document observe observation commit
poll_config w now accepted not_emitted = w
poll_config w now accepted unread = w
poll_config w now accepted undecodable = w
poll_config w now accepted (document d) =
    if not (valid_document d)
    then w
    else if text_eq d.digest w.last_digest
    then w
    else commit (observe w (observation w now d) accepted) d accepted
