-- ===== src/Relay/Watch.antt =====
-- watch.go: one pass over the dropped restart requests. The control directory is a map from paths to
-- files and the request identifiers under consumed/, and each call of the file system and of the API
-- server has an arbitrary answer.
use package.text.Mathlib.Text.{◌==◌ as str_eq}
use typeclaw_operator.Prelude.{
  ℕ, String, Bool, true, false, ◌&&◌, ◌||◌, not, Option, none, some, List, [], ◌∷◌, ◌==◌,
  if◌then◌else◌, any,
}
use typeclaw_operator.Prelude.Maps.{lookup, erase}
use typeclaw_operator.Prelude.Text.{Text, ◌==◌ as text_eq}
use typeclaw_operator.Ints.{ℤ, pos, negsuc}

pub record RestartRequest : Type 0 where
  pub schema_version : ℤ
  pub kind : String
  pub request_id : Text
  pub runtime_id : String

-- A file as `json.Unmarshal` sees it.
pub data File : Type 0 where
  malformed : File
  request : RestartRequest → File

-- `delivered` is no part of the directory: the requests for which the API server has answered that
-- the Pod is deleted, or gone.
pub record ControlDir : Type 0 where
  pub drops : List (String × File)
  pub consumed : List Text
  pub delivered : List Text

pub data Deleted : Type 0 where
  pod_deleted : Deleted
  pod_gone : Deleted
  delete_failed : Deleted

-- `reads` is whether `os.ReadFile` succeeds, and `stats` whether `os.Stat` of an existing marker succeeds.
pub record PassAnswers : Type 0 where
  pub reads : Bool
  pub removes : Bool
  pub stats : Bool
  pub deleted : Deleted
  pub archives : Bool

-- `drop`.
unfoldable pub drop : ControlDir → String → PassAnswers → ControlDir
drop dir path answers = if answers.removes then record dir { drops = erase path dir.drops } else dir

abbrev pub is_separator : ℕ → Bool
is_separator c = c == 47 || c == 92

abbrev pub is_one : ℤ → Bool
is_one (pos n) = n == 1
is_one (negsuc n) = false

abbrev pub no_text : Text → Bool
no_text [] = true
no_text (c ∷ cs) = false

-- The cases of the `switch` that accept a request.
unfoldable pub acceptable : String → RestartRequest → Bool
acceptable own r =
    is_one r.schema_version
    && (str_eq r.kind "restart"
        && (not (no_text r.request_id || any is_separator r.request_id) && str_eq r.runtime_id own))

unfoldable pub has_marker : Text → List Text → Bool
has_marker id [] = false
has_marker id (other ∷ others) =
    let rest = has_marker id others in if text_eq other id then true else rest

-- `archive`: the file becomes the marker.
unfoldable pub archive : ControlDir → String → Text → PassAnswers → ControlDir
archive dir path id answers =
    if answers.archives
    then record dir { drops = erase path dir.drops; consumed = id ∷ dir.consumed }
    else dir

abbrev pub deliver : Text → ControlDir → ControlDir
deliver id dir = record dir { delivered = id ∷ dir.delivered }

unfoldable pub actuate : ControlDir → String → Text → PassAnswers → Deleted → ControlDir
unfolding archive
actuate dir path id answers delete_failed = dir
actuate dir path id answers pod_deleted = archive (deliver id dir) path id answers
actuate dir path id answers pod_gone = archive (deliver id dir) path id answers

unfoldable pub consume_file : String → ControlDir → String → PassAnswers → Option File → ControlDir
unfolding drop acceptable has_marker actuate
consume_file own dir path answers none = drop dir path answers
consume_file own dir path answers (some malformed) = drop dir path answers
consume_file own dir path answers (some (request r)) =
    if not (acceptable own r)
    then drop dir path answers
    else if answers.stats && has_marker r.request_id dir.consumed
    then drop dir path answers
    else actuate dir path r.request_id answers answers.deleted

unfoldable pub consume : String → ControlDir → String → PassAnswers → ControlDir
unfolding consume_file drop
consume own dir path answers =
    if answers.reads
    then consume_file own dir path answers (lookup path dir.drops)
    else drop dir path answers

-- `pollOnce` over the paths that the glob has matched, in their order.
unfoldable pub poll_once : String → ControlDir → List (String × PassAnswers) → ControlDir
unfolding consume
poll_once own dir [] = dir
poll_once own dir ((path, answers) ∷ others) = poll_once own (consume own dir path answers) others
