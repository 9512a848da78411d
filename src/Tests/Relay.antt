-- ===== src/Tests/Relay.antt =====
-- A restart request through two polls.
use typeclaw_operator.Prelude.{
  ℕ, String, ◌≡◌, refl, inl, true, false, some, List, [], ◌∷◌, ◌++◌, arith,
}
use typeclaw_operator.Prelude.Maps.{lookup, erase}
use typeclaw_operator.Prelude.Text.{Text, text, ◌==◌ as text_eq}
use typeclaw_operator.Ints.{pos}
use typeclaw_operator.Relay.Watch.{
  RestartRequest, request, ControlDir, pod_deleted, delete_failed, PassAnswers, acceptable,
  has_marker, poll_once,
}
use typeclaw_operator.Relay.Delivery.{Kept, poll_once-Kept}
use typeclaw_operator.Relay.Config.{
  changed_keys, Document, document, valid_document, SelfConfig, ConfigWatcher, poll_config,
}
use typeclaw_operator.Relay.Changes.{IsMap}
use typeclaw_operator.Relay.Status.{
  SaysAs, poll_config-retry, Synced, Recorded, poll_config-Recorded,
}
use typeclaw_operator.Relay.Markers.{Honest}

abbrev restart : RestartRequest
restart = record {
  schema_version = pos 1;
  kind = "restart";
  request_id = text "r1";
  runtime_id = "own";
}

abbrev spool : ControlDir
spool = record { drops = ("restart-r1.json", request restart) ∷ []; consumed = []; delivered = [] }

abbrev fails : PassAnswers
fails = record {
  reads = true;
  removes = true;
  stats = true;
  deleted = delete_failed;
  archives = true;
}

abbrev works : PassAnswers
works = record {
  reads = true;
  removes = true;
  stats = true;
  deleted = pod_deleted;
  archives = true;
}

abbrev passes : List (String × PassAnswers)
passes = ("restart-r1.json", fails) ∷ ("restart-r1.json", works) ∷ []

consumes :
    poll_once "own" spool passes
    ≡ record { drops = []; consumed = text "r1" ∷ []; delivered = text "r1" ∷ [] }
unfolding poll_once lookup erase text_eq
consumes = refl

accepts : acceptable "own" restart ≡ true
unfolding acceptable
accepts = refl

waits : lookup "restart-r1.json" spool.drops ≡ some (request restart)
unfolding lookup
waits = refl

spool-Honest : Honest spool
unfolding Honest has_marker
spool-Honest = λ id h. absurd (ground (arith, h))

poll_once-Kept_example :
    Kept (poll_once "own" spool passes) "restart-r1.json" restart
    × Honest (poll_once "own" spool passes)
poll_once-Kept_example =
    poll_once-Kept "own" spool passes "restart-r1.json" restart accepts (λ h. refl, (λ h. refl, tt))
      spool-Honest (inl waits)

-- The observation of a document whose protected key has changed.
abbrev sixteen : ℕ → Text
sixteen c = c ∷ c ∷ c ∷ c ∷ c ∷ c ∷ c ∷ c ∷ c ∷ c ∷ c ∷ c ∷ c ∷ c ∷ c ∷ c ∷ []

abbrev full : ℕ → Text
full c = sixteen c ++ sixteen c ++ sixteen c ++ sixteen c

abbrev edited : Document
edited = record { digest = full 98; values = ("model", sixteen 98) ∷ ("channels", sixteen 97) ∷ [] }

abbrev clean : SelfConfig
clean = record {
  observed_digest = full 97;
  observed_at = some 1;
  revision = pos 0;
  changed_paths = [];
  protected_violation = false;
}

abbrev watching : ConfigWatcher
watching = record {
  protected_paths = "model" ∷ [];
  last_digest = full 97;
  last_values = ("model", sixteen 97) ∷ ("channels", sixteen 97) ∷ [];
  snapshot = clean;
  stored = clean;
}

violates : (poll_config watching 2 true (document edited)).stored.protected_violation ≡ true
unfolding poll_config text_eq changed_keys lookup
violates = refl

is_valid : valid_document edited ≡ true
unfolding valid_document
is_valid = refl

is_new : text_eq edited.digest watching.last_digest ≡ false
unfolding text_eq
is_new = refl

has_started : text_eq watching.last_digest [] ≡ false
unfolding text_eq
has_started = refl

edited-IsMap : IsMap edited.values
unfolding lookup
edited-IsMap = (refl, (refl, tt))

poll_config-Recorded_example :
    let after = poll_config watching 2 true (document edited) in
    Synced after × Recorded watching edited after.stored
poll_config-Recorded_example =
    poll_config-Recorded watching 2 edited (is_valid, is_new) refl has_started edited-IsMap

poll_config-retry_example :
    SaysAs
      (poll_config (poll_config watching 2 false (document edited)) 3 true (document edited)).stored
      watching.stored
poll_config-retry_example = poll_config-retry watching 2 3 edited
