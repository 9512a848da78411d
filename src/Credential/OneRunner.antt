-- ===== src/Credential/OneRunner.antt =====
-- credential_controller.go: one ticket, one runner.
use typeclaw_operator.Prelude.{◌≡◌, refl, ap, true, List, [], ◌∷◌}
use typeclaw_operator.Prelude.Text.{Text}
use typeclaw_operator.Credential.Requests.{Request, Reads, Reply, Cluster, run}
use typeclaw_operator.Credential.Reconcile.{has_runner}
use typeclaw_operator.Credential.Execute.{reconcile_request}
use typeclaw_operator.Credential.Stages.{At, Once, run-Once}
use typeclaw_operator.Credential.Quiet.{stage_of}
use typeclaw_operator.Credential.Scripts.{reconcile_request-Fits}

Once-At :
    (c : Cluster) (name : Text)
    → c.request.status.runner_name ≡ name
    → Once c
    → At (stage_of name) c
Once-At c [] h once = (ap has_runner h, once.1 (ap has_runner h))
Once-At c (x ∷ xs) h once = (ap has_runner h, once.0)

-- What happens to a request: a reconcile, with what it reads and the replies to its writes, or a
-- user who deletes it.
pub data Event : Type 0 where
  reconciled : Reads → List Reply → Event
  deletion_asked : Event

abbrev deleting_now : Request → Request
deleting_now r = record {
  name = r.name;
  generation = r.generation;
  deleting = true;
  has_finalizer = r.has_finalizer;
  owner = r.owner;
  spec = r.spec;
  status = r.status;
}

unfoldable pub happen : Event → Cluster → Cluster
unfolding run reconcile_request
happen (reconciled reads replies) c = run (reconcile_request reads c.request) replies c
happen deletion_asked c = record { request = deleting_now c.request; created = c.created }

unfoldable pub history : List Event → Cluster → Cluster
unfolding happen
history [] c = c
history (e ∷ es) c = history es (happen e c)

happen-Once : (e : Event) (c : Cluster) → Once c → Once (happen e c)
unfolding happen
happen-Once (reconciled reads replies) c once =
    run-Once (stage_of c.request.status.runner_name) (reconcile_request reads c.request) replies c
      (reconcile_request-Fits reads c.request) (Once-At c c.request.status.runner_name refl once)
happen-Once deletion_asked c once = once

-- However often a request is reconciled, whatever the reads return and whichever writes fail, are
-- lost or find their object there, at most one runner Job is created for it, and none before the
-- status names the runner, which is when the ticket is consumed.
pub history-Once : (es : List Event) (c : Cluster) → Once c → Once (history es c)
unfolding history
history-Once [] c once = once
history-Once (e ∷ es) c once = history-Once es (happen e c) (happen-Once e c once)
