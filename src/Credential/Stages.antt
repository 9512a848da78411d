-- ===== src/Credential/Stages.antt =====
-- credential_controller.go: scripts that create a runner's Job at most once.
-- Where a request stands: without a named runner; with one that the script has named and no Job yet;
-- or with one for which a Job may exist.
use typeclaw_operator.Prelude.{
  ◌≤◌, ◌≡◌, sym, ap, ◌∙◌, subst, inl, inr, true, false, List, [], ◌∷◌, arith, if◌then◌else◌,
  Bool-cases, if_intro, length,
}
use typeclaw_operator.Prelude.Text.{Text}
use typeclaw_operator.Credential.Requests.{
  Write, add_finalizer, remove_finalizer, set_owner, patch_status, apply_network_policy,
  delete_network_policy, create_job, delete_job, Script, end, attempt, Reply, accepted, already,
  rejected, tolerates, Cluster, apply_write, run,
}
use typeclaw_operator.Credential.Reconcile.{has_runner}

pub data Stage : Type 0 where
  unnamed : Stage
  fresh : Stage
  spent : Stage

abbrev pub Allowed : Stage → Write → Type 0
Allowed fresh (create_job name) = Unit
Allowed unnamed (create_job name) = ⊥
Allowed spent (create_job name) = ⊥
Allowed unnamed (patch_status s) = Unit
Allowed fresh (patch_status s) = has_runner s.runner_name ≡ true
Allowed spent (patch_status s) = has_runner s.runner_name ≡ true
Allowed _ _ = Unit

abbrev pub next_stage : Stage → Write → Stage
next_stage unnamed (patch_status s) = if has_runner s.runner_name then fresh else unnamed
next_stage k (create_job name) = spent
next_stage k _ = k

abbrev pub Safe : Stage → Script → Type 0
Safe k end = Unit
Safe k (attempt write next failure) =
    Allowed k write × Safe (next_stage k write) next × Safe k failure

-- What a stage says of the cluster.
abbrev pub At : Stage → Cluster → Type 0
At unnamed c = (has_runner c.request.status.runner_name ≡ false) × (c.created ≡ [])
At fresh c = (has_runner c.request.status.runner_name ≡ true) × (c.created ≡ [])
At spent c = (has_runner c.request.status.runner_name ≡ true) × (length c.created ≤ 1)

-- At most one Job has been created for the request, and none before its runner is named.
abbrev pub Once : Cluster → Type 0
Once c = (length c.created ≤ 1) × (has_runner c.request.status.runner_name ≡ false → c.created ≡ [])

no_more : (c : Cluster) → c.created ≡ [] → length c.created ≤ 1
no_more c h = subst (λ l. length l ≤ 1) (sym h) (omega arith)

one_created : (name : Text) (c : Cluster) → c.created ≡ [] → length (name ∷ c.created) ≤ 1
one_created name c h = subst (λ l. length (name ∷ l) ≤ 1) (sym h) (omega arith)

apply-At :
    (k : Stage) (write : Write) (c : Cluster)
    → Allowed k write
    → At k c
    → At (next_stage k write) (apply_write write c)
unfolding apply_write
apply-At unnamed add_finalizer c a h = h
apply-At fresh add_finalizer c a h = h
apply-At spent add_finalizer c a h = h
apply-At unnamed remove_finalizer c a h = h
apply-At fresh remove_finalizer c a h = h
apply-At spent remove_finalizer c a h = h
apply-At unnamed (set_owner o) c a h = h
apply-At fresh (set_owner o) c a h = h
apply-At spent (set_owner o) c a h = h
apply-At unnamed (patch_status s) c a h = elim (Bool-cases (has_runner s.runner_name)) [
  | inl named ↦
      subst (λ k. At k (apply_write (patch_status s) c))
        (sym (ap (λ b. if b then fresh else unnamed) named)) (named, h.1)
  | inr bare ↦
      subst (λ k. At k (apply_write (patch_status s) c))
        (sym (ap (λ b. if b then fresh else unnamed) bare)) (bare, h.1)
]
apply-At fresh (patch_status s) c a h = (a, h.1)
apply-At spent (patch_status s) c a h = (a, h.1)
apply-At unnamed apply_network_policy c a h = h
apply-At fresh apply_network_policy c a h = h
apply-At spent apply_network_policy c a h = h
apply-At unnamed delete_network_policy c a h = h
apply-At fresh delete_network_policy c a h = h
apply-At spent delete_network_policy c a h = h
apply-At unnamed (create_job name) c a h = absurd a
apply-At fresh (create_job name) c a h = (h.0, one_created name c h.1)
apply-At spent (create_job name) c a h = absurd a
apply-At unnamed (delete_job name) c a h = h
apply-At fresh (delete_job name) c a h = h
apply-At spent (delete_job name) c a h = h

At-Once : (k : Stage) (c : Cluster) → At k c → Once c
At-Once unnamed c h = (no_more c h.1, λ bare. h.1)
At-Once fresh c h = (no_more c h.1, λ bare. h.1)
At-Once spent c h = (h.1, λ bare. absurd (cc (sym h.0 ∙ bare)))

-- A write that finds its work done leaves the stage that the next one needs.
already-At :
    (k : Stage) (write : Write) (c : Cluster)
    → tolerates write ≡ true
    → Allowed k write
    → At k c
    → At (next_stage k write) c
already-At unnamed (create_job name) c t a h = absurd a
already-At fresh (create_job name) c t a h = (h.0, no_more c h.1)
already-At spent (create_job name) c t a h = absurd a
already-At unnamed (delete_job name) c t a h = h
already-At fresh (delete_job name) c t a h = h
already-At spent (delete_job name) c t a h = h
already-At unnamed delete_network_policy c t a h = h
already-At fresh delete_network_policy c t a h = h
already-At spent delete_network_policy c t a h = h
already-At k add_finalizer c t a h = absurd (cc t)
already-At k remove_finalizer c t a h = absurd (cc t)
already-At k (set_owner o) c t a h = absurd (cc t)
already-At k (patch_status s) c t a h = absurd (cc t)
already-At k apply_network_policy c t a h = absurd (cc t)

pub run-Once :
    (k : Stage) (script : Script) (replies : List Reply) (c : Cluster)
    → Safe k script
    → At k c
    → Once (run script replies c)
unfolding run
run-Once k end replies c safe h = At-Once k c h
run-Once k (attempt write next failure) [] c safe h = At-Once k c h
run-Once k (attempt write next failure) (accepted ∷ replies) c safe h =
    run-Once (next_stage k write) next replies (apply_write write c) safe.1
      (apply-At k write c safe.0 h)
run-Once k (attempt write next failure) (already ∷ replies) c safe h =
    if_intro Once (tolerates write) (run next replies c) (run failure replies c)
      (λ t. run-Once (next_stage k write) next replies c safe.1 (already-At k write c t safe.0 h))
      (λ t. run-Once k failure replies c safe.2 h)
run-Once k (attempt write next failure) (rejected ∷ replies) c safe h =
    run-Once k failure replies c safe.2 h
