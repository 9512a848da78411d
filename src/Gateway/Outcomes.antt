-- ===== src/Gateway/Outcomes.antt =====
-- power.go: what a dispatched power operation tells its caller, and when.
use text.Mathlib.TextEquality.{eq_iff}
use typeclaw_operator.Prelude.{
  ◌≤◌, ◌<◌, String, ◌≡◌, refl, sym, subst, ◌⊎◌, inl, inr, Bool, true, false, Option, none, some,
  arith, Bool-cases, if_intro,
}
use typeclaw_operator.Gateway.KubeVirt.{
  ApiErrors, Answer, ok, err, VirtualMachine, VirtualMachineInstance, KubeVirtClient,
  final_instance_phase,
}
use typeclaw_operator.Gateway.Power.{
  is_empty, stable_running_after_start_conflict, nothing_runs, stable_stopped_after_stop_conflict,
  PowerResult, succeeded, rejected, unknown, unknown_action, definitive_power_rejection, judge,
  confirm_settled_after_conflict, classify, settle_conflict, judge_verb, dispatch_power,
  kube_virt_operation_status,
}

abbrev pub verb : Bool → String
verb true = "start"
verb false = "stop"

abbrev pub failure_of : {E : Type 0} → KubeVirtClient E → Bool → Option E
failure_of client true = client.start
failure_of client false = client.stop

module _ {E : Type 0} (api : ApiErrors E) where
  -- A definite rejection is answered with a 4xx status.
  pub definitive-status :
      (e : E)
      → definitive_power_rejection api e ≡ true
      → (400 ≤ kube_virt_operation_status api e) × (kube_virt_operation_status api e < 500)
  unfolding definitive_power_rejection kube_virt_operation_status
  definitive-status e h =
      ground
        (arith, api.timeout_reason e, api.server_timeout_reason e, api.service_unavailable_reason e)

  -- The machine runs, with no change pending.
  pub record SettledRunning (client : KubeVirtClient E) : Type 0 where
    pub vm : VirtualMachine
    pub vmi : VirtualMachineInstance
    pub read_vm : client.get_vm ≡ ok (some vm)
    pub read_vmi : client.get_vmi ≡ ok (some vmi)
    pub kept : (vm.deleting ≡ false) × (vmi.deleting ≡ false)
    pub running : (vm.printable_status ≡ "Running") × (vmi.phase ≡ "Running")
    pub quiet : is_empty vm.state_change_requests ≡ true

  -- No instance still runs: the read finds none, or one in a final phase.
  abbrev pub NoneRuns : Answer E (Option VirtualMachineInstance) → Type 0
  NoneRuns (ok none) = Unit
  NoneRuns (ok (some vmi)) = (vmi.phase ≡ "Succeeded") ⊎ (vmi.phase ≡ "Failed")
  NoneRuns (err e) = api.is_not_found e ≡ true

  -- The machine is stopped under the strategy `Manual`, with no change pending.
  pub record SettledStopped (client : KubeVirtClient E) : Type 0 where
    pub vm : VirtualMachine
    pub read_vm : client.get_vm ≡ ok (some vm)
    pub kept : vm.deleting ≡ false
    pub stopped : (vm.run_strategy ≡ "Manual") × (vm.printable_status ≡ "Stopped")
    pub quiet : is_empty vm.state_change_requests ≡ true
    pub none_runs : NoneRuns client.get_vmi

  abbrev pub Settled : Bool → KubeVirtClient E → Type 0
  Settled true client = SettledRunning client
  Settled false client = SettledStopped client

  judge-running :
      (client : KubeVirtClient E) (vm : Answer E (Option VirtualMachine))
      (vmi : Answer E (Option VirtualMachineInstance))
      → client.get_vm ≡ vm
      → client.get_vmi ≡ vmi
      → judge api true vm vmi ≡ ok true
      → SettledRunning client
  unfolding judge stable_running_after_start_conflict
  judge-running client (ok (some vm)) (ok (some vmi)) p q h = record {
    vm = vm;
    vmi = vmi;
    read_vm = p;
    read_vmi = q;
    kept = ground arith;
    running = (
      (eq_iff vm.printable_status "Running").0 (ground arith),
      (eq_iff vmi.phase "Running").0 (ground arith),
    );
    quiet = ground arith;
  }
  judge-running client (ok none) (ok vmi) p q h = absurd (cc)
  judge-running client (ok (some vm)) (ok none) p q h = absurd (cc)
  judge-running client (ok vm) (err e) p q h = absurd (cc)
  judge-running client (err e) vmi p q h = absurd (cc)

  stopped-Settled :
      (client : KubeVirtClient E) (vm : VirtualMachine) (vmi : Option VirtualMachineInstance)
      → client.get_vm ≡ ok (some vm)
      → stable_stopped_after_stop_conflict (some vm) vmi ≡ true
      → (nothing_runs vmi ≡ true → NoneRuns client.get_vmi)
      → SettledStopped client
  unfolding stable_stopped_after_stop_conflict
  stopped-Settled client vm vmi p h runs = record {
    vm = vm;
    read_vm = p;
    kept = ground arith;
    stopped = (
      (eq_iff vm.run_strategy "Manual").0 (ground arith),
      (eq_iff vm.printable_status "Stopped").0 (ground arith),
    );
    quiet = ground arith;
    none_runs = runs (ground arith);
  }

  final-NoneRuns :
      (vmi : VirtualMachineInstance)
      → final_instance_phase vmi.phase ≡ true
      → (vmi.phase ≡ "Succeeded") ⊎ (vmi.phase ≡ "Failed")
  unfolding final_instance_phase
  final-NoneRuns vmi h = ground (arith, eq_iff vmi.phase "Succeeded", eq_iff vmi.phase "Failed")

  judge-stopped :
      (client : KubeVirtClient E) (vm : Answer E (Option VirtualMachine))
      (vmi : Answer E (Option VirtualMachineInstance))
      → client.get_vm ≡ vm
      → client.get_vmi ≡ vmi
      → judge api false vm vmi ≡ ok true
      → SettledStopped client
  unfolding judge
  judge-stopped client (ok (some vm)) (ok none) p q h =
      stopped-Settled client vm none p (ground arith) (λ _. subst NoneRuns (sym q) tt)
  judge-stopped client (ok (some vm)) (ok (some vmi)) p q h =
      stopped-Settled client vm (some vmi) p (ground arith)
        (λ k. subst NoneRuns (sym q) (final-NoneRuns vmi k))
  judge-stopped client (ok (some vm)) (err e) p q h = elim (Bool-cases (api.is_not_found e)) [
    | inl gone ↦ stopped-Settled client vm none p (ground arith) (λ _. subst NoneRuns (sym q) gone)
    | inr other ↦ absurd (ground arith)
  ]
  judge-stopped client (ok none) (ok vmi) p q h =
      absurd (unfold stable_stopped_after_stop_conflict in cc)
  judge-stopped client (ok none) (err e) p q h =
      absurd (unfold stable_stopped_after_stop_conflict in ground arith)
  judge-stopped client (err e) vmi p q h = absurd (cc)

  confirm-Settled :
      (client : KubeVirtClient E) (is_start : Bool)
      → confirm_settled_after_conflict api client is_start ≡ ok true
      → Settled is_start client
  unfolding confirm_settled_after_conflict
  confirm-Settled client true h = judge-running client client.get_vm client.get_vmi refl refl h
  confirm-Settled client false h = judge-stopped client client.get_vm client.get_vmi refl refl h

  -- The evidence on which each result rests, for a start or a stop that failed or not.
  abbrev pub Evidence : KubeVirtClient E → Bool → Option E → PowerResult E → Type 0
  Evidence client is_start failure (succeeded false) = failure ≡ none
  Evidence client is_start failure (succeeded true) =
      (e : E) × (failure ≡ some e) × (api.is_conflict e ≡ true) × Settled is_start client
  Evidence client is_start failure (rejected e) =
      (failure ≡ some e) × (definitive_power_rejection api e ≡ true)
  Evidence client is_start failure (unknown e) =
      (cause : E) × (failure ≡ some cause)
      × ((definitive_power_rejection api cause ≡ false) ⊎ (api.is_conflict cause ≡ true))
  Evidence client is_start failure unknown_action = ⊥

  classify-Evidence :
      (client : KubeVirtClient E) (is_start : Bool) (e : E)
      → Evidence client is_start (some e) (classify api e)
  unfolding classify
  classify-Evidence client is_start e =
      if_intro (Evidence client is_start (some e)) (definitive_power_rejection api e) _ _
        (λ h. (refl, h)) (λ h. (e, refl, inl h))

  settle-Evidence :
      (client : KubeVirtClient E) (is_start : Bool) (e : E) (settled : Answer E Bool)
      → api.is_conflict e ≡ true
      → confirm_settled_after_conflict api client is_start ≡ settled
      → Evidence client is_start (some e) (settle_conflict api e settled)
  unfolding settle_conflict
  settle-Evidence client is_start e (err confirm_err) h k = (e, refl, inr h)
  settle-Evidence client is_start e (ok true) h k = (e, refl, h, confirm-Settled client is_start k)
  settle-Evidence client is_start e (ok false) h k = classify-Evidence client is_start e

  judge_verb-Evidence :
      (client : KubeVirtClient E) (is_start : Bool) (failure : Option E)
      → Evidence client is_start failure (judge_verb api client is_start failure)
  unfolding judge_verb
  judge_verb-Evidence client is_start none = refl
  judge_verb-Evidence client is_start (some e) =
      if_intro (Evidence client is_start (some e)) (api.is_conflict e) _ _
        (λ h. settle-Evidence client is_start e _ h refl) (λ _. classify-Evidence client is_start e)

  -- A start or a stop is reported as succeeded only if the call did not fail, or failed with a
  -- conflict while the machine is settled in the state asked for, with no change pending; as
  -- rejected only with an answer that proves that nothing ran; and as unknown only if the failure
  -- proves nothing or is a conflict.
  pub dispatch_power-Evidence :
      (client : KubeVirtClient E) (is_start : Bool)
      → Evidence client is_start
          (failure_of client is_start)
          (dispatch_power api client (verb is_start))
  unfolding dispatch_power
  dispatch_power-Evidence client true = judge_verb-Evidence client true client.start
  dispatch_power-Evidence client false = judge_verb-Evidence client false client.stop
