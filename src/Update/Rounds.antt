-- ===== src/Update/Rounds.antt =====
-- autoupdate_controller.go: rollouts over many reconciles.
use typeclaw_operator.Prelude.{
  ℕ, ◌≡◌, refl, sym, ap, ◌∙◌, subst, ◌⊎◌, inl, inr, Bool, true, false, Option, none, some, List, [],
  ◌∷◌, All,
}
use typeclaw_operator.Prelude.Text.{Text, ◌==◌ as text_eq, eq_refl as text_eq_refl}
use typeclaw_operator.Update.Versions.{pick_version}
use typeclaw_operator.Update.Rollout.{
  UpdatePhase, updating, rolled_back, UpdateStatus, AutoUpdateSpec, Status, Instance,
  track_or_default,
}
use typeclaw_operator.Update.Advance.{
  Read, found, missing, failed, Poll, listed, poll_failed, Container, Answers, Outcome, stopped,
  finished, advance_rollout,
}
use typeclaw_operator.Update.Reconcile.{reconcile, finish, rounds}
use typeclaw_operator.Update.Courses.{
  in_flight, Observed, replicas_found, workload_missing, advance, Enabled, unread, idled, advanced,
  polled, reconcile-Course, Untried, Polled, unchanged, deferred, chosen, poll-Polled,
}

abbrev pub Unready : Read ℕ → Type 0
Unready (found n) = n ≡ 0
Unready missing = Unit
Unready failed = Unit

abbrev pub NeverReady : List (Answers × Bool) → Type 0
NeverReady = All (λ r. Unready r.0.ready_replicas)

advance-stays :
    (answers : Answers) (instance : Instance) (au : AutoUpdateSpec) (replicas : ℕ)
    → replicas ≡ 0
    → instance.status.update.confirmation_deadline ≡ none
    → advance answers instance au replicas ≡ finished instance.status none
unfolding advance_rollout
advance-stays answers instance au replicas p q = rw (p, q)

Observed-Unready : (read : Read ℕ) (n : ℕ) → Observed read n → Unready read → n ≡ 0
Observed-Unready _ _ (replicas_found n) u = u
Observed-Unready _ _ workload_missing u = refl

updating-flies : (phase : UpdatePhase) → phase ≡ updating → in_flight phase ≡ true
updating-flies phase p = rw p

-- The end of a round whose outcome leaves the status as it is.
finish-stays :
    (accepted : Bool) (instance : Instance) (outcome : Outcome)
    → (outcome ≡ stopped) ⊎ (outcome ≡ finished instance.status none)
    → finish accepted instance outcome ≡ instance
unfolding finish
finish-stays accepted instance outcome (inl p) = rw p
finish-stays true instance outcome (inr p) = rw p
finish-stays false instance outcome (inr p) = rw p

updating-not_polled : (phase : UpdatePhase) → phase ≡ updating → in_flight phase ≡ false → ⊥
updating-not_polled phase p quiet = cc (sym (updating-flies phase p) ∙ quiet)

updating-course :
    (answers : Answers) (instance : Instance) (au : AutoUpdateSpec)
    → Enabled instance au
    → instance.status.update.phase ≡ updating
    → instance.status.update.confirmation_deadline ≡ none
    → Unready answers.ready_replicas
    → (reconcile answers instance ≡ stopped)
      ⊎ (reconcile answers instance ≡ finished instance.status none)
updating-course answers instance au on p q u = elim (reconcile-Course answers instance) [
  | unread r ↦ inl r
  | idled off r ↦ absurd (off au on)
  | advanced other replicas on seen flying r ↦
      inr (r ∙ advance-stays answers instance other replicas (Observed-Unready _ replicas seen u) q)
  | polled other on quiet r ↦ absurd (updating-not_polled _ p quiet)
]

-- A rollout that has been promoted and never shows a ready replica stays as it is, however many
-- reconciles follow and however late: it has no deadline, so it is neither confirmed nor rolled back.
pub unready_rollout_stays :
    (rs : List (Answers × Bool)) (instance : Instance) (au : AutoUpdateSpec)
    → Enabled instance au
    → instance.status.update.phase ≡ updating
    → instance.status.update.confirmation_deadline ≡ none
    → NeverReady rs
    → rounds rs instance ≡ instance
unfolding rounds
unready_rollout_stays [] instance au on p q u = refl
unready_rollout_stays (r ∷ rs) instance au on p q u =
    ap (rounds rs) (
      finish-stays r.1 instance (reconcile r.0 instance)
        (updating-course r.0 instance au on p q u.0))
    ∙ unready_rollout_stays rs instance au on p q u.1

-- The polls that offer nothing but the version `target`.
abbrev pub Offers : AutoUpdateSpec → Text → Poll → Type 0
Offers au target (poll_failed err) = Unit
Offers au target (listed tags) =
    (pick_version tags (track_or_default au.track) ≡ none)
    ⊎ (pick_version tags (track_or_default au.track) ≡ some target)

abbrev pub AlwaysOffers : AutoUpdateSpec → Text → List (Answers × Bool) → Type 0
AlwaysOffers au target = All (λ r. Offers au target r.0.poll)

none-not_some : (a : Text) → none ≡ some a → ⊥
none-not_some a h = cc

some-injective : (a b : Text) → some a ≡ some b → a ≡ b
some-injective a b h = cc

offered-tried :
    (answers : Answers) (instance : Instance) (au : AutoUpdateSpec) (candidate : Text)
    → Untried answers instance au candidate
    → Offers au instance.status.update.target_version answers.poll
    → ⊥
offered-tried answers instance au candidate new offers =
    elim (subst (Offers au instance.status.update.target_version) new.listing offers) [
      | inl p ↦ none-not_some candidate (sym p ∙ new.picked)
      | inr p ↦ cc (
          sym (
            subst (λ t. text_eq t instance.status.update.target_version ≡ true)
              (some-injective _ candidate (sym p ∙ new.picked))
              (text_eq_refl instance.status.update.target_version))
          ∙ new.untried)
    ]

finish-update :
    (accepted : Bool) (instance : Instance) (status : Status) (containers : Option (List Container))
    → status.update ≡ instance.status.update
    → (finish accepted instance (finished status containers)).status.update ≡ instance.status.update
unfolding finish
finish-update true instance status containers p = p
finish-update false instance status containers p = refl

poll-stays :
    (accepted : Bool) (answers : Answers) (instance : Instance) (au : AutoUpdateSpec)
    (outcome : Outcome)
    → Offers au instance.status.update.target_version answers.poll
    → Polled answers instance au outcome
    → (finish accepted instance outcome).status.update ≡ instance.status.update
poll-stays accepted answers instance au _ offers (unchanged s kept) =
    finish-update accepted instance s none kept
poll-stays accepted answers instance au _ offers (deferred candidate new blocked) =
    absurd (offered-tried answers instance au candidate new offers)
poll-stays accepted answers instance au _ offers (chosen candidate new clear) =
    absurd (offered-tried answers instance au candidate new offers)

stopped-stays :
    (accepted : Bool) (instance : Instance)
    → (finish accepted instance stopped).status.update ≡ instance.status.update
unfolding finish
stopped-stays accepted instance = refl

finish-auto_update :
    (accepted : Bool) (instance : Instance) (outcome : Outcome)
    → (finish accepted instance outcome).auto_update ≡ instance.auto_update
unfolding finish
finish-auto_update accepted instance stopped = refl
finish-auto_update true instance (finished status containers) = refl
finish-auto_update false instance (finished status containers) = refl

some-au : (a b : AutoUpdateSpec) → some a ≡ some b → a ≡ b
some-au a b h = cc

rolled_back-round :
    (accepted : Bool) (answers : Answers) (instance : Instance) (au : AutoUpdateSpec)
    → Enabled instance au
    → instance.status.update.phase ≡ rolled_back
    → Offers au instance.status.update.target_version answers.poll
    → (finish accepted instance (reconcile answers instance)).status.update ≡ instance.status.update
rolled_back-round accepted answers instance au on p offers =
    elim (reconcile-Course answers instance) [
      | unread r ↦
          subst (λ o. (finish accepted instance o).status.update ≡ instance.status.update) (sym r)
            (stopped-stays accepted instance)
      | idled off r ↦ absurd (off au on)
      | advanced other replicas also seen flying r ↦ absurd (cc (sym flying ∙ ap in_flight p))
      | polled other also quiet r ↦
          subst (λ o. (finish accepted instance o).status.update ≡ instance.status.update) (sym r)
            (poll-stays accepted answers instance other _
              (subst (λ a. Offers a instance.status.update.target_version answers.poll)
                (some-au au other (sym on.asked ∙ also.asked)) offers)
              (poll-Polled answers instance other answers.poll refl))
    ]

-- A rollout that was rolled back is not tried again: while the polls fail or offer no version but
-- the one that was rolled back, the record of the rollback stays through any number of reconciles.
pub rolled_back-stays :
    (rs : List (Answers × Bool)) (instance : Instance) (au : AutoUpdateSpec)
    → Enabled instance au
    → instance.status.update.phase ≡ rolled_back
    → AlwaysOffers au instance.status.update.target_version rs
    → (rounds rs instance).status.update ≡ instance.status.update
unfolding rounds
rolled_back-stays [] instance au on p offers = refl
rolled_back-stays (r ∷ rs) instance au on p offers =
    let next = finish r.1 instance (reconcile r.0 instance) in
    let kept = rolled_back-round r.1 r.0 instance au on p offers.0 in
    rolled_back-stays rs next au
      (record {
        asked = finish-auto_update r.1 instance (reconcile r.0 instance) ∙ on.asked;
        turned_on = on.turned_on;
      })
      (ap UpdateStatus.phase kept ∙ p)
      (subst (λ u. AlwaysOffers au (UpdateStatus.target_version u) rs) (sym kept) offers.1)
    ∙ kept
