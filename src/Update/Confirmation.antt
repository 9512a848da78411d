-- ===== src/Update/Confirmation.antt =====
-- autoupdate_controller.go: the confirmation of a rollout, and its deadline.
-- The only ways in which `advanceRollout` changes an update's record with a ready workload.
use typeclaw_operator.Prelude.{
  ℕ, ◌≡◌, refl, sym, ap, subst, ◌⊎◌, inl, inr, Bool, true, false, ◌&&◌, ◌||◌, none, [], arith,
  if◌then◌else◌, if_intro,
}
use typeclaw_operator.Ints.{ℤ}
use typeclaw_operator.Update.Rollout.{
  UpdatePhase, none_yet, idle, awaiting_backup, updating, confirming, ready, rolled_back,
  UpdateStatus, Status, add_time,
}
use typeclaw_operator.Update.Advance.{
  Answers, report, keep_deadline, start_confirming, confirm, is_updating, is_confirming, reached,
  confirm_if_due, advance_ready,
}

pub data Advanced (answers : Answers) (timeout : ℤ) (u v : UpdateStatus) : Type 0 where
  as_before :
      is_updating u.phase ≡ false
      → (is_confirming u.phase && reached answers.now u.confirmation_deadline) ≡ false
      → u ≡ v
      → Advanced answers timeout u v
  window_opened :
      u.phase ≡ updating
      → reached answers.now (keep_deadline u.confirmation_deadline (add_time answers.now timeout))
        ≡ false
      → v.phase ≡ confirming
      → v.target_version ≡ u.target_version
      → v.promoted_image ≡ u.promoted_image
      → v.current_version ≡ u.current_version
      → v.confirmation_deadline
        ≡ keep_deadline u.confirmation_deadline (add_time answers.now timeout)
      → Advanced answers timeout u v
  now_confirmed :
      (is_updating u.phase || is_confirming u.phase) ≡ true
      → reached answers.now (
          if is_updating u.phase
          then keep_deadline u.confirmation_deadline (add_time answers.now timeout)
          else u.confirmation_deadline)
        ≡ true
      → v.phase ≡ ready
      → v.current_version ≡ u.target_version
      → v.promoted_image ≡ []
      → v.confirmation_deadline ≡ none
      → Advanced answers timeout u v

is_updating-updating : (phase : UpdatePhase) → is_updating phase ≡ true → phase ≡ updating
is_updating-updating updating h = refl
is_updating-updating none_yet h = absurd (cc)
is_updating-updating idle h = absurd (cc)
is_updating-updating awaiting_backup h = absurd (cc)
is_updating-updating confirming h = absurd (cc)
is_updating-updating ready h = absurd (cc)
is_updating-updating rolled_back h = absurd (cc)

and_left : (b c : Bool) → (b && c) ≡ true → b ≡ true
and_left b c h = ground arith

and_right : (b c : Bool) → (b && c) ≡ true → c ≡ true
and_right b c h = ground arith

either_true : (b c : Bool) → (b ≡ true) ⊎ (c ≡ true) → (b || c) ≡ true
either_true b c (inl h) = ground (arith, h)
either_true b c (inr h) = ground (arith, h)

abbrev confirmed_update : UpdateStatus → UpdateStatus
confirmed_update u = record {
  phase = ready;
  current_version = u.target_version;
  target_version = [];
  promoted_image = [];
  confirmation_deadline = none;
  message = [];
}

confirm_if_due-cases :
    (answers : Answers) (generation : ℕ) (status : Status)
    → (((is_confirming status.update.phase
            && reached answers.now status.update.confirmation_deadline)
          ≡ false)
        × ((confirm_if_due answers generation status).update ≡ status.update))
      ⊎ ((is_confirming status.update.phase ≡ true)
          × (reached answers.now status.update.confirmation_deadline ≡ true)
          × ((confirm_if_due answers generation status).update ≡ confirmed_update status.update))
unfolding confirm_if_due confirm report
confirm_if_due-cases answers generation status =
    let due =
      is_confirming status.update.phase
      && reached answers.now status.update.confirmation_deadline in
    if_intro
      (λ s.
        ((due ≡ false) × (s.update ≡ status.update))
        ⊎ ((is_confirming status.update.phase ≡ true)
            × (reached answers.now status.update.confirmation_deadline ≡ true)
            × (s.update ≡ confirmed_update status.update)))
      due (confirm answers generation status) status
      (λ h. inr (and_left _ _ h, and_right _ _ h, refl)) (λ h. inl (h, refl))

opened-Advanced :
    (answers : Answers) (generation : ℕ) (timeout : ℤ) (status : Status)
    → is_updating status.update.phase ≡ true
    → Advanced answers timeout status.update
        (confirm_if_due answers generation
          (start_confirming answers generation timeout status)).update
unfolding start_confirming report
opened-Advanced answers generation timeout status up =
    elim (confirm_if_due-cases answers generation
      (start_confirming answers generation timeout status)) [
        | inl kept ↦
            window_opened (is_updating-updating _ up) kept.0 (ap UpdateStatus.phase kept.1)
              (ap UpdateStatus.target_version kept.1) (ap UpdateStatus.promoted_image kept.1)
              (ap UpdateStatus.current_version kept.1)
              (ap UpdateStatus.confirmation_deadline kept.1)
        | inr due ↦
            now_confirmed (either_true _ _ (inl up))
              (subst
                (λ b.
                  reached answers.now (
                    if b
                    then keep_deadline status.update.confirmation_deadline
                        (add_time answers.now timeout)
                    else status.update.confirmation_deadline)
                  ≡ true)
                (sym up) due.1)
              (ap UpdateStatus.phase due.2) (ap UpdateStatus.current_version due.2)
              (ap UpdateStatus.promoted_image due.2) (ap UpdateStatus.confirmation_deadline due.2)
      ]

waiting-Advanced :
    (answers : Answers) (generation : ℕ) (timeout : ℤ) (status : Status)
    → is_updating status.update.phase ≡ false
    → Advanced answers timeout status.update (confirm_if_due answers generation status).update
waiting-Advanced answers generation timeout status other =
    elim (confirm_if_due-cases answers generation status) [
      | inl kept ↦ as_before other kept.0 (sym kept.1)
      | inr due ↦
          now_confirmed (either_true _ _ (inr due.0))
            (subst
              (λ b.
                reached answers.now (
                  if b
                  then keep_deadline status.update.confirmation_deadline
                      (add_time answers.now timeout)
                  else status.update.confirmation_deadline)
                ≡ true)
              (sym other) due.1)
            (ap UpdateStatus.phase due.2) (ap UpdateStatus.current_version due.2)
            (ap UpdateStatus.promoted_image due.2) (ap UpdateStatus.confirmation_deadline due.2)
    ]

-- What `advanceRollout` does with a ready workload. An updating rollout whose deadline, an old one or
-- else the timeout from now, is not reached gets its confirmation window with that deadline; an
-- updating or confirming one whose deadline is reached is confirmed: the target becomes the current
-- version; the record is left alone exactly where neither is the case.
pub advance_ready-Advanced :
    (answers : Answers) (generation : ℕ) (timeout : ℤ) (status : Status)
    → Advanced answers timeout status.update
        (advance_ready answers generation timeout status).update
unfolding advance_ready
advance_ready-Advanced answers generation timeout status =
    if_intro
      (λ s. Advanced answers timeout status.update (confirm_if_due answers generation s).update)
      (is_updating status.update.phase) (start_confirming answers generation timeout status) status
      (opened-Advanced answers generation timeout status)
      (waiting-Advanced answers generation timeout status)
