-- ===== src/Backup/Once.antt =====
-- backup_controller.go: how many restore Jobs the reconciles of one annotation create.
use typeclaw_operator.Prelude.{
  ◌≡◌, refl, sym, ap, ◌∙◌, ◌⊎◌, inl, inr, Bool, true, false, ◌&&◌, not, List, [], ◌∷◌, arith,
  if◌then◌else◌, if_intro, All,
}
use typeclaw_operator.Prelude.Text.{Text, eq_iff as text_eq_iff, eq_refl as text_eq_refl}
use typeclaw_operator.Backup.Reconcile.{Instance, Meets, Cluster, is_dispatched, reconcile_backup}
use typeclaw_operator.Backup.Restores.{reconcile_backup-Step, reconcile_backup-recorded}

-- A reconcile of an instance, which may change between reconciles but for its annotation, when the
-- restore Jobs that are there are `jobs`: some may have been deleted since the last.
pub record Round : Type 0 where
  pub meets : Meets
  pub instance : Instance
  pub jobs : List Text

both_ways : (x : Bool) → (not x && x) ≡ false
both_ways true = refl
both_ways false = refl

known_before : (x y : Bool) → x ≡ true → (not x && y) ≡ false
known_before x y h = ground (arith, h)

second_true : (x y : Bool) → (not x && y) ≡ true → y ≡ true
second_true x y h = ground (arith, h)

module _ (quote restore_job_name : Text → Text) where
  dispatched_self : (name : Text) (others : List Text) → is_dispatched name (name ∷ others) ≡ true
  unfolding is_dispatched
  dispatched_self name others = ground (arith, text_eq_refl name)

  abbrev pub before : Round → Cluster → Cluster
  before r c = record c { dispatched = r.jobs }

  abbrev pub after : Round → Cluster → Cluster
  after r c = reconcile_backup quote restore_job_name r.meets r.instance (before r c)

  -- Whether the round creates the restore Job of its annotation.
  abbrev pub creates : Round → Cluster → Bool
  creates r c =
      let name = restore_job_name r.instance.restore in
      not (is_dispatched name r.jobs) && is_dispatched name (after r c).dispatched

  -- The rounds that create one.
  unfoldable pub creations : List Round → Cluster → List Round
  unfolding reconcile_backup is_dispatched
  creations [] c = []
  creations (r ∷ rs) c =
      let rest = creations rs (after r c) in if creates r c then r ∷ rest else rest

  -- Every round has the annotation.
  abbrev pub Annotated : Text → List Round → Type 0
  Annotated value = All (λ r. r.instance.restore ≡ value)

  -- The Job of the value is there, or the value is recorded as processed.
  abbrev pub Restored : Text → List Text → Cluster → Type 0
  Restored value jobs c =
      (is_dispatched (restore_job_name value) jobs ≡ true)
      ⊎ (c.status.restore_last_processed ≡ value)

  -- Nobody deletes the Job of the value before the value is recorded as processed.
  unfoldable pub Patient : Text → List Round → Cluster → Type 0
  unfolding reconcile_backup
  Patient value [] c = Unit
  Patient value (r ∷ rs) c =
      (is_dispatched (restore_job_name value) c.dispatched ≡ true → Restored value r.jobs c)
      × Patient value rs (after r c)

  -- The instance was suspended, and had a backup.
  abbrev pub IsStopped : Round → Type 0
  IsStopped r = (r.instance.suspend ≡ true) × (r.instance.has_backup ≡ true)

  creates-nothing :
      (r : Round) (c : Cluster) → (after r c).dispatched ≡ r.jobs → creates r c ≡ false
  creates-nothing r c kept =
      let name = restore_job_name r.instance.restore in
      ap (λ jobs. not (is_dispatched name r.jobs) && is_dispatched name jobs) kept
      ∙ both_ways (is_dispatched name r.jobs)

  creates-IsStopped : (r : Round) (c : Cluster) → creates r c ≡ true → IsStopped r
  creates-IsStopped r c made =
      elim (reconcile_backup-Step quote restore_job_name r.meets r.instance (before r c)) [
        | inl kept ↦ absurd (ground (arith, sym made ∙ creates-nothing r c kept))
        | inr (added, fresh, unknown, stopped, enabled) ↦ (stopped, enabled)
      ]

  recorded-stays :
      (value : Text) (r : Round) (c : Cluster)
      → r.instance.restore ≡ value
      → c.status.restore_last_processed ≡ value
      → (after r c).status.restore_last_processed ≡ value
  recorded-stays value r c same says =
      elim (reconcile_backup-recorded quote restore_job_name r.meets r.instance (before r c)) [
        | inl given ↦ given ∙ same
        | inr kept ↦ kept ∙ says
      ]

  -- Where the value is restored, a round creates nothing, and the value stays restored.
  creates-not_again :
      (value : Text) (r : Round) (c : Cluster)
      → r.instance.restore ≡ value
      → Restored value r.jobs c
      → (creates r c ≡ false) × Restored value (after r c).dispatched (after r c)
  creates-not_again value r c same (inl there) =
      let name = ap restore_job_name same in
      let known = ap (λ n. is_dispatched n r.jobs) name ∙ there in
      elim (reconcile_backup-Step quote restore_job_name r.meets r.instance (before r c)) [
        | inl kept ↦ (
          creates-nothing r c kept,
          inl (ap (is_dispatched (restore_job_name value)) kept ∙ there),
        )
        | inr grown ↦ absurd (ground (arith, sym grown.2 ∙ known))
      ]
  creates-not_again value r c same (inr says) =
      elim (reconcile_backup-Step quote restore_job_name r.meets r.instance (before r c)) [
        | inl kept ↦ (creates-nothing r c kept, inr (recorded-stays value r c same says))
        | inr grown ↦ absurd (
            ground (
              arith,
              sym grown.1
                  ∙ (text_eq_iff r.instance.restore c.status.restore_last_processed).1
                      (same ∙ sym says),
            ))
      ]

  creations-none :
      (value : Text) (rs : List Round) (c : Cluster)
      → Annotated value rs
      → Patient value rs c
      → Restored value c.dispatched c
      → creations rs c ≡ []
  unfolding creations Patient
  creations-none value [] c a p restored = refl
  creations-none value (r ∷ rs) c (same, a) (patient, p) restored =
      let still : Restored value r.jobs c = elim restored [
        | inl there ↦ patient there
        | inr says ↦ inr says
      ] in
      let again = creates-not_again value r c same still in
      if_intro (λ (made : List Round). made ≡ []) (creates r c) (r ∷ creations rs (after r c))
        (creations rs (after r c)) (λ h. absurd (ground (arith, sym h ∙ again.0)))
        (λ h. creations-none value rs (after r c) a p again.1)

  creations-IsStopped : (rs : List Round) (c : Cluster) → All IsStopped (creations rs c)
  unfolding creations
  creations-IsStopped [] c = tt
  creations-IsStopped (r ∷ rs) c =
      let rest = creations-IsStopped rs (after r c) in
      if_intro (All IsStopped) (creates r c) (r ∷ creations rs (after r c))
        (creations rs (after r c)) (λ made. (creates-IsStopped r c made, rest)) (λ not_made. rest)

  abbrev pub AtMostOne : List Round → Type 0
  AtMostOne made = (made ≡ []) ⊎ ((r : Round) × (made ≡ r ∷ []))

  creations-AtMostOne :
      (value : Text) (rs : List Round) (c : Cluster)
      → Annotated value rs
      → Patient value rs c
      → AtMostOne (creations rs c)
  unfolding creations Patient
  creations-AtMostOne value [] c a p = inl refl
  creations-AtMostOne value (r ∷ rs) c (same, a) (patient, p) =
      let name = ap restore_job_name same in
      if_intro AtMostOne (creates r c) (r ∷ creations rs (after r c)) (creations rs (after r c))
        (λ made.
          let there = second_true _ _ made in
          let restored : Restored value (after r c).dispatched (after r c) =
            inl (ap (λ n. is_dispatched n (after r c).dispatched) (sym name) ∙ there) in
          inr (r, ap (λ rest. r ∷ rest) (creations-none value rs (after r c) a p restored)))
        (λ not_made. creations-AtMostOne value rs (after r c) a p)

  -- Over any sequence of reconciles in which the annotation keeps its value, whatever fails in them,
  -- and whatever restore Jobs are deleted in between but that of the value before it is recorded as
  -- processed, at most one reconcile creates the restore Job of the value, and the instance was
  -- suspended, and had a backup, in that very reconcile.
  pub creations-Once :
      (value : Text) (rs : List Round) (c : Cluster)
      → Annotated value rs
      → Patient value rs c
      → AtMostOne (creations rs c) × All IsStopped (creations rs c)
  creations-Once value rs c a p = (creations-AtMostOne value rs c a p, creations-IsStopped rs c)
