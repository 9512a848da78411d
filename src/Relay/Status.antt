-- ===== src/Relay/Status.antt =====
-- config.go with cmd/relay/main.go: what the status of the instance holds after a poll.
use package.text.Mathlib.TextEquality.{eq_iff as str_eq_iff}
use typeclaw_operator.Prelude.{
  ℕ, String, ◌≡◌, refl, sym, ap, ◌∙◌, subst, ◌↔◌, ◌⊎◌, inl, inr, Bool, true, false, not, Option,
  none, some, List, [], ◌∷◌, arith, if◌then◌else◌, Bool-cases, if_intro, any,
}
use typeclaw_operator.Prelude.Maps.{lookup}
use typeclaw_operator.Prelude.Text.{◌==◌ as text_eq, eq_iff as text_eq_iff}
use typeclaw_operator.Ints.{ℤ, pos, negsuc}
use typeclaw_operator.Conditions.{same}
use typeclaw_operator.Relay.Config.{
  contains, Document, document, valid_document, SelfConfig, ConfigWatcher, next_int64, same_keys,
  same_time, same_int, merge_patch, observe, observation, commit, poll_config,
}
use typeclaw_operator.Relay.Changes.{
  IsMap, reads_differently, contains-changed_keys, intersects-changed_keys,
}

same_keys_iff : (s t : List String) → (same_keys s t ≡ true) ↔ (s ≡ t)
same_keys_iff [] [] = ground arith
same_keys_iff [] (d ∷ t) = ground arith
same_keys_iff (c ∷ s) [] = ground arith
same_keys_iff (c ∷ s) (d ∷ t) = ground (arith, str_eq_iff c d, same_keys_iff s t)

same_time_iff : (s t : Option ℕ) → (same_time s t ≡ true) ↔ (s ≡ t)
same_time_iff none none = ground arith
same_time_iff none (some b) = ground arith
same_time_iff (some a) none = ground arith
same_time_iff (some a) (some b) = ground arith

same_int_iff : (s t : ℤ) → (same_int s t ≡ true) ↔ (s ≡ t)
same_int_iff (pos a) (pos b) = ground arith
same_int_iff (pos a) (negsuc b) = ground arith
same_int_iff (negsuc a) (pos b) = ground arith
same_int_iff (negsuc a) (negsuc b) = ground arith

same_iff : (s t : Bool) → (same s t ≡ true) ↔ (s ≡ t)
same_iff true true = ground arith
same_iff true false = ground arith
same_iff false true = ground arith
same_iff false false = ground arith

patched {ℓ} :
    {A : Type ℓ} (b : Bool) (base next : A)
    → ((b ≡ true) ↔ (base ≡ next))
    → (if b then base else next) ≡ next
patched true base next iff = iff.0 refl
patched false base next iff = refl

-- A patch computed from the object that the API server stores gives the new object.
pub merge_patch_base : (base next : SelfConfig) → merge_patch base next base ≡ next
unfolding merge_patch
merge_patch_base base next = λ i. record {
  observed_digest =
      patched _ base.observed_digest next.observed_digest
        (text_eq_iff base.observed_digest next.observed_digest) i;
  observed_at =
      patched _ base.observed_at next.observed_at (same_time_iff base.observed_at next.observed_at)
        i;
  revision = patched _ base.revision next.revision (same_int_iff base.revision next.revision) i;
  changed_paths =
      patched _ base.changed_paths next.changed_paths
        (same_keys_iff base.changed_paths next.changed_paths) i;
  protected_violation =
      patched _ base.protected_violation next.protected_violation
        (same_iff base.protected_violation next.protected_violation) i;
}

kept {ℓ} :
    {A : Type ℓ} (b : Bool) {base next : A} (stored : A)
    → ((b ≡ true) ↔ (base ≡ next))
    → base ≡ next
    → (if b then stored else next) ≡ stored
kept b {base} {next} stored iff e = ap (λ x. if x then stored else next) (iff.1 e)

-- What an observation says of the document, without when and how often it was observed.
abbrev pub SaysAs : SelfConfig → SelfConfig → Type 0
SaysAs a b =
    (a.observed_digest ≡ b.observed_digest)
    × (a.changed_paths ≡ b.changed_paths)
    × (a.protected_violation ≡ b.protected_violation)

merge_patch-SaysAs :
    (base next stored : SelfConfig)
    → SaysAs base next
    → SaysAs (merge_patch base next stored) stored
unfolding merge_patch
merge_patch-SaysAs base next stored (d, c, v) = (
  kept _ stored.observed_digest (text_eq_iff base.observed_digest next.observed_digest) d,
  kept _ stored.changed_paths (same_keys_iff base.changed_paths next.changed_paths) c,
  kept _ stored.protected_violation (same_iff base.protected_violation next.protected_violation) v,
)

observation_again :
    (w : ConfigWatcher) (now later : ℕ) (d : Document) (s : SelfConfig)
    → SaysAs (observation w now d) (observation (record w { snapshot = s }) later d)
unfolding observation
observation_again w now later d s = elim (Bool-cases (text_eq w.last_digest [])) [
  | inl first ↦ rw first (refl, refl, refl)
  | inr again ↦ rw again (refl, refl, refl)
]

abbrev pub New : ConfigWatcher → Document → Type 0
New w d = (valid_document d ≡ true) × (text_eq d.digest w.last_digest ≡ false)

idle :
    (w : ConfigWatcher) (now : ℕ) (accepted : Bool) (d : Document)
    → (valid_document d ≡ false) ⊎ (text_eq d.digest w.last_digest ≡ true)
    → poll_config w now accepted (document d) ≡ w
unfolding poll_config
idle w now accepted d (inl bad) = rw bad refl
idle w now accepted d (inr seen) =
    if_intro (λ x. x ≡ w) (not (valid_document d)) w _ (λ h. refl)
      (λ h.
        if_intro (λ x. x ≡ w) (text_eq d.digest w.last_digest) w _ (λ t. refl)
          (λ f. absurd (ground (arith, f, seen))))

rejected :
    (w : ConfigWatcher) (now : ℕ) (d : Document)
    → New w d
    → poll_config w now false (document d) ≡ record w { snapshot = observation w now d }
unfolding poll_config observe commit
rejected w now d (valid, new) = rw (valid, new) refl

accepted :
    (w : ConfigWatcher) (now : ℕ) (d : Document)
    → New w d
    → (poll_config w now true (document d)).stored
      ≡ merge_patch w.snapshot (observation w now d) w.stored
unfolding poll_config observe commit
accepted w now d (valid, new) = rw (valid, new) refl

idle-or-New :
    (w : ConfigWatcher) (d : Document)
    → ((valid_document d ≡ false) ⊎ (text_eq d.digest w.last_digest ≡ true)) ⊎ New w d
idle-or-New w d = elim (Bool-cases (valid_document d)) [
  | inr bad ↦ inl (inl bad)
  | inl valid ↦ elim (Bool-cases (text_eq d.digest w.last_digest)) [
    | inl seen ↦ inl (inr seen)
    | inr new ↦ inr (valid, new)
  ]
]

-- A poll whose patch was rejected and the poll after it, which finds the same document and whose
-- patch is accepted, leave in the stored status the digest, the changed paths and the violation that
-- stood there before, whatever the document changed.
pub poll_config-retry :
    (w : ConfigWatcher) (now later : ℕ) (d : Document)
    → SaysAs
        (poll_config (poll_config w now false (document d)) later true (document d)).stored
        w.stored
poll_config-retry w now later d = elim (idle-or-New w d) [
  | inl i ↦
      let same_stored =
        ap (λ v. (poll_config v later true (document d)).stored) (idle w now false d i)
        ∙ ap (λ v. v.stored) (idle w later true d i) in
      subst (λ c. SaysAs c w.stored) (sym same_stored) (refl, refl, refl)
  | inr new ↦
      let v : ConfigWatcher = record w { snapshot = observation w now d } in
      let stored =
        ap (λ v. (poll_config v later true (document d)).stored) (rejected w now d new)
        ∙ accepted v later d new in
      subst (λ c. SaysAs c w.stored) (sym stored)
        (merge_patch-SaysAs (observation w now d) (observation v later d) w.stored
          (observation_again w now later d (observation w now d)))
]

abbrev pub Synced : ConfigWatcher → Type 0
Synced w = w.stored ≡ w.snapshot

poll_config-New :
    (w : ConfigWatcher) (now : ℕ) (d : Document)
    → New w d
    → Synced w
    → let after = poll_config w now true (document d) in
      (after.snapshot ≡ observation w now d) × (after.stored ≡ observation w now d)
unfolding poll_config observe commit
poll_config-New w now d (valid, new) s =
    let merged =
      ap (λ c. merge_patch w.snapshot (observation w now d) c) s
      ∙ merge_patch_base w.snapshot (observation w now d) in
    rw (valid, new) (merged, merged)

-- What the status says of a document that a running watcher has seen to change.
abbrev pub Recorded : ConfigWatcher → Document → SelfConfig → Type 0
Recorded w d s =
    (s.observed_digest ≡ d.digest)
    × (s.revision ≡ next_int64 w.stored.revision)
    × ((key : String)
        → contains key s.changed_paths
          ≡ reads_differently (lookup key w.last_values) (lookup key d.values))
    × (s.protected_violation
        ≡ any (λ path. reads_differently (lookup path w.last_values) (lookup path d.values))
            w.protected_paths)

observation-Recorded :
    (w : ConfigWatcher) (now : ℕ) (d : Document)
    → Synced w
    → text_eq w.last_digest [] ≡ false
    → IsMap d.values
    → Recorded w d (observation w now d)
unfolding observation
observation-Recorded w now d s running m = rw running (
  refl,
  ap (λ c. next_int64 c.revision) (sym s),
  λ key. contains-changed_keys w.last_values d.values key m,
  intersects-changed_keys w.protected_paths w.last_values d.values m,
)

-- A poll that finds a new and valid document and whose patch is accepted, of a watcher that has seen
-- a document before and whose copy of the status agrees with the stored one, leaves these in
-- agreement. The stored status has then the digest of the document and the next revision, the changed
-- paths contain exactly the keys whose value is not that of the document before, and a violation
-- stands exactly when one of these is a protected path.
pub poll_config-Recorded :
    (w : ConfigWatcher) (now : ℕ) (d : Document)
    → New w d
    → Synced w
    → text_eq w.last_digest [] ≡ false
    → IsMap d.values
    → let after = poll_config w now true (document d) in Synced after × Recorded w d after.stored
poll_config-Recorded w now d n s running m =
    let at = poll_config-New w now d n s in
    (at.1 ∙ sym at.0, subst (Recorded w d) (sym at.1) (observation-Recorded w now d s running m))
