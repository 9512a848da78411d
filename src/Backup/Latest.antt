-- ===== src/Backup/Latest.antt =====
-- backup_controller.go: which snapshot Job is the latest, whatever order the list has.
use typeclaw_operator.Prelude.{
  ◌≡◌, refl, sym, ap, ◌∙◌, subst, inl, inr, true, false, Option, none, some, List, [], ◌∷◌, arith,
  if_intro, All, In,
}
use typeclaw_operator.Prelude.Text.{Text, before}
use typeclaw_operator.Backup.Jobs.{Job, backup_newer, latest_from}

before_irrefl : (s : Text) → before s s ≡ false
unfolding before
before_irrefl [] = refl
before_irrefl (c ∷ s) = ground (arith, before_irrefl s)

before_total : (s t : Text) → before s t ≡ false → before t s ≡ false → s ≡ t
unfolding before
before_total [] [] = ground arith
before_total [] (d ∷ t) = ground arith
before_total (c ∷ s) [] = ground arith
before_total (c ∷ s) (d ∷ t) = ground (arith, before_total s t)

before_trans : (r s t : Text) → before r s ≡ false → before s t ≡ false → before r t ≡ false
unfolding before
before_trans [] [] t = ground arith
before_trans [] (d ∷ s) t = ground arith
before_trans (c ∷ r) [] [] = ground arith
before_trans (c ∷ r) [] (e ∷ t) = ground arith
before_trans (c ∷ r) (d ∷ s) [] = ground arith
before_trans (c ∷ r) (d ∷ s) (e ∷ t) = ground (arith, before_trans r s t)

-- No Job of the list is newer.
abbrev pub IsLatest : Job → List Job → Type 0
IsLatest best = All (λ job. backup_newer job best ≡ false)

not_newer_trans :
    (a b c : Job) → backup_newer a b ≡ false → backup_newer b c ≡ false → backup_newer a c ≡ false
unfolding backup_newer
not_newer_trans a b c h k = ground (arith, before_trans c.name b.name a.name)

before_asymm : (s t : Text) → before s t ≡ true → before t s ≡ false
unfolding before
before_asymm [] [] = ground arith
before_asymm [] (d ∷ t) = ground arith
before_asymm (c ∷ s) [] = ground arith
before_asymm (c ∷ s) (d ∷ t) = ground (arith, before_asymm s t)

newer_asymm : (a b : Job) → backup_newer a b ≡ true → backup_newer b a ≡ false
unfolding backup_newer
newer_asymm a b h = ground (arith, before_asymm b.name a.name)

newer_irrefl : (a : Job) → backup_newer a a ≡ false
unfolding backup_newer
newer_irrefl a = ground (arith, before_irrefl a.name)

same_rank : (a b : Job) → backup_newer a b ≡ false → backup_newer b a ≡ false → a.name ≡ b.name
unfolding backup_newer
same_rank a b h k = ground (arith, before_total a.name b.name)

-- The outcome of the loop from a Job on.
abbrev Best : Job → List Job → Option Job → Type 0
Best first jobs o =
    (m : Job) × (o ≡ some m)
    × In m (first ∷ jobs)
    × (backup_newer first m ≡ false)
    × IsLatest m jobs

kept_member :
    (m first job : Job) (jobs : List Job) → In m (first ∷ jobs) → In m (first ∷ job ∷ jobs)
kept_member m first job jobs (inl here) = inl here
kept_member m first job jobs (inr later) = inr (inr later)

latest_from-Best : (first : Job) (jobs : List Job) → Best first jobs (latest_from (some first) jobs)
unfolding latest_from
latest_from-Best first [] = (first, refl, inl refl, newer_irrefl first, tt)
latest_from-Best first (job ∷ jobs) =
    if_intro (Best first (job ∷ jobs)) (backup_newer job first) _ _
      (λ newer.
        let (m, e, from, top, rest) = latest_from-Best job jobs in
        (
          m,
          e,
          inr from,
          not_newer_trans first job m (newer_asymm job first newer) top,
          (top, rest),
        ))
      (λ older.
        let (m, e, from, top, rest) = latest_from-Best first jobs in
        (
          m,
          e,
          kept_member m first job jobs from,
          top,
          (not_newer_trans job first m older top, rest),
        ))

IsLatest-In :
    (m : Job) (jobs : List Job) (job : Job)
    → IsLatest m jobs
    → In job jobs
    → backup_newer job m ≡ false
IsLatest-In m [] job a member = absurd member
IsLatest-In m (j ∷ jobs) job (top, a) (inl here) = subst (λ x. backup_newer x m ≡ false) here top
IsLatest-In m (j ∷ jobs) job (top, a) (inr later) = IsLatest-In m jobs job a later

-- The lists have the same Jobs, and no two of them one name.
abbrev pub SameJobs : List Job → List Job → Type 0
SameJobs jobs others =
    ((job : Job) → In job jobs → In job others)
    × ((job : Job) → In job others → In job jobs)
    × ((a b : Job) → In a jobs → In b jobs → a.name ≡ b.name → a ≡ b)

-- The latest snapshot Job does not depend on the order in which the Jobs are listed: two lists with
-- the same Jobs, whose names differ, give the same.
pub latest_from-SameJobs :
    (jobs others : List Job)
    → SameJobs jobs others
    → latest_from none jobs ≡ latest_from none others
unfolding latest_from
latest_from-SameJobs [] [] s = refl
latest_from-SameJobs [] (o ∷ others) s = absurd (s.1 o (inl refl))
latest_from-SameJobs (j ∷ jobs) [] s = absurd (s.0 j (inl refl))
latest_from-SameJobs (j ∷ jobs) (o ∷ others) (to, back, unique) =
    let (m, e, from, top, rest) = latest_from-Best j jobs in
    let (n, f, onward, best, more) = latest_from-Best o others in
    let below = IsLatest-In n (o ∷ others) m (best, more) (to m from) in
    let above = IsLatest-In m (j ∷ jobs) n (top, rest) (back n onward) in
    e ∙ ap some (unique m n from (back n onward) (same_rank m n below above)) ∙ sym f
