-- ===== src/Relay/Delivery.antt =====
-- watch.go: what a poll makes of a valid restart request.
use package.text.Mathlib.TextEquality.{eq_iff as str_eq_iff}
use package.text.Mathlib.Text.{◌==◌ as str_eq}
use typeclaw_operator.Prelude.{
  String, ◌≡◌, refl, sym, ap, ◌∙◌, subst, ◌⊎◌, inl, inr, Bool, true, false, ◌&&◌, not, Option, none,
  some, List, [], ◌∷◌, arith, Bool-cases, if_intro, All,
}
use typeclaw_operator.Prelude.Maps.{lookup, erase, lookup-erase}
use typeclaw_operator.Prelude.Text.{Text, eq_refl as text_eq_refl}
use typeclaw_operator.Relay.Watch.{
  RestartRequest, File, malformed, request, ControlDir, Deleted, pod_deleted, pod_gone,
  delete_failed, PassAnswers, drop, acceptable, has_marker, archive, deliver, actuate, consume_file,
  consume, poll_once,
}
use typeclaw_operator.Relay.Markers.{Honest, more_markers, consume-Honest}

-- The request waits under its path, or its marker stands among the consumed.
abbrev pub Kept : ControlDir → String → RestartRequest → Type 0
Kept dir path r =
    (lookup path dir.drops ≡ some (request r)) ⊎ (has_marker r.request_id dir.consumed ≡ true)

drop-marker :
    (dir : ControlDir) (path : String) (answers : PassAnswers)
    → (drop dir path answers).consumed ≡ dir.consumed
unfolding drop
drop-marker dir path answers =
    if_intro (λ d. d.consumed ≡ dir.consumed) answers.removes
      (record dir { drops = erase path dir.drops }) dir (λ h. refl) (λ h. refl)

-- What a pass over a path can make of the directory.
data Passed (dir : ControlDir) (path : String) : ControlDir → Type 0 where
  left_alone : (ds : List Text) → Passed dir path (record dir { delivered = ds })
  dropped :
      (ds : List Text)
      → Passed dir path
          (record { drops = erase path dir.drops; consumed = dir.consumed; delivered = ds })
  archived :
      (id : Text) (ds : List Text)
      → Passed dir path
          (record { drops = erase path dir.drops; consumed = id ∷ dir.consumed; delivered = ds })

drop-Passed :
    (dir : ControlDir) (path : String) (answers : PassAnswers)
    → Passed dir path (drop dir path answers)
unfolding drop
drop-Passed dir path answers =
    if_intro (Passed dir path) answers.removes _ dir (λ h. dropped dir.delivered)
      (λ h. left_alone dir.delivered)

archive-Passed :
    (dir : ControlDir) (path : String) (id : Text) (answers : PassAnswers)
    → Passed dir path (archive (deliver id dir) path id answers)
unfolding archive
archive-Passed dir path id answers =
    if_intro (Passed dir path) answers.archives _ (deliver id dir)
      (λ h. archived id (id ∷ dir.delivered)) (λ h. left_alone (id ∷ dir.delivered))

actuate-Passed :
    (dir : ControlDir) (path : String) (id : Text) (answers : PassAnswers) (deleted : Deleted)
    → Passed dir path (actuate dir path id answers deleted)
unfolding actuate
actuate-Passed dir path id answers delete_failed = left_alone dir.delivered
actuate-Passed dir path id answers pod_deleted = archive-Passed dir path id answers
actuate-Passed dir path id answers pod_gone = archive-Passed dir path id answers

consume_file-Passed :
    (own : String) (dir : ControlDir) (path : String) (answers : PassAnswers) (file : Option File)
    → Passed dir path (consume_file own dir path answers file)
unfolding consume_file
consume_file-Passed own dir path answers none = drop-Passed dir path answers
consume_file-Passed own dir path answers (some malformed) = drop-Passed dir path answers
consume_file-Passed own dir path answers (some (request r)) =
    if_intro (Passed dir path) (not (acceptable own r)) _ _ (λ bad. drop-Passed dir path answers)
      (λ good.
        if_intro (Passed dir path) (answers.stats && has_marker r.request_id dir.consumed) _ _
          (λ known. drop-Passed dir path answers)
          (λ new. actuate-Passed dir path r.request_id answers answers.deleted))

consume-Passed :
    (own : String) (dir : ControlDir) (path : String) (answers : PassAnswers)
    → Passed dir path (consume own dir path answers)
unfolding consume
consume-Passed own dir path answers =
    if_intro (Passed dir path) answers.reads _ _
      (λ read. consume_file-Passed own dir path answers (lookup path dir.drops))
      (λ unread. drop-Passed dir path answers)

own_marker : (id : Text) (consumed : List Text) → has_marker id (id ∷ consumed) ≡ true
unfolding has_marker
own_marker id consumed = rw (text_eq_refl id)

-- A marker stays, whatever path is passed over.
marker-stays :
    (dir : ControlDir) (path : String) (dir' : ControlDir) (r : RestartRequest)
    → Passed dir path dir'
    → has_marker r.request_id dir.consumed ≡ true
    → has_marker r.request_id dir'.consumed ≡ true
marker-stays dir path _ r (left_alone ds) h = h
marker-stays dir path _ r (dropped ds) h = h
marker-stays dir path _ r (archived id ds) h = more_markers r.request_id id dir.consumed h

erase-other :
    (path other : String) (drops : List (String × File))
    → str_eq path other ≡ false
    → lookup other (erase path drops) ≡ lookup other drops
erase-other path other drops h = lookup-erase path other drops ∙ (rw h)

-- A request under another path stays.
other-Kept :
    (dir : ControlDir) (path : String) (dir' : ControlDir) (other : String) (r : RestartRequest)
    → str_eq path other ≡ false
    → Passed dir path dir'
    → Kept dir other r
    → Kept dir' other r
other-Kept dir path dir' other r e p (inr h) = inr (marker-stays dir path dir' r p h)
other-Kept dir path _ other r e (left_alone ds) (inl h) = inl h
other-Kept dir path _ other r e (dropped ds) (inl h) = inl (erase-other path other dir.drops e ∙ h)
other-Kept dir path _ other r e (archived id ds) (inl h) =
    inl (erase-other path other dir.drops e ∙ h)

archive-Kept :
    (dir : ControlDir) (path : String) (r : RestartRequest) (answers : PassAnswers)
    → lookup path dir.drops ≡ some (request r)
    → Kept (archive (deliver r.request_id dir) path r.request_id answers) path r
unfolding archive
archive-Kept dir path r answers h =
    if_intro (λ d. Kept d path r) answers.archives _ (deliver r.request_id dir)
      (λ done. inr (own_marker r.request_id dir.consumed)) (λ undone. inl h)

actuate-Kept :
    (dir : ControlDir) (path : String) (r : RestartRequest) (answers : PassAnswers)
    (deleted : Deleted)
    → lookup path dir.drops ≡ some (request r)
    → Kept (actuate dir path r.request_id answers deleted) path r
unfolding actuate
actuate-Kept dir path r answers delete_failed h = inl h
actuate-Kept dir path r answers pod_deleted h = archive-Kept dir path r answers h
actuate-Kept dir path r answers pod_gone h = archive-Kept dir path r answers h

and-right : (b c : Bool) → (b && c) ≡ true → c ≡ true
and-right b c h = ground arith

request-Kept :
    (own : String) (dir : ControlDir) (path : String) (answers : PassAnswers) (r : RestartRequest)
    → acceptable own r ≡ true
    → lookup path dir.drops ≡ some (request r)
    → Kept (consume_file own dir path answers (some (request r))) path r
unfolding consume_file
request-Kept own dir path answers r good h =
    if_intro (λ d. Kept d path r) (not (acceptable own r)) _ _
      (λ bad. absurd (cc (sym bad ∙ ap not good)))
      (λ fine.
        if_intro (λ d. Kept d path r) (answers.stats && has_marker r.request_id dir.consumed) _ _
          (λ known. inr (
            ap (has_marker r.request_id) (drop-marker dir path answers)
            ∙ and-right answers.stats _ known))
          (λ new. actuate-Kept dir path r answers answers.deleted h))

here-Kept :
    (own : String) (dir : ControlDir) (path other : String) (answers : PassAnswers)
    (r : RestartRequest)
    → acceptable own r ≡ true
    → path ≡ other
    → answers.reads ≡ true
    → lookup other dir.drops ≡ some (request r)
    → Kept (consume own dir path answers) other r
unfolding consume
here-Kept own dir path other answers r good equal read h =
    subst (λ p. Kept (consume own dir p answers) other r) (sym equal)
      (if_intro (λ d. Kept d other r) answers.reads _ _
        (λ now.
          subst (λ f. Kept (consume_file own dir other answers f) other r) (sym h)
            (request-Kept own dir other answers r good h))
        (λ unread. absurd (ground (arith, read, unread))))

consume-Kept :
    (own : String) (dir : ControlDir) (path other : String) (answers : PassAnswers)
    (r : RestartRequest)
    → acceptable own r ≡ true
    → (path ≡ other → answers.reads ≡ true)
    → Kept dir other r
    → Kept (consume own dir path answers) other r
consume-Kept own dir path other answers r good read (inr h) =
    inr (
      marker-stays dir path (consume own dir path answers) r (consume-Passed own dir path answers)
        h)
consume-Kept own dir path other answers r good read (inl h) =
    elim (Bool-cases (str_eq path other)) [
      | inl here ↦
          let equal = (str_eq_iff path other).0 here in
          here-Kept own dir path other answers r good equal (read equal) h
      | inr apart ↦
          other-Kept dir path (consume own dir path answers) other r apart
            (consume-Passed own dir path answers) (inl h)
    ]

-- The poll reads the file at the path whenever it passes over it.
abbrev pub Readable : String → List (String × PassAnswers) → Type 0
Readable path = All (λ pass. pass.0 ≡ path → pass.1.reads ≡ true)

-- A restart request that the watcher accepts is not lost. A poll in which its file can be read,
-- whatever else the poll meets in the directory and whichever other calls fail, leaves a request that
-- waits, or whose marker stands among the consumed, waiting or with its marker; and when markers stood
-- only for requests whose Pod had been deleted, or was gone, they stand only for such ones afterwards.
pub poll_once-Kept :
    (own : String) (dir : ControlDir) (paths : List (String × PassAnswers)) (path : String)
    (r : RestartRequest)
    → acceptable own r ≡ true
    → Readable path paths
    → Honest dir
    → Kept dir path r
    → Kept (poll_once own dir paths) path r × Honest (poll_once own dir paths)
unfolding poll_once
poll_once-Kept own dir [] path r good read v h = (h, v)
poll_once-Kept own dir ((p, answers) ∷ others) path r good (reads, read) v h =
    poll_once-Kept own (consume own dir p answers) others path r good read
      (consume-Honest own p answers dir v) (consume-Kept own dir p path answers r good reads h)
