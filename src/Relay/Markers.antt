-- ===== src/Relay/Markers.antt =====
-- watch.go: what a marker of a consumed restart request stands for.
use typeclaw_operator.Prelude.{
  String, ◌≡◌, refl, true, ◌&&◌, not, Option, none, some, List, ◌∷◌, arith, if_intro,
}
use typeclaw_operator.Prelude.Maps.{lookup}
use typeclaw_operator.Prelude.Text.{Text, ◌==◌ as text_eq}
use typeclaw_operator.Relay.Watch.{
  File, malformed, request, ControlDir, Deleted, pod_deleted, pod_gone, delete_failed, PassAnswers,
  drop, acceptable, has_marker, archive, deliver, actuate, consume_file, consume,
}

-- Whatever has a marker has been delivered: its Pod was deleted, or gone.
unfoldable pub Honest : ControlDir → Type 0
Honest dir = (id : Text) → has_marker id dir.consumed ≡ true → has_marker id dir.delivered ≡ true

pub more_markers :
    (id other : Text) (consumed : List Text)
    → has_marker id consumed ≡ true
    → has_marker id (other ∷ consumed) ≡ true
unfolding has_marker
more_markers id other consumed h =
    if_intro (λ b. b ≡ true) (text_eq other id) true (has_marker id consumed) (λ e. refl) (λ e. h)

module _ (own : String) (path : String) (answers : PassAnswers) where
  drop-Honest : (dir : ControlDir) → Honest dir → Honest (drop dir path answers)
  unfolding drop Honest
  drop-Honest dir v = if_intro Honest answers.removes _ dir (λ h. v) (λ h. v)

  more-Honest :
      (id : Text) (consumed delivered : List Text)
      → ((other : Text) → has_marker other consumed ≡ true → has_marker other delivered ≡ true)
      → (other : Text) → has_marker other (id ∷ consumed) ≡ true
      → has_marker other (id ∷ delivered) ≡ true
  unfolding has_marker
  more-Honest id consumed delivered v other h = ground (arith, v other, h)

  archive-Honest :
      (dir : ControlDir) (id : Text)
      → Honest dir
      → Honest (archive (deliver id dir) path id answers)
  unfolding archive Honest
  archive-Honest dir id v =
      if_intro Honest answers.archives _ (deliver id dir)
        (λ done. more-Honest id dir.consumed dir.delivered v)
        (λ undone other h. more_markers other id dir.delivered (v other h))

  actuate-Honest :
      (dir : ControlDir) (id : Text) (deleted : Deleted)
      → Honest dir
      → Honest (actuate dir path id answers deleted)
  unfolding actuate
  actuate-Honest dir id delete_failed v = v
  actuate-Honest dir id pod_deleted v = archive-Honest dir id v
  actuate-Honest dir id pod_gone v = archive-Honest dir id v

  consume_file-Honest :
      (dir : ControlDir) (file : Option File)
      → Honest dir
      → Honest (consume_file own dir path answers file)
  unfolding consume_file
  consume_file-Honest dir none v = drop-Honest dir v
  consume_file-Honest dir (some malformed) v = drop-Honest dir v
  consume_file-Honest dir (some (request r)) v =
      if_intro Honest (not (acceptable own r)) _ _ (λ bad. drop-Honest dir v)
        (λ good.
          if_intro Honest (answers.stats && has_marker r.request_id dir.consumed) _ _
            (λ known. drop-Honest dir v) (λ new. actuate-Honest dir r.request_id answers.deleted v))

  pub consume-Honest : (dir : ControlDir) → Honest dir → Honest (consume own dir path answers)
  unfolding consume
  consume-Honest dir v =
      if_intro Honest answers.reads _ _ (λ read. consume_file-Honest dir (lookup path dir.drops) v)
        (λ unread. drop-Honest dir v)
