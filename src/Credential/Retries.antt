-- ===== src/Credential/Retries.antt =====
-- broker.go with credential_controller.go: what becomes of a request that the broker has stored.
use typeclaw_operator.Prelude.{
  ℕ, ◌+◌, ◌<◌, String, ◌≡◌, refl, ap, ◌∙◌, Bool, true, false, not, Option, none, some, List, ◌∷◌,
  arith, ◌==◌, is_some, if_intro,
}
use typeclaw_operator.Prelude.Text.{Text, eq_iff as text_eq_iff, eq_refl as text_eq_refl}
use typeclaw_operator.Credential.Policy.{
  SecretRef, PolicySpec, Decision, granted, refused, request_name, pending,
}
use typeclaw_operator.Credential.Identity.{Identity}
use typeclaw_operator.Credential.Requests.{Request, InstanceRead}
use typeclaw_operator.Credential.Broker.{
  Stored, Input, Surroundings, Answer, broker_error, find_request, ticket_ttl, whole_seconds,
  pending_request, phase_or_pending, status_code, write_request_status, create_request, with_ticket,
  with_policy, with_read, handle_new, matches, with_request, handle_retry,
}
use typeclaw_operator.Update.Advance.{Read, found, missing, failed as unreadable}
use typeclaw_operator.Credential.Execute.{expired}

abbrev pub asking : Input → Text → Input
asking input ticket = record input { ticket = ticket }

find_request-first :
    (namespace name : Text) (r : Request) (store : List Stored)
    → r.name ≡ name
    → find_request namespace name (record { namespace = namespace; request = r } ∷ store) ≡ some r
unfolding find_request
find_request-first namespace name r store e =
    rw (text_eq_refl namespace, (text_eq_iff r.name name).1 e) refl

later-unexpired : (now expires_at : ℕ) → now < expires_at → expired now (some expires_at) ≡ false
later-unexpired now expires_at h = ground arith

module _ (digest_of : Text → Text) (valid_ticket : Text → Bool) where
  matches-asking :
      (now : ℕ) (id : Identity) (input : Input) (secret : SecretRef) (ticket : Text)
      → matches digest_of valid_ticket
          (pending_request now id input secret (digest_of ticket))
          id
          (asking input ticket)
        ≡ true
  unfolding matches pending_request
  matches-asking now id input secret ticket =
      rw
        (
          text_eq_refl id.instance,
          text_eq_refl input.repository,
          text_eq_refl input.title,
          text_eq_refl input.body,
          text_eq_refl (digest_of ticket),
        )
        refl

  with_request-asking :
      (now later : ℕ) (id : Identity) (input : Input) (secret : SecretRef) (ticket : Text)
      → later < whole_seconds (now + ticket_ttl)
      → with_request digest_of valid_ticket later id
          (asking input ticket)
          (some (pending_request now id input secret (digest_of ticket)))
        ≡ record {
          code = 202;
          state = some pending;
          name = request_name (digest_of ticket);
          ticket = ticket;
          result = none;
          error_code = "";
        }
  unfolding with_request write_request_status phase_or_pending status_code pending_request
  with_request-asking now later id input secret ticket early =
      rw
        (
          later-unexpired later (whole_seconds (now + ticket_ttl)) early,
          matches-asking now id input secret ticket,
        )
        refl

  module _ (at later : Surroundings) (store : List Stored) (id : Identity) (input : Input)
      (early : later.now < whole_seconds (at.now + ticket_ttl))
      (reached : later.reached ≡ true) where
    -- A ticket that came with an accepted request gets the same answer again.
    abbrev pub Repeats : List Stored × Answer → Type 0
    Repeats result =
        result.1.code ≡ 202
        → valid_ticket result.1.ticket ≡ true
        → handle_retry digest_of valid_ticket later result.0 id (asking input result.1.ticket)
          ≡ result.1

    failing-Repeats :
        (s : List Stored) (code : ℕ) (error : String)
        → (code == 202) ≡ false
        → Repeats (s, broker_error code error)
    unfolding broker_error
    failing-Repeats s code error other h v = absurd (ground (arith, other, h))

    retried :
        (secret : SecretRef) (ticket : Text)
        → valid_ticket ticket ≡ true
        → let r = pending_request at.now id input secret (digest_of ticket) in
          handle_retry digest_of valid_ticket later
            (record { namespace = id.namespace; request = r } ∷ store)
            id
            (asking input ticket)
          ≡ record {
            code = 202;
            state = some pending;
            name = r.name;
            ticket = ticket;
            result = none;
            error_code = "";
          }
    unfolding handle_retry pending_request
    retried secret ticket valid =
        let r = pending_request at.now id input secret (digest_of ticket) in
        rw (valid, reached)
          (ap (with_request digest_of valid_ticket later.now id (asking input ticket))
              (find_request-first id.namespace (request_name (digest_of ticket)) r store refl)
            ∙ with_request-asking at.now later.now id input secret ticket early)

    create_request-Repeats :
        (secret : SecretRef) (ticket : Text)
        → Repeats (
            create_request at store id
              (pending_request at.now id input secret (digest_of ticket))
              ticket)
    unfolding create_request
    create_request-Repeats secret ticket =
        let r = pending_request at.now id input secret (digest_of ticket) in
        if_intro Repeats (not at.reached) _ _
          (λ down. failing-Repeats store 503 "broker_unavailable" refl)
          (λ up.
            if_intro Repeats (is_some (find_request id.namespace r.name store)) _ _
              (λ known. failing-Repeats store 409 "ticket_collision" refl)
              (λ unknown code valid. retried secret ticket valid))

    with_ticket-Repeats :
        (secret : SecretRef) (fresh : Option Text)
        → Repeats (with_ticket digest_of valid_ticket at store id input secret fresh)
    unfolding with_ticket
    with_ticket-Repeats secret none = failing-Repeats store 503 "ticket_unavailable" refl
    with_ticket-Repeats secret (some ticket) = create_request-Repeats secret ticket

    with_policy-Repeats :
        (p : Option PolicySpec) (d : Decision)
        → Repeats (with_policy digest_of valid_ticket at store id input p d)
    unfolding with_policy
    with_policy-Repeats none d = failing-Repeats store 403 "policy_denied" refl
    with_policy-Repeats (some policy) (refused error) =
        failing-Repeats store 403 "policy_denied" refl
    with_policy-Repeats (some policy) (granted mode) = with_ticket-Repeats policy.secret at.fresh

    with_read-Repeats :
        (read : Read InstanceRead)
        → Repeats (with_read digest_of valid_ticket at store id input read)
    unfolding with_read
    with_read-Repeats unreadable = failing-Repeats store 503 "broker_unavailable" refl
    with_read-Repeats missing = failing-Repeats store 403 "policy_denied" refl
    with_read-Repeats (found instance) = with_policy-Repeats instance.credential_policy _

    -- When the broker has accepted a new operation with a ticket, a call of the same instance with the
    -- same operation and that ticket, before the whole second in which five minutes after the first
    -- are over and before the controller has touched the request, gets the same answer again, provided that
    -- the ticket passes the check of its form and the API server answers.
    pub handle_new-Repeats : Repeats (handle_new digest_of valid_ticket at store id input)
    unfolding handle_new
    handle_new-Repeats = with_read-Repeats at.instance
