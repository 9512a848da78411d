-- ===== src/Credential/Served.antt =====
-- broker.go: what ServeHTTP has checked when it stores a request.
use mathlib.Core.Option.{none-ne-some}
use typeclaw_operator.Prelude.{
  ◌≡◌, refl, ◌⊎◌, inl, inr, Bool, true, false, not, Option, none, some, List, [], ◌∷◌, arith,
  is_some, if_intro, Any,
}
use typeclaw_operator.Prelude.Text.{Text, before}
use typeclaw_operator.Prelude.Urls.{Url}
use typeclaw_operator.Prelude.Guards.{passed, chosen, not-true}
use typeclaw_operator.Credential.Policy.{
  AccessMode, SecretRef, PolicySpec, create_issue, is_empty_text, validate_github_create_issue,
  Decision, granted, refused, authorize_policy, request_name,
}
use typeclaw_operator.Credential.Identity.{
  Identity, parse_spiffe_id, search_identity, flatten, identity_from_request,
}
use typeclaw_operator.Credential.Requests.{Request, InstanceRead}
use typeclaw_operator.Credential.Paths.{Names, parse_spiffe_id-Names}
use typeclaw_operator.Credential.Broker.{
  Stored, Input, Surroundings, Answer, find_request, pending_request, create_request, with_ticket,
  with_policy, with_read, handle_new, with_input, with_identity, serve_http,
}
use typeclaw_operator.Credential.FailClosed.{Authorized, authorize_policy-Authorized}
use typeclaw_operator.Update.Advance.{Read, found, missing, failed as unreadable}
use typeclaw_operator.Credential.Asked.{Asks, pending_request-Asks}

abbrev NamesInstance : Text → Identity → Option Url → Type 0
NamesInstance trust_domain id none = ⊥
NamesInstance trust_domain id (some uri) = Names trust_domain uri id

-- One of the URIs names the instance.
abbrev pub Shown : Text → List (Option Url) → Identity → Type 0
Shown trust_domain uris id = Any (NamesInstance trust_domain id) uris

shown_by :
    (trust_domain : Text) (uri : Option Url) (id : Identity)
    → parse_spiffe_id uri trust_domain ≡ some id
    → NamesInstance trust_domain id uri
unfolding parse_spiffe_id
shown_by trust_domain none id h = none-ne-some _ h
shown_by trust_domain (some uri) id h = parse_spiffe_id-Names trust_domain uri id h

search_identity-Shown :
    (trust_domain : Text) (uris : List (Option Url)) (seen : Option Identity) (id : Identity)
    → search_identity trust_domain seen uris ≡ some id
    → (seen ≡ some id) ⊎ Shown trust_domain uris id
unfolding search_identity
search_identity-Shown trust_domain [] seen id h = inl h
search_identity-Shown trust_domain (uri ∷ uris) seen id h =
    let candidate = parse_spiffe_id uri trust_domain in
    elim (chosen (not (is_some candidate)) {x = search_identity trust_domain seen uris} h) [
      | inl (absent, later) ↦ elim (search_identity-Shown trust_domain uris seen id later) [
        | inl before ↦ inl before
        | inr shown ↦ inr (inr shown)
      ]
      | inr (present, rest) ↦
          let first = passed (is_some seen) rest in
          elim (search_identity-Shown trust_domain uris candidate id first.1) [
            | inl here ↦ inr (inl (shown_by trust_domain uri id here))
            | inr shown ↦ inr (inr shown)
          ]
    ]

-- What the broker has established about the request that it stores.
pub record Created (digest_of : Text → Text) (at : Surroundings) (store : List Stored)
    (id : Identity) (input : Input) (stored : Stored) : Type 0 where
  pub instance : InstanceRead
  pub policy : PolicySpec
  pub mode : AccessMode
  pub ticket : Text
  pub read : at.instance ≡ found instance
  pub has_policy : instance.credential_policy ≡ some policy
  pub authorized : Authorized instance.credential_policy "github" create_issue input.repository mode
  pub drawn : at.fresh ≡ some ticket
  pub is_new : find_request id.namespace (request_name (digest_of ticket)) store ≡ none
  pub asks : Asks at.now id input policy.secret (digest_of ticket) stored

abbrev pub Adds :
    (Text → Text) → Surroundings → List Stored → Identity → Input → List Stored × Answer → Type 0
Adds digest_of at store id input result =
    (result.0 ≡ store)
    ⊎ ((stored : Stored) × (result.0 ≡ stored ∷ store) × Created digest_of at store id input stored)

none-left {ℓ} : {A : Type ℓ} (o : Option A) → is_some o ≡ false → o ≡ none
none-left none h = refl
none-left (some a) h = absurd (ground (arith, h))

module _ (digest_of : Text → Text) (valid_ticket : Text → Bool) (at : Surroundings)
    (store : List Stored) where
  create_request-Adds :
      (id : Identity) (input : Input) (r : Request) (ticket : Text)
      → (find_request id.namespace r.name store ≡ none
          → Created digest_of at store id input record { namespace = id.namespace; request = r })
      → Adds digest_of at store id input (create_request at store id r ticket)
  unfolding create_request
  create_request-Adds id input r ticket created =
      if_intro (Adds digest_of at store id input) (not at.reached) _ _ (λ down. inl refl)
        (λ up.
          if_intro (Adds digest_of at store id input)
            (is_some (find_request id.namespace r.name store)) _ _ (λ known. inl refl)
            (λ unknown. inr (
              record { namespace = id.namespace; request = r },
              refl,
              created (none-left _ unknown),
            )))

  with_ticket-Adds :
      (id : Identity) (input : Input) (secret : SecretRef) (fresh : Option Text)
      → at.fresh ≡ fresh
      → ((ticket : Text)
          → at.fresh ≡ some ticket
          → find_request id.namespace (request_name (digest_of ticket)) store ≡ none
          → Created digest_of at store id input record {
            namespace = id.namespace;
            request = pending_request at.now id input secret (digest_of ticket);
          })
      → Adds digest_of at store id input
          (with_ticket digest_of valid_ticket at store id input secret fresh)
  unfolding with_ticket pending_request
  with_ticket-Adds id input secret none e created = inl refl
  with_ticket-Adds id input secret (some ticket) e created =
      create_request-Adds id input (pending_request at.now id input secret (digest_of ticket))
        ticket (λ unknown. created ticket e unknown)

  with_policy-Adds :
      (id : Identity) (input : Input) (instance : InstanceRead) (p : Option PolicySpec)
      (d : Decision)
      → at.instance ≡ found instance
      → instance.credential_policy ≡ p
      → authorize_policy instance.credential_policy "github" create_issue input.repository ≡ d
      → Adds digest_of at store id input (with_policy digest_of valid_ticket at store id input p d)
  unfolding with_policy
  with_policy-Adds id input instance none d read has decided = inl refl
  with_policy-Adds id input instance (some policy) (refused error) read has decided = inl refl
  with_policy-Adds id input instance (some policy) (granted mode) read has decided =
      with_ticket-Adds id input policy.secret at.fresh refl (λ ticket drawn unknown. record {
        instance = instance;
        policy = policy;
        mode = mode;
        ticket = ticket;
        read = read;
        has_policy = has;
        authorized =
            authorize_policy-Authorized instance.credential_policy "github" create_issue
              input.repository mode decided;
        drawn = drawn;
        is_new = unknown;
        asks = pending_request-Asks at.now id input policy.secret (digest_of ticket);
      })

  with_read-Adds :
      (id : Identity) (input : Input) (read : Read InstanceRead)
      → at.instance ≡ read
      → Adds digest_of at store id input (with_read digest_of valid_ticket at store id input read)
  unfolding with_read
  with_read-Adds id input unreadable e = inl refl
  with_read-Adds id input missing e = inl refl
  with_read-Adds id input (found instance) e =
      with_policy-Adds id input instance instance.credential_policy _ e refl refl

  -- The store after a call: as before, or with one more request of the caller.
  abbrev pub Serves : Text → List (List (Option Url)) → Option Input → List Stored × Answer → Type 0
  Serves trust_domain certificates body result =
      (result.0 ≡ store)
      ⊎ ((id : Identity) × (input : Input) × (stored : Stored) × (body ≡ some input)
          × (result.0 ≡ stored ∷ store)
          × Shown trust_domain (flatten certificates) id
          × (validate_github_create_issue input.repository input.title input.body ≡ true)
          × Created digest_of at store id input stored)

  with_input-Serves :
      (trust_domain : Text) (certificates : List (List (Option Url))) (id : Identity)
      (body : Option Input)
      → Shown trust_domain (flatten certificates) id
      → Serves trust_domain certificates body (with_input digest_of valid_ticket at store id body)
  unfolding with_input handle_new
  with_input-Serves trust_domain certificates id none shown = inl refl
  with_input-Serves trust_domain certificates id (some input) shown =
      let valid = validate_github_create_issue input.repository input.title input.body in
      if_intro (Serves trust_domain certificates (some input)) (not valid) _ _ (λ bad. inl refl)
        (λ good.
          if_intro (Serves trust_domain certificates (some input)) (is_empty_text input.ticket) _ _
            (λ fresh. elim (with_read-Adds id input at.instance refl) [
              | inl same ↦ inl same
              | inr (stored, added, created) ↦
                  inr (id, input, stored, refl, added, shown, not-true valid good, created)
            ])
            (λ again. inl refl))

  with_identity-Serves :
      (trust_domain : Text) (certificates : List (List (Option Url))) (o : Option Identity)
      (body : Option Input)
      → identity_from_request certificates trust_domain ≡ o
      → Serves trust_domain certificates body (with_identity digest_of valid_ticket at store o body)
  unfolding with_identity identity_from_request
  with_identity-Serves trust_domain certificates none body e = inl refl
  with_identity-Serves trust_domain certificates (some id) body e =
      elim (search_identity-Shown trust_domain (flatten certificates) none id e) [
        | inl never ↦ absurd (none-ne-some _ never)
        | inr shown ↦ with_input-Serves trust_domain certificates id body shown
      ]

  -- A call of the broker leaves the stored requests as they were, or adds one. Then a URI of the
  -- peer's certificates names an instance in the trust domain, the operation in the body is a valid
  -- one, the policy of that instance authorizes it, and the request is that operation, field by field, of
  -- that instance, in its namespace, pending, bound to the secret of the policy, named after the
  -- digest of a fresh ticket whose name no other request there has, and expiring in the whole second
  -- in which five minutes are over.
  pub serve_http-Serves :
      (trust_domain : Text) (routed : Bool) (certificates : List (List (Option Url)))
      (body : Option Input)
      → Serves trust_domain certificates body
          (serve_http digest_of valid_ticket trust_domain at store routed certificates body)
  unfolding serve_http
  serve_http-Serves trust_domain routed certificates body =
      if_intro (Serves trust_domain certificates body) (not routed) _ _ (λ elsewhere. inl refl)
        (λ here.
          with_identity-Serves trust_domain certificates
            (identity_from_request certificates trust_domain) body refl)
