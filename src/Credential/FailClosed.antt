-- ===== src/Credential/FailClosed.antt =====
-- operation.go: `AuthorizePolicy` grants only what the policy declares.
use package.text.Mathlib.TextEquality.{eq_iff as str_eq_iff}
use package.text.Mathlib.Text.{◌==◌ as str_eq}
use typeclaw_operator.Prelude.{
  String, ◌≡◌, refl, subst, inl, inr, Bool, true, false, ◌&&◌, not, Option, none, some, List, [],
  ◌∷◌, arith, if_intro, In,
}
use typeclaw_operator.Prelude.Text.{Text, text, ◌==◌ as text_eq, eq_iff as text_eq_iff}
use typeclaw_operator.Credential.Policy.{
  AccessMode, deny, confirm, pre_authorized, bypass, other_mode, ConsumerSpec, PolicySpec,
  create_issue, validate_github_create_issue, validate_secret_binding, PolicyError, policy_denied,
  granted, refused, allowed_repository, allowed_operation, decide_mode, authorize_consumer,
  authorize_policy,
}

abbrev pub Permitted : Bool → AccessMode → Type 0
Permitted allow_bypass deny = ⊥
Permitted allow_bypass confirm = Unit
Permitted allow_bypass pre_authorized = Unit
Permitted allow_bypass bypass = allow_bypass ≡ true
Permitted allow_bypass other_mode = ⊥

-- A consumer of the policy, with all that its grant of a mode rests on.
pub record Entry (allow_bypass : Bool) (consumers : List ConsumerSpec) (consumer operation : String)
    (repository : Text) (mode : AccessMode) : Type 0 where
  pub candidate : ConsumerSpec
  pub declared : In candidate consumers
  pub named : candidate.name ≡ consumer
  pub for_operation : In operation candidate.operations
  pub for_repository : In repository candidate.allowed_repositories
  pub in_mode : candidate.access_mode ≡ mode
  pub permitted : Permitted allow_bypass mode

allowed_repository-In :
    (list : List Text) (repository : Text)
    → allowed_repository list repository ≡ true
    → In repository list
unfolding allowed_repository
allowed_repository-In [] repository = λ h. absurd (cc)
allowed_repository-In (a ∷ list) repository =
    if_intro (λ b. b ≡ true → In repository (a ∷ list)) (text_eq a repository) true
      (allowed_repository list repository) (λ same h. inl ((text_eq_iff a repository).0 same))
      (λ other h. inr (allowed_repository-In list repository h))

allowed_operation-In :
    (list : List String) (operation : String)
    → allowed_operation list operation ≡ true
    → In operation list
unfolding allowed_operation
allowed_operation-In [] operation = λ h. absurd (cc)
allowed_operation-In (a ∷ list) operation =
    if_intro (λ b. b ≡ true → In operation (a ∷ list)) (str_eq a operation) true
      (allowed_operation list operation) (λ same h. inl ((str_eq_iff a operation).0 same))
      (λ other h. inr (allowed_operation-In list operation h))

decide_mode-Permitted :
    (allow_bypass : Bool) (declared mode : AccessMode)
    → decide_mode allow_bypass declared ≡ granted mode
    → (declared ≡ mode) × Permitted allow_bypass declared
unfolding decide_mode
decide_mode-Permitted allow_bypass deny mode h = absurd (cc)
decide_mode-Permitted allow_bypass confirm mode h = (cc, tt)
decide_mode-Permitted allow_bypass pre_authorized mode h = (cc, tt)
decide_mode-Permitted true bypass mode h = (cc, refl)
decide_mode-Permitted false bypass mode h = absurd (cc)
decide_mode-Permitted allow_bypass other_mode mode h = absurd (cc)

and-both : (b c : Bool) → (b && c) ≡ true → (b ≡ true) × (c ≡ true)
and-both b c h = ground arith

later-Entry :
    (allow_bypass : Bool) (first : ConsumerSpec) (consumers : List ConsumerSpec)
    (consumer operation : String) (repository : Text) (mode : AccessMode)
    → Entry allow_bypass consumers consumer operation repository mode
    → Entry allow_bypass (first ∷ consumers) consumer operation repository mode
later-Entry allow_bypass first consumers consumer operation repository mode e = record {
  candidate = e.candidate;
  declared = inr e.declared;
  named = e.named;
  for_operation = e.for_operation;
  for_repository = e.for_repository;
  in_mode = e.in_mode;
  permitted = e.permitted;
}

authorize_consumer-Entry :
    (allow_bypass : Bool) (consumer operation : String) (repository : Text)
    (consumers : List ConsumerSpec) (mode : AccessMode)
    → authorize_consumer allow_bypass consumer operation repository consumers ≡ granted mode
    → Entry allow_bypass consumers consumer operation repository mode
unfolding authorize_consumer
authorize_consumer-Entry allow_bypass consumer operation repository [] mode = λ h. absurd (cc)
authorize_consumer-Entry allow_bypass consumer operation repository (c ∷ cs) mode =
    if_intro
      (λ d. d ≡ granted mode → Entry allow_bypass (c ∷ cs) consumer operation repository mode)
      (str_eq c.name consumer) _ _
      (λ same.
        if_intro
          (λ d. d ≡ granted mode → Entry allow_bypass (c ∷ cs) consumer operation repository mode)
          (allowed_operation c.operations operation
            && allowed_repository c.allowed_repositories repository)
          (decide_mode allow_bypass c.access_mode) (refused policy_denied)
          (λ allowed h.
            let both = and-both _ _ allowed in
            let decision = decide_mode-Permitted allow_bypass c.access_mode mode h in
            record {
              candidate = c;
              declared = inl refl;
              named = (str_eq_iff c.name consumer).0 same;
              for_operation = allowed_operation-In c.operations operation both.0;
              for_repository = allowed_repository-In c.allowed_repositories repository both.1;
              in_mode = decision.0;
              permitted = subst (Permitted allow_bypass) decision.0 decision.1;
            })
          (λ barred h. absurd (cc)))
      (λ other h.
        later-Entry allow_bypass c cs consumer operation repository mode
          (authorize_consumer-Entry allow_bypass consumer operation repository cs mode h))

pub record Authorized (policy : Option PolicySpec) (consumer operation : String) (repository : Text)
    (mode : AccessMode) : Type 0 where
  pub spec : PolicySpec
  pub given : policy ≡ some spec
  pub bound : validate_secret_binding spec.secret ≡ true
  pub typed : operation ≡ create_issue
  pub well_formed : validate_github_create_issue repository (text "title") [] ≡ true
  pub entry : Entry spec.allow_bypass spec.consumers consumer operation repository mode

not-false : (b : Bool) → not b ≡ false → b ≡ true
not-false b h = ground arith

refused-granted : (e : PolicyError) (mode : AccessMode) → refused e ≡ granted mode → ⊥
refused-granted e mode h = cc

-- `AuthorizePolicy` grants a mode only under a policy with a complete and immutable secret binding,
-- for the one typed operation and a well-formed repository, to a consumer that the policy declares
-- in that mode, with that operation and that repository in its lists; it never grants `Deny` or an
-- unknown mode, and grants `Bypass` only where the policy allows it.
pub authorize_policy-Authorized :
    (policy : Option PolicySpec) (consumer operation : String) (repository : Text)
    (mode : AccessMode)
    → authorize_policy policy consumer operation repository ≡ granted mode
    → Authorized policy consumer operation repository mode
unfolding authorize_policy
authorize_policy-Authorized none consumer operation repository mode = λ h. absurd (cc)
authorize_policy-Authorized (some policy) consumer operation repository mode =
    if_intro (λ d. d ≡ granted mode → Authorized (some policy) consumer operation repository mode)
      (not (validate_secret_binding policy.secret)) _ _
      (λ unbound h. absurd (refused-granted _ mode h))
      (λ bound.
        if_intro
          (λ d. d ≡ granted mode → Authorized (some policy) consumer operation repository mode)
          (not (str_eq operation create_issue)) _ _ (λ untyped h. absurd (refused-granted _ mode h))
          (λ typed.
            if_intro
              (λ d. d ≡ granted mode → Authorized (some policy) consumer operation repository mode)
              (not (validate_github_create_issue repository (text "title") [])) _ _
              (λ malformed h. absurd (refused-granted _ mode h))
              (λ formed h. record {
                spec = policy;
                given = refl;
                bound = not-false _ bound;
                typed = (str_eq_iff operation create_issue).0 (not-false _ typed);
                well_formed = not-false _ formed;
                entry =
                    authorize_consumer-Entry policy.allow_bypass consumer operation repository
                      policy.consumers mode h;
              })))
