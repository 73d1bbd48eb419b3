-- ===== src/Cicd/Attestation.antt =====
-- src/cicd/attestation.py: `AttestationVerifier`, the gate on a registration. The fetcher and the
-- reading of a payload, JSON and schema together, are parameters; an outcome's diagnostic is its
-- reason, which `text` turns into words. The unwrapping of Sigstore bundles belongs to the fetcher.
use aieos_agent_harness.Base.{
  ℕ, ◌<◌, String, string_eq, ◌≡◌, refl, ◌≢◌, ◌↔◌, ◌⊎◌, inl, inr, Bool, true, false, Bool-cases,
  none, some, Option-cases, List, ltb, ◌==◌, if◌then◌else◌, arith,
}
use aieos_agent_harness.Base.Dict
use aieos_agent_harness.Base.Dict.{Dict}
use aieos_agent_harness.Base.Lists.{contains}
use aieos_agent_harness.Cicd.{RegistryEntry, RegistrationOutcome, ArtifactStore}
use aieos_agent_harness.Cicd.Registry.{Index, register_adapter}

-- A cutover is a time on the clock of `now`.
pub record ContractRegistration : Type 0 where
  pub current_version : String
  pub prior_versions_cutover : Dict String ℕ

-- The reasons of `is_version_acceptable`, in its order.
pub data VersionReason : Type 0 where
  is_current not_declared within_grace cutover_passed : VersionReason

unfoldable pub is_version_acceptable :
    ContractRegistration → String → (now : ℕ) → Bool × VersionReason
is_version_acceptable r version now =
    if version == r.current_version
    then (true, is_current)
    else elim (Dict.get r.prior_versions_cutover version) [
      | none ↦ (false, not_declared)
      | some cutover ↦ if ltb now cutover then (true, within_grace) else (false, cutover_passed)
    ]

-- The fields of an attestation payload that the verifier reads.
pub record Payload : Type 0 where
  pub adapter_id : String
  pub adapter_version : String
  pub contract_id : String
  pub contract_version : String
  pub signing_identity : String

-- What comes of an attestation reference: the fetcher raises `FileNotFoundError` or another
-- exception, or the bytes are no JSON, or fail the schema, or are a payload.
pub data Fetched : Type 0 where
  not_found fetch_failed not_json bad_schema : Fetched
  payload : Payload → Fetched

pub data Reason : Type 0 where
  no_reference unresolved wrong_adapter wrong_version unclaimed_contract untrusted_signer
        no_policy :
      Reason
  version_policy : VersionReason → Reason

pub record AttestationVerifier : Type 0 where
  pub trusted : List String
  pub contracts : Dict String ContractRegistration
  pub fetch : String → Fetched

-- The checks on a payload.
unfoldable pub check_payload :
    AttestationVerifier → (now : ℕ) → RegistryEntry → Payload → Bool × Reason
check_payload v now entry p =
    if p.adapter_id == entry.adapter_id
    then if p.adapter_version == entry.adapter_version
      then if contains entry.capabilities p.contract_id
        then if contains v.trusted p.signing_identity
          then elim (Dict.get v.contracts p.contract_id) [
            | none ↦ (false, no_policy)
            | some r ↦
                let (acceptable, reason) = is_version_acceptable r p.contract_version now in
                (acceptable, version_policy reason)
          ]
          else (false, untrusted_signer)
        else (false, unclaimed_contract)
      else (false, wrong_version)
    else (false, wrong_adapter)

-- `AttestationVerifier.__call__`
unfoldable pub verify : AttestationVerifier → (now : ℕ) → RegistryEntry → Bool × Reason
verify v now entry =
    if entry.attestation_ref == ""
    then (false, no_reference)
    else elim (v.fetch entry.attestation_ref) [
      | payload p ↦ check_payload v now entry p
      | _ ↦ (false, unresolved)
    ]

unfoldable pub outcome_of : (Reason → String) → Bool × Reason → RegistrationOutcome
outcome_of text (accepted, reason) = record { accepted = accepted; diagnostic = text reason }

-- A version is the current one, or an older one before its cutover.
abbrev pub IsAcceptable : ContractRegistration → String → ℕ → Type 0
IsAcceptable r version now =
    (version ≡ r.current_version)
    ⊎ ((cutover : ℕ) × (Dict.get r.prior_versions_cutover version ≡ some cutover) × (now < cutover))

-- The entry's attestation resolves, is about this adapter in this version and about an action that
-- it claims, is signed by a trusted identity, and its contract version is acceptable.
pub record IsAttested (v : AttestationVerifier) (now : ℕ) (entry : RegistryEntry) : Type 0 where
  pub attestation : Payload
  pub policy : ContractRegistration
  pub referenced : entry.attestation_ref ≢ ""
  pub fetched : v.fetch entry.attestation_ref ≡ payload attestation
  pub adapter : attestation.adapter_id ≡ entry.adapter_id
  pub version : attestation.adapter_version ≡ entry.adapter_version
  pub claimed : contains entry.capabilities attestation.contract_id ≡ true
  pub trusted : contains v.trusted attestation.signing_identity ≡ true
  pub known : Dict.get v.contracts attestation.contract_id ≡ some policy
  pub acceptable : IsAcceptable policy attestation.contract_version now

IsAcceptable-iff :
    (r : ContractRegistration) (version : String) (now : ℕ)
    → ((is_version_acceptable r version now).0 ≡ true) ↔ IsAcceptable r version now
unfolding is_version_acceptable
IsAcceptable-iff r version now = (
  λ h. elim (Bool-cases (version == r.current_version)) [
    | inl e ↦ inl (ground arith)
    | inr e ↦ elim (Option-cases (Dict.get r.prior_versions_cutover version)) [
      | inl o ↦ absurd (ground arith)
      | inr (cutover, o) ↦ inr (cutover, o, ground arith)
    ]
  ],
  λ a. elim a [ inl e ↦ ground arith | inr (cutover, o, l) ↦ ground arith ],
)

payload_iff :
    (v : AttestationVerifier) (now : ℕ) (entry : RegistryEntry) (p : Payload)
    → entry.attestation_ref ≢ ""
    → v.fetch entry.attestation_ref ≡ payload p
    → ((check_payload v now entry p).0 ≡ true) ↔ IsAttested v now entry
unfolding check_payload
payload_iff v now entry p referenced fetched = (
  λ h. elim (Option-cases (Dict.get v.contracts p.contract_id)) [
    | inl none_known ↦ absurd (ground arith)
    | inr (policy, known) ↦ record {
      attestation = p;
      policy = policy;
      referenced = referenced;
      fetched = fetched;
      adapter = ground arith;
      version = ground arith;
      claimed = ground arith;
      trusted = ground arith;
      known = known;
      acceptable = (IsAcceptable-iff policy p.contract_version now).0 (ground arith);
    }
  ],
  λ a.
      let same : p ≡ a.attestation = ground (arith, fetched, a.fetched) in
      let policy : ContractRegistration = a.policy in
      let accepted : (is_version_acceptable policy a.attestation.contract_version now).0 ≡ true =
        (IsAcceptable-iff policy a.attestation.contract_version now).1 a.acceptable in
      rw same (ground (arith, accepted, a.adapter, a.version, a.claimed, a.trusted, a.known)),
)

verify-payload :
    (v : AttestationVerifier) (now : ℕ) (entry : RegistryEntry)
    → (verify v now entry).0 ≡ true
    → (p : Payload) × (v.fetch entry.attestation_ref ≡ payload p)
unfolding verify
verify-payload v now entry h = go (v.fetch entry.attestation_ref) refl
  where
    go :
        (f : Fetched)
        → v.fetch entry.attestation_ref ≡ f
        → (p : Payload) × (v.fetch entry.attestation_ref ≡ payload p)
    go not_found e = absurd (ground arith)
    go fetch_failed e = absurd (ground arith)
    go not_json e = absurd (ground arith)
    go bad_schema e = absurd (ground arith)
    go (payload p) e = (p, e)

-- The verifier accepts exactly the entries whose attestation resolves to a payload about this
-- adapter, this version and an action that the entry claims, signed by a trusted identity, for a
-- contract with a policy under which its version is current, or older and before its cutover.
pub verify_iff :
    (v : AttestationVerifier) (now : ℕ) (entry : RegistryEntry)
    → ((verify v now entry).0 ≡ true) ↔ IsAttested v now entry
unfolding verify
verify_iff v now entry = (
  λ h.
      let (p, e) = verify-payload v now entry h in
      (payload_iff v now entry p (ground arith) e).0 (ground arith),
  λ a.
      let accepted : (check_payload v now entry a.attestation).0 ≡ true =
        (payload_iff v now entry a.attestation a.referenced a.fetched).1 a in
      ground (arith, accepted, a.referenced, a.fetched),
)

-- Behind this verifier, a registration that is not attested leaves the index and the store as they
-- were: either nothing changes, or the entry is attested.
pub register_adapter-IsAttested :
    {S : Type 0} (store : ArtifactStore S) (to_json : RegistryEntry → String)
    (text : Reason → String) (v : AttestationVerifier) (now : ℕ) (entry : RegistryEntry)
    (index : Index) (s : S)
    → ((register_adapter store to_json (λ e. outcome_of text (verify v now e)) entry (index, s)).1
        ≡ (index, s))
      ⊎ IsAttested v now entry
unfolding register_adapter outcome_of
register_adapter-IsAttested store to_json text v now entry index s =
    elim (Bool-cases (verify v now entry).0) [
      | inl e ↦ inr ((verify_iff v now entry).0 e)
      | inr e ↦ inl (rw (e, register_adapter) refl)
    ]
