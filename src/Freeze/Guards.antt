-- ===== src/Freeze/Guards.antt =====
-- src/freeze.py: what a freeze needs, and what a refused one leaves.
use aieos_agent_harness.Base.{
  String, string_eq, option_eq, ◌≡◌, refl, ap, Bool, true, false, Bool-cases, inl, inr, ◌==◌, arith,
}
use aieos_agent_harness.Adapter.{ok, err, Outcome-cases}
use aieos_agent_harness.Models.{FreezeGateDecision, FreezeResult, frozen, ArtifactStatus}
use aieos_agent_harness.State.{Disk, find_artifact_path, write_artifact_status}
use aieos_agent_harness.Freeze.{
  FreezeError, crashed, Surroundings, Targets, check_authorized_freeze, is_approving,
  hash_artifact_content, check_guards, write_provenance, count_freeze, finish_freeze, write_freeze,
  apply_freeze_decision, unauthorized, not_approved, not_found, hash_mismatch, state_error,
}

-- A `FreezeError`, as against an exception of another class.
unfoldable pub is_refusal : FreezeError → Bool
is_refusal (crashed _) = false
is_refusal unauthorized = true
is_refusal not_approved = true
is_refusal not_found = true
is_refusal hash_mismatch = true
is_refusal state_error = true

-- What the guards have established.
pub record IsCleared (env : Surroundings) (d : FreezeGateDecision) (disk : Disk)
    (name text : String) : Type 0 where
  pub authorized : check_authorized_freeze d ≡ true
  pub approved : is_approving d.outcome ≡ true
  pub found : find_artifact_path disk d.artifact_id ≡ ok (name, text)
  pub pinned : hash_artifact_content env text ≡ d.content_hash

module _ (env : Surroundings) (targets : Targets) (d : FreezeGateDecision) where
  check_guards-Cleared :
      (disk : Disk) (name text : String)
      → check_guards env targets d disk ≡ ok (name, text)
      → IsCleared env d disk name text
  unfolding check_guards
  check_guards-Cleared disk name text h = elim (Bool-cases (check_authorized_freeze d)) [
    | inl a ↦ elim (Bool-cases (is_approving d.outcome)) [
      | inl b ↦ elim (Outcome-cases (find_artifact_path disk d.artifact_id)) [
        | inl (f, e) ↦ elim (Bool-cases (hash_artifact_content env f.1 == d.content_hash)) [
          | inl p ↦
              let same : f ≡ (name, text) = ground (arith, h, a, b, e, p) in
              record {
                authorized = a;
                approved = b;
                found = rw same at e;
                pinned =
                    rw (ap (λ (x : String × String). x.1) same) at
                      (let q : hash_artifact_content env f.1 ≡ d.content_hash = ground arith in q);
              }
          | inr p ↦ absurd (ground (arith, h, a, b, e, p))
        ]
        | inr (x, e) ↦ absurd (ground (arith, h, a, b, e))
      ]
      | inr b ↦ absurd (ground (arith, h, a, b))
    ]
    | inr a ↦ absurd (ground (arith, h, a))
  ]

  -- After the guards, only exceptions of other classes are raised.
  write_freeze-refusal :
      (disk : Disk) (e : FreezeError)
      → (write_freeze env targets d disk).0 ≡ err e
      → is_refusal e ≡ false
  unfolding write_freeze write_provenance finish_freeze count_freeze is_refusal
  write_freeze-refusal disk e h = ground arith

  -- A freeze that raises `FreezeError`, whatever its code, leaves the disk as it was.
  pub apply-refused :
      (disk : Disk) (e : FreezeError)
      → is_refusal e ≡ true
      → (apply_freeze_decision env targets d disk).0 ≡ err e
      → (apply_freeze_decision env targets d disk).1 ≡ disk
  unfolding apply_freeze_decision
  apply-refused disk e r h = elim (Outcome-cases (check_guards env targets d disk)) [
    | inl (f, p) ↦ let k = write_freeze-refusal disk e (rw (p, apply_freeze_decision) at h) in cc
    | inr (x, p) ↦ rw (p, apply_freeze_decision) refl
  ]

  finish_freeze-result :
      (name : String) (disk : Disk) (r : FreezeResult)
      → (finish_freeze env targets d name disk).0 ≡ ok r
      → (r.status ≡ frozen)
        × (r.path ≡ name)
        × (r.decided_by ≡ d.decided_by)
        × (r.artifact_id ≡ d.artifact_id)
  unfolding finish_freeze count_freeze
  finish_freeze-result name disk r h = ground arith

  pub write_artifact_status-path :
      (disk : Disk) (name text path : String) (status : ArtifactStatus)
      → find_artifact_path disk d.artifact_id ≡ ok (name, text)
      → (write_artifact_status disk d.artifact_id status).0 ≡ ok path
      → path ≡ name
  unfolding write_artifact_status
  write_artifact_status-path disk name text path status f h = ground arith

  write_freeze-result :
      (disk : Disk) (name text : String) (r : FreezeResult)
      → find_artifact_path disk d.artifact_id ≡ ok (name, text)
      → (write_freeze env targets d disk).0 ≡ ok r
      → (r.status ≡ frozen)
        × (r.path ≡ name)
        × (r.decided_by ≡ d.decided_by)
        × (r.artifact_id ≡ d.artifact_id)
  unfolding write_freeze
  write_freeze-result disk name text r f h =
      let w = write_artifact_status disk d.artifact_id frozen in
      elim (Outcome-cases w.0) [
        | inl (path, e) ↦
            let p = write_provenance env d path w.1 in
            elim (Outcome-cases p.0) [
              | inl (u, q) ↦
                  let g = finish_freeze-result path p.1 r (ground (arith, h, e, q)) in
                  let same = write_artifact_status-path disk name text path frozen f e in
                  (g.0, ground (arith, g, same), g.2, g.3)
              | inr (x, q) ↦ absurd (ground (arith, h, e, q))
            ]
        | inr (x, e) ↦ absurd (ground (arith, h, e))
      ]

  -- A freeze that returns names a decision with a human's identity and no automatic freeze, whose
  -- outcome approves, and whose hash is that of the text on disk of the artifact it names; the
  -- result is of that artifact and file, frozen, under that identity.
  pub apply-authorized :
      (disk : Disk) (r : FreezeResult)
      → (apply_freeze_decision env targets d disk).0 ≡ ok r
      → (text : String) × IsCleared env d disk r.path text
        × (r.status ≡ frozen)
        × (r.decided_by ≡ d.decided_by)
        × (r.artifact_id ≡ d.artifact_id)
  unfolding apply_freeze_decision
  apply-authorized disk r h = elim (Outcome-cases (check_guards env targets d disk)) [
    | inl ((name, text), p) ↦
        let c = check_guards-Cleared disk name text p in
        let g = write_freeze-result disk name text r c.found (ground (arith, h, p)) in
        (text, rw g.1 c, g.0, g.2, g.3)
    | inr (x, p) ↦ absurd (ground (arith, h, p))
  ]
