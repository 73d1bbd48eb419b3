-- ===== src/Driver/Frozen.antt =====
-- src/driver.py: what a conductor leaves alone (G-13, and freeze-before-promote).
use aieos_agent_harness.Base.{
  String, ◌<>◌, string_eq, option_eq, ◌≡◌, ◌≢◌, refl, ap, ◌∙◌, inl, inr, true, Bool-cases, arith,
}
use aieos_agent_harness.Base.Dict
use aieos_agent_harness.Adapter.{Outcome-cases}
use aieos_agent_harness.Convergence.{RunResult}
use aieos_agent_harness.Freeze.{text_of}
use aieos_agent_harness.Freeze.Effects.{text_of-store}
use aieos_agent_harness.State.{Disk}
use aieos_agent_harness.Driver.{
  Platform, HarnessDriver, is_frozen, persist_freeze_pending, conclude_artifact, make_sdlc,
  pending_document, artifact_id_of,
}

-- Reading the disk back after a write to it.
pub record IsDisk {W : Type 0} (p : Platform W) : Type 0 where
  pub written : (d : Disk) (w : W) → p.disk (p.set_disk d w) ≡ d

module _ {W : Type 0} (p : Platform W) (self : HarnessDriver W) where
  -- If the artifact has become frozen by the end of the loop, then nothing that the loop returns
  -- is written over it.
  pub conclude_artifact-frozen :
      (artifact_type : String) (r : RunResult) (w : W)
      → is_frozen p self artifact_type w ≡ true
      → (conclude_artifact p self artifact_type r w).1 ≡ w
  unfolding conclude_artifact persist_freeze_pending
  conclude_artifact-frozen artifact_type r w f = ground (arith, f)

  text_of-make_sdlc :
      (other : String) (disk : Disk) → text_of other (make_sdlc disk) ≡ text_of other disk
  unfolding text_of make_sdlc Dict.get
  text_of-make_sdlc other disk = ground arith

  -- Persisting a converged artifact writes no file under docs/sdlc but the one of its type, on any
  -- world in which a written disk is read back.
  pub persist_freeze_pending-others :
      (law : IsDisk p) (artifact_type content other : String) (w : W)
      → other ≢ p.lower artifact_type <> ".md"
      → text_of other (p.disk (persist_freeze_pending p self artifact_type content w).1)
        ≡ text_of other (p.disk w)
  unfolding persist_freeze_pending
  persist_freeze_pending-others law artifact_type content other w n =
      let aid = artifact_id_of p self artifact_type in
      let made = make_sdlc (p.disk w) in
      let first : text_of other (p.disk (p.set_disk made w)) ≡ text_of other (p.disk w) =
        ap (text_of other) (law.written made w) ∙ text_of-make_sdlc other (p.disk w) in
      elim (Bool-cases (is_frozen p self artifact_type w)) [
        | inl f ↦ rw f refl
        | inr f ↦ elim (Outcome-cases (pending_document p.env.expand aid artifact_type content)) [
          | inr (x, e) ↦ rw (f, e) first
          | inl (doc, e) ↦
              rw (f, e)
                (ap (text_of other) (law.written _ _)
                  ∙ text_of-store (p.lower artifact_type <> ".md") other doc _ n
                  ∙ first)
        ]
      ]
