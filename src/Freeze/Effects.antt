-- ===== src/Freeze/Effects.antt =====
-- src/freeze.py: which files a freeze writes.
use aieos_agent_harness.Base.{
  [], ◌∷◌, String, string_eq, option_eq, ◌≡◌, ◌≢◌, refl, ◌∙◌, inl, inr, arith, Option-cases,
}
use aieos_agent_harness.Base.Dict.{Dict}
use aieos_agent_harness.Adapter.{ok, Outcome-cases}
use aieos_agent_harness.Models.{FreezeGateDecision, frozen}
use aieos_agent_harness.State.{
  Disk, find_artifact_path, write_artifact_status, store_text, status_label,
}
use aieos_agent_harness.State.Cells.{cell}
use aieos_agent_harness.State.Files.{get-write_file}
use aieos_agent_harness.State.Record.{upsert_document_control_rows}
use aieos_agent_harness.Freeze.{
  Surroundings, Targets, check_guards, write_provenance, count_freeze, finish_freeze, write_freeze,
  apply_freeze_decision, text_of, journal_freeze, owner_of,
}
use aieos_agent_harness.Freeze.Guards.{write_artifact_status-path}

-- A write to one file leaves the text of another.
pub text_of-store :
    (name other text : String) (disk : Disk)
    → other ≢ name
    → text_of other (store_text name text disk) ≡ text_of other disk
unfolding text_of store_text
text_of-store name other text disk n = elim (Option-cases disk.sdlc) [
  | inl e ↦ rw e refl
  | inr (files, e) ↦ rw e (ground (arith, get-write_file name other text files, n))
]

abbrev rows : Surroundings → FreezeGateDecision → Dict String String
rows env d = ("Owner", owner_of d) ∷ ("Frozen By", d.decided_by) ∷ ("Frozen Date", env.today) ∷ []

module _ (env : Surroundings) (targets : Targets) (d : FreezeGateDecision) where
  write_status-others :
      (disk : Disk) (name text other : String)
      → find_artifact_path disk d.artifact_id ≡ ok (name, text)
      → other ≢ name
      → text_of other (write_artifact_status disk d.artifact_id frozen).1 ≡ text_of other disk
  unfolding write_artifact_status
  write_status-others disk name text other f n = elim (Option-cases (cell status_label text)) [
    | inl e ↦ rw (f, e, write_artifact_status) refl
    | inr (v, e) ↦ rw (f, e, write_artifact_status) (text_of-store name other _ disk n)
  ]

  write_provenance-others :
      (name other : String) (disk : Disk)
      → other ≢ name
      → text_of other (write_provenance env d name disk).1 ≡ text_of other disk
  unfolding write_provenance
  write_provenance-others name other disk n = elim (Option-cases (text_of name disk)) [
    | inl e ↦ rw (e, write_provenance) refl
    | inr (text, e) ↦
        elim (Outcome-cases (upsert_document_control_rows env.expand text (rows env d))) [
          | inl (t, u) ↦ rw (e, u, write_provenance) (text_of-store name other t disk n)
          | inr (x, u) ↦ rw (e, u, write_provenance) refl
        ]
  ]

  finish_freeze-others :
      (name other : String) (disk : Disk)
      → text_of other (finish_freeze env targets d name disk).1 ≡ text_of other disk
  unfolding finish_freeze count_freeze journal_freeze text_of
  finish_freeze-others name other disk = ground arith

  -- Whether it returns or raises, a freeze writes no file under docs/sdlc but the one of the
  -- artifact that its decision names.
  pub apply-others :
      (disk : Disk) (name text other : String)
      → find_artifact_path disk d.artifact_id ≡ ok (name, text)
      → other ≢ name
      → text_of other (apply_freeze_decision env targets d disk).1 ≡ text_of other disk
  unfolding apply_freeze_decision write_freeze
  apply-others disk name text other f n =
      let w = write_artifact_status disk d.artifact_id frozen in
      let first = write_status-others disk name text other f n in
      elim (Outcome-cases (check_guards env targets d disk)) [
        | inr (x, p) ↦ rw (p, apply_freeze_decision) refl
        | inl (g, p) ↦ elim (Outcome-cases w.0) [
          | inr (x, e) ↦ rw (p, e, apply_freeze_decision, write_freeze) first
          | inl (path, e) ↦
              let same = write_artifact_status-path env targets d disk name text path frozen f e in
              let q = write_provenance env d path w.1 in
              let second = write_provenance-others path other w.1 (rw same n) in
              elim (Outcome-cases q.0) [
                | inr (x, r) ↦ rw (p, e, r, apply_freeze_decision, write_freeze) (second ∙ first)
                | inl (u, r) ↦
                    rw (p, e, r, apply_freeze_decision, write_freeze)
                      (finish_freeze-others path other q.1 ∙ second ∙ first)
              ]
        ]
      ]
