-- ===== src/Calibration/LockFile.antt =====
-- src/calibration.py: `calibration.lock`, what a passing report writes and what CI checks.
use aieos_agent_harness.Base.{
  ℕ, String, string_eq, ◌≡◌, ◌≢◌, ◌↔◌, inl, inr, Bool, true, false, Option, none, some,
  Option-cases, [], ◌==◌, if◌then◌else◌, arith,
}
use aieos_agent_harness.Base.Dict
use aieos_agent_harness.Base.Dict.{Dict, get-insert}
use aieos_agent_harness.Adapter.{Outcome, ok, err}
use aieos_agent_harness.Calibration.{CalibrationError, verdict_fail}
use aieos_agent_harness.Calibration.Scoring.{CalibrationReport}

pub record LockEntry : Type 0 where
  pub prompt_sha256 : String
  pub model : String
  pub gate_agreement : ℕ × ℕ
  pub false_pass_count : ℕ
  pub report_ref : String

-- The file: not there, not decoded as JSON, JSON without a mapping of validators, or with one. An
-- entry of the mapping is `none` where it is not a mapping itself.
pub data LockState : Type 0 where
  absent undecodable no_validators : LockState
  entries : Dict String (Option LockEntry) → LockState

unfoldable pub validators_of : LockState → Dict String (Option LockEntry)
validators_of absent = []
validators_of undecodable = []
validators_of no_validators = []
validators_of (entries d) = d

unfoldable pub entry_of : CalibrationReport → String → LockEntry
entry_of report report_ref = record {
  prompt_sha256 = report.prompt_sha256;
  model = report.model;
  gate_agreement = report.gate_agreement;
  false_pass_count = report.false_pass_count;
  report_ref = report_ref;
}

unfoldable pub write_lock :
    CalibrationReport → String → LockState → Outcome CalibrationError LockState
write_lock report report_ref lock =
    if report.verdict == "PASS"
    then ok (
        entries
          (Dict.insert report.validator (some (entry_of report report_ref)) (validators_of lock)))
    else err verdict_fail

pub data Reason : Type 0 where
  fresh missing_lock bad_lock unknown_validator prompt_changed model_changed : Reason

pub record LockCheckResult : Type 0 where
  pub is_fresh : Bool
  pub reason : Reason
  pub entry : Option LockEntry

unfoldable pub check_entry : String → String → Option (Option LockEntry) → LockCheckResult
check_entry prompt_sha256 model none = record {
  is_fresh = false;
  reason = unknown_validator;
  entry = none;
}
check_entry prompt_sha256 model (some none) = record {
  is_fresh = false;
  reason = unknown_validator;
  entry = none;
}
check_entry prompt_sha256 model (some (some e)) =
    if e.prompt_sha256 == prompt_sha256
    then if e.model == model
      then record { is_fresh = true; reason = fresh; entry = some e }
      else record { is_fresh = false; reason = model_changed; entry = some e }
    else record { is_fresh = false; reason = prompt_changed; entry = some e }

unfoldable pub check_lock : String → String → LockState → String → LockCheckResult
check_lock prompt_sha256 model absent validator = record {
  is_fresh = false;
  reason = missing_lock;
  entry = none;
}
check_lock prompt_sha256 model undecodable validator = record {
  is_fresh = false;
  reason = bad_lock;
  entry = none;
}
check_lock prompt_sha256 model no_validators validator = check_entry prompt_sha256 model none
check_lock prompt_sha256 model (entries d) validator =
    check_entry prompt_sha256 model (Dict.get d validator)

-- The lock is fresh for a prompt and a model exactly when the file has an entry for the validator
-- with that prompt's hash and that model.
pub check_lock_iff :
    (prompt_sha256 model : String) (lock : LockState) (validator : String)
    → ((check_lock prompt_sha256 model lock validator).is_fresh ≡ true) ↔ (
        (e : LockEntry) × (Dict.get (validators_of lock) validator ≡ some (some e))
        × (e.prompt_sha256 ≡ prompt_sha256)
        × (e.model ≡ model))
unfolding check_lock check_entry validators_of Dict.get
check_lock_iff prompt_sha256 model absent v = (λ h. cc, λ (e, h, k, l). absurd (ground arith))
check_lock_iff prompt_sha256 model undecodable v = (λ h. cc, λ (e, h, k, l). absurd (ground arith))
check_lock_iff prompt_sha256 model no_validators v =
    (λ h. cc, λ (e, h, k, l). absurd (ground arith))
check_lock_iff prompt_sha256 model (entries d) v = (
  λ h. elim (Option-cases (Dict.get d v)) [
    | inl e ↦ absurd (ground arith)
    | inr (none, e) ↦ absurd (ground arith)
    | inr (some x, e) ↦ (x, e, ground arith, ground arith)
  ],
  λ (e, h, k, l). ground arith,
)

written :
    (report : CalibrationReport) (report_ref : String) (lock lock' : LockState)
    → write_lock report report_ref lock ≡ ok lock'
    → lock'
      ≡ entries
          (Dict.insert report.validator (some (entry_of report report_ref)) (validators_of lock))
unfolding write_lock
written report report_ref lock lock' h = ground arith

check-written :
    (report : CalibrationReport) (report_ref : String) (d : Dict String (Option LockEntry))
    → (check_lock report.prompt_sha256 report.model
        (entries (Dict.insert report.validator (some (entry_of report report_ref)) d))
        report.validator).is_fresh
      ≡ true
unfolding check_lock check_entry entry_of
check-written report report_ref d =
    ground
      (arith, get-insert report.validator report.validator (some (entry_of report report_ref)) d)

check-others :
    (p m other v : String) (e : Option LockEntry) (d : Dict String (Option LockEntry))
    → other ≢ v
    → check_lock p m (entries (Dict.insert v e d)) other ≡ check_lock p m (entries d) other
unfolding check_lock
check-others p m other v e d differ = ground (arith, get-insert other v e d)

check-rebuilt :
    (p m other v : String) (e : Option LockEntry)
    → other ≢ v
    → check_lock p m (entries (Dict.insert v e [])) other
      ≡ record { is_fresh = false; reason = unknown_validator; entry = none }
unfolding check_lock check_entry Dict.get
check-rebuilt p m other v e differ = ground (arith, get-insert other v e [])

-- How another validator is checked once a lock was written over the file: as before where the file
-- was JSON, and as unknown where there was none or it did not decode.
abbrev pub after_write : String → String → LockState → String → LockCheckResult
after_write prompt_sha256 model absent other = record {
  is_fresh = false;
  reason = unknown_validator;
  entry = none;
}
after_write prompt_sha256 model undecodable other = record {
  is_fresh = false;
  reason = unknown_validator;
  entry = none;
}
after_write prompt_sha256 model no_validators other =
    check_lock prompt_sha256 model no_validators other
after_write prompt_sha256 model (entries d) other = check_lock prompt_sha256 model (entries d) other

check-after_write :
    (p m other v : String) (e : Option LockEntry) (lock : LockState)
    → other ≢ v
    → check_lock p m (entries (Dict.insert v e (validators_of lock))) other
      ≡ after_write p m lock other
unfolding validators_of
check-after_write p m other v e absent differ = check-rebuilt p m other v e differ
check-after_write p m other v e undecodable differ = check-rebuilt p m other v e differ
check-after_write p m other v e no_validators differ =
    unfold check_lock check_entry in check-rebuilt p m other v e differ
check-after_write p m other v e (entries d) differ = check-others p m other v e d differ

-- What a report that passes writes is fresh for its own prompt and model. Every other validator is
-- checked as before where the old file was JSON, with a mapping of validators or without one;
-- where there was no file, or it did not decode, every other validator is unknown from then on.
pub write_lock-check_lock :
    (report : CalibrationReport) (report_ref : String) (lock lock' : LockState)
    → write_lock report report_ref lock ≡ ok lock'
    → ((check_lock report.prompt_sha256 report.model lock' report.validator).is_fresh ≡ true)
      × ((prompt_sha256 model other : String)
          → other ≢ report.validator
          → check_lock prompt_sha256 model lock' other ≡ after_write prompt_sha256 model lock other)
write_lock-check_lock report report_ref lock lock' h = rw (written report report_ref lock lock' h) (
  check-written report report_ref (validators_of lock),
  λ p m other.
      check-after_write p m other report.validator (some (entry_of report report_ref)) lock,
)

-- Writing the lock is refused exactly for a report whose verdict is not PASS.
pub write_lock-refuses :
    (report : CalibrationReport) (report_ref : String) (lock : LockState)
    → (write_lock report report_ref lock ≡ err verdict_fail) ↔ (report.verdict ≢ "PASS")
unfolding write_lock
write_lock-refuses report report_ref lock = (λ h. ground arith, λ h. ground arith)
