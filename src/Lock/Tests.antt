-- ===== src/Lock/Tests.antt =====
-- src/lock.py: two sessions on one initiative, and the theorems about the lock at that run.
use aieos_agent_harness.Base.{
  ℕ, String, ◌≡◌, refl, sym, ◌≢◌, ◌↔◌, ◌⊎◌, Bool, true, false, none, some, List, [], ◌∷◌, ◌==◌,
  string_eq, arith,
}
use aieos_agent_harness.Base.Lists.{contains, any}
use aieos_agent_harness.Lock.{
  LockInfo, LockResult, Files, Claim, valid_drivers, fmt, expired, is_takeable, sid, ours,
  refreshed, read_lock, acquire_read, acquire_lock, renew_lock,
}
use aieos_agent_harness.Lock.Takeover.{
  Blocked, acquired?, acquire_lock_iff, IsHeld, acquire_lock-IsHeld,
}
use aieos_agent_harness.Lock.Sessions.{
  Op, acquire, renew, release, run_ops, Holds, AllSpare, Leaves, run_ops-Holds, step, step-Leaves,
}
use aieos_agent_harness.Lock.Race.{both_acquire}

abbrev claim : String → ℕ → Claim
claim session now = record {
  owner = "o";
  driver = "console";
  session = some session;
  fresh = "f";
  initiative = "i";
  ttl = 1800;
  heartbeat = 300;
  now = now;
  hostname = "h";
  pid = 7;
}

abbrev open_files : Files
open_files = record { lock = none; halt = none }

abbrev nobody : ℕ → Bool
nobody pid = false

abbrev everybody : ℕ → Bool
everybody pid = true

-- A lock of the session "a", taken at 10 seconds.
abbrev lock_a : LockInfo
lock_a = record {
  owner = "o";
  driver = "console";
  session_id = "a";
  hostname = "h";
  pid = 7;
  acquired_at = 10;
  renewed_at = 10;
  initiative = "i";
  lease_ttl_seconds = 1800;
  heartbeat_interval_seconds = 300;
  lock_version = "1.0";
}

abbrev files_a : Files
files_a = record { lock = some lock_a; halt = none }

abbrev lock_b : LockInfo
lock_b = record lock_a { session_id = "b"; acquired_at = 20; renewed_at = 20 }

abbrev takeover : LockResult
takeover = record { acquired = true; took_over = true; info = some lock_b; previous = some lock_a }

a_acquires : (acquire_lock (claim "a" 10000000) everybody open_files).1 ≡ files_a
unfolding acquire_lock acquire_read read_lock contains any ours sid fmt string_eq
a_acquires = refl

b_takes_over : (acquire_lock (claim "b" 20000000) nobody files_a).0 ≡ some takeover
unfolding acquire_lock acquire_read read_lock contains any ours sid fmt string_eq is_takeable
    expired
b_takes_over = refl

known_driver : contains valid_drivers "console" ≡ true
unfolding contains any string_eq
known_driver = refl

acquire_lock_iff_example :
    ((acquired? (acquire_lock (claim "b" 20000000) everybody files_a).0 ≡ false)
      ↔ Blocked (claim "b" 20000000) everybody files_a)
    × (Blocked (claim "b" 20000000) everybody files_a
        → (acquire_lock (claim "b" 20000000) everybody files_a).1 ≡ files_a)
acquire_lock_iff_example = acquire_lock_iff (claim "b" 20000000) everybody files_a known_driver

acquire_lock-IsHeld_example :
    IsHeld
      (claim "b" 20000000)
      files_a
      (acquire_lock (claim "b" 20000000) nobody files_a).1
      takeover
acquire_lock-IsHeld_example =
    acquire_lock-IsHeld (claim "b" 20000000) nobody files_a takeover b_takes_over refl

a_is_not_b : (◌≡◌ {A = Bool} (◌==◌ {A = String} "a" "b") false)
unfolding string_eq
a_is_not_b = refl

b_is_b : (◌≡◌ {A = Bool} (◌==◌ {A = String} "b" "b") true)
unfolding string_eq
b_is_b = refl

letters_differ : ◌≢◌ {A = String} "a" "b"
letters_differ same = ground (arith, a_is_not_b, b_is_b)

abbrev calls : List Op
calls = acquire (claim "b" 20000000) ∷ renew "a" 30000000 ∷ release "b" ∷ []

calls-AllSpare : AllSpare "a" everybody calls files_a
unfolding step acquire_lock acquire_read read_lock contains any ours sid fmt string_eq is_takeable
    expired renew_lock refreshed
calls-AllSpare = (λ info l. ground arith, (tt, (λ h. letters_differ (sym h), tt)))

run_ops-Holds_example : Holds "a" (run_ops everybody calls files_a)
run_ops-Holds_example =
    run_ops-Holds "a" everybody calls files_a (lock_a, refl, refl) calls-AllSpare

step-Leaves_example :
    Holds "a" (step nobody (acquire (claim "b" 20000000)) files_a)
    ⊎ Leaves nobody lock_a
        (acquire (claim "b" 20000000))
        (step nobody (acquire (claim "b" 20000000)) files_a)
step-Leaves_example = step-Leaves nobody (acquire (claim "b" 20000000)) files_a lock_a refl

a_acquired : acquired? (acquire_lock (claim "a" 10000000) everybody open_files).0 ≡ true
unfolding acquire_lock acquire_read read_lock contains any string_eq
a_acquired = refl

two_sessions : sid (claim "a" 10000000) ≢ sid (claim "b" 20000000)
unfolding sid string_eq
two_sessions = letters_differ

both_acquire_example :
    let seen = read_lock open_files in
    let (ra, fs1) = acquire_read (claim "a" 10000000) everybody seen open_files in
    let (rb, fs2) = acquire_read (claim "b" 20000000) everybody seen fs1 in
    (ra.acquired ≡ true)
    × (rb.acquired ≡ true)
    × (fs2.lock ≡ some (ours (claim "b" 20000000)))
    × (fs2.halt ≡ none)
    × (renew_lock (sid (claim "a" 10000000)) 30000000 fs2 ≡ (false, fs2))
both_acquire_example =
    both_acquire (claim "a" 10000000) (claim "b" 20000000) everybody open_files 30000000 refl
      two_sessions
