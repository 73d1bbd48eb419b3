-- ===== src/Lock/Race.antt =====
-- src/lock.py: `acquire_lock` reads the lock file and writes it in two steps that nothing joins.
use aieos_agent_harness.Base.{ℕ, ◌≡◌, ◌≢◌, Bool, true, false, none, some, string_eq, arith}
use aieos_agent_harness.Lock.{Files, Claim, sid, ours, read_lock, acquire_read, renew_lock}

-- Two claims on an unlocked initiative that both read before either writes are both told that they
-- hold the lock, and no halt sentinel is written. The lock is the later writer's, and the other
-- learns of it at its next heartbeat.
pub both_acquire :
    (a b : Claim) (alive : ℕ → Bool) (fs : Files) (now : ℕ)
    → fs.lock ≡ none
    → sid a ≢ sid b
    → let seen = read_lock fs in
      let (ra, fs1) = acquire_read a alive seen fs in
      let (rb, fs2) = acquire_read b alive seen fs1 in
      (ra.acquired ≡ true)
      × (rb.acquired ≡ true)
      × (fs2.lock ≡ some (ours b))
      × (fs2.halt ≡ fs.halt)
      × (renew_lock (sid a) now fs2 ≡ (false, fs2))
unfolding read_lock acquire_read renew_lock
both_acquire a b alive fs now free differ =
    (ground arith, ground arith, ground arith, ground arith, unfold ours in ground arith)
