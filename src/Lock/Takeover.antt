-- ===== src/Lock/Takeover.antt =====
-- src/lock.py: when `acquire_lock` succeeds, and what it writes.
use aieos_agent_harness.Base.{
  ℕ, ◌+◌, ◌*◌, ◌≤◌, ◌<◌, ◌≡◌, refl, ◌≢◌, ◌↔◌, ◌⊎◌, inl, inr, Bool, true, false, Option, none, some,
  Option-cases, Bool-cases, ◌==◌, string_eq, arith,
}
use aieos_agent_harness.Base.Lists.{contains}
use aieos_agent_harness.Lock.{
  LockInfo, LockResult, Files, Claim, valid_drivers, second, fmt, is_takeable, sid, ours, refreshed,
  read_lock, acquire_read, acquire_lock,
}

-- Some lock is in the way of the claim: it is another session's, its lease runs, and its process is
-- on another host or alive.
abbrev pub Blocked : Claim → (ℕ → Bool) → Files → Type 0
Blocked c alive fs =
    (info : LockInfo) × (fs.lock ≡ some info)
    × (info.session_id ≢ sid c)
    × (c.now ≤ (info.renewed_at + info.lease_ttl_seconds) * second)
    × ((info.hostname ≢ c.hostname) ⊎ (alive info.pid ≡ true))

abbrev pub acquired? : Option LockResult → Bool
acquired? none = false
acquired? (some r) = r.acquired

Blocked-acquire :
    (c : Claim) (alive : ℕ → Bool) (fs : Files)
    → Blocked c alive fs
    → (acquired? (acquire_lock c alive fs).0 ≡ false) × ((acquire_lock c alive fs).1 ≡ fs)
unfolding acquire_lock acquire_read is_takeable read_lock
Blocked-acquire c alive fs (info, l, s, lease, live) = ground arith

-- A claim by a known driver fails exactly when a lock is in its way, and then the files stay as
-- they are.
pub acquire_lock_iff :
    (c : Claim) (alive : ℕ → Bool) (fs : Files)
    → contains valid_drivers c.driver ≡ true
    → ((acquired? (acquire_lock c alive fs).0 ≡ false) ↔ Blocked c alive fs)
      × (Blocked c alive fs → (acquire_lock c alive fs).1 ≡ fs)
unfolding acquire_lock acquire_read is_takeable read_lock
acquire_lock_iff c alive fs valid = (
  (
    λ refused. elim (Option-cases fs.lock) [
      | inl free ↦ absurd (ground arith)
      | inr (info, l) ↦ (info, l, ground arith, ground arith, ground arith)
    ],
    λ b. (Blocked-acquire c alive fs b).0,
  ),
  λ b. (Blocked-acquire c alive fs b).1,
)

-- The lock that a claim finds is another session's.
abbrev pub Displaces : Claim → Files → Type 0
Displaces c fs = (old : LockInfo) × (fs.lock ≡ some old) × (old.session_id ≢ sid c)

-- What a claim that succeeds leaves behind.
pub record IsHeld (c : Claim) (fs fs' : Files) (r : LockResult) : Type 0 where
  pub held :
      (info : LockInfo) × (fs'.lock ≡ some info)
      × (info.session_id ≡ sid c)
      × (info.renewed_at ≡ fmt c.now)
      × (r.info ≡ some info)
  pub flagged : (r.took_over ≡ true) ↔ Displaces c fs
  pub kept : (Displaces c fs → ⊥) → fs'.halt ≡ fs.halt
  pub halted :
      (old : LockInfo)
      → fs.lock ≡ some old
      → old.session_id ≢ sid c
      → (r.previous ≡ some old)
        × ((new : LockInfo) × (fs'.lock ≡ some new)
            × (fs'.halt ≡ some (record { at = fmt c.now; taken_from = old; taken_by = new })))

-- A claim that succeeds leaves a lock of its session with a fresh heartbeat. Where the lock that it
-- found was another session's, it is flagged as a takeover, and the halt sentinel is written and
-- names both sessions' locks; where there was no lock, or its own, the claim is not flagged, and
-- the halt sentinel stays as it was.
pub acquire_lock-IsHeld :
    (c : Claim) (alive : ℕ → Bool) (fs : Files) (r : LockResult)
    → (acquire_lock c alive fs).0 ≡ some r
    → r.acquired ≡ true
    → IsHeld c fs (acquire_lock c alive fs).1 r
unfolding acquire_lock acquire_read read_lock
acquire_lock-IsHeld c alive fs r e a = elim (Option-cases fs.lock) [
  | inl free ↦ record {
    held = (ours c, ground arith, unfold ours in refl, unfold ours in refl, ground arith);
    flagged = (λ t. absurd (ground arith), λ (old, l, s). absurd (ground arith));
    kept = λ own. ground arith;
    halted = λ old l s. absurd (ground arith);
  }
  | inr (info, l) ↦ elim (Bool-cases (info.session_id == sid c)) [
    | inl own ↦ record {
      held = (
        refreshed info c.now,
        ground arith,
        unfold refreshed in ground arith,
        unfold refreshed in refl,
        ground arith,
      );
      flagged = (λ t. absurd (ground arith), λ (old, k, s). absurd (ground arith));
      kept = λ mine. ground arith;
      halted = λ old k s. absurd (ground arith);
    }
    | inr other ↦ record {
      held = (ours c, ground arith, unfold ours in refl, unfold ours in refl, ground arith);
      flagged = (λ t. (info, l, ground arith), λ d. ground arith);
      kept = λ mine. absurd (mine (info, l, ground arith));
      halted = λ old k s. (ground arith, (ours c, ground arith, ground arith));
    }
  ]
]

-- A lock whose lease has run out falls to the next claim, whatever its host and its process.
pub expired-acquire :
    (c : Claim) (alive : ℕ → Bool) (fs : Files) (info : LockInfo)
    → contains valid_drivers c.driver ≡ true
    → fs.lock ≡ some info
    → (info.renewed_at + info.lease_ttl_seconds) * second < c.now
    → acquired? (acquire_lock c alive fs).0 ≡ true
unfolding acquire_lock acquire_read is_takeable read_lock
expired-acquire c alive fs info valid l late = ground arith
