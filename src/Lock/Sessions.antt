-- ===== src/Lock/Sessions.antt =====
-- src/lock.py: sequences of calls by several sessions on the files of one initiative.
use aieos_agent_harness.Base.{
  ℕ, String, ◌≡◌, refl, ◌≢◌, ◌⊎◌, inl, inr, Bool, true, false, none, some, Bool-cases, List, [],
  ◌∷◌, ◌==◌, string_eq, arith,
}
use aieos_agent_harness.Base.Lists.{contains}
use aieos_agent_harness.Lock.{
  LockInfo, LockResult, Files, Claim, valid_drivers, is_takeable, sid, ours, refreshed, read_lock,
  acquire_read, acquire_lock, renew_lock, release_lock,
}
use aieos_agent_harness.Lock.Takeover.{acquired?}

pub data Op : Type 0 where
  acquire : Claim → Op
  renew : String → ℕ → Op
  release : String → Op

-- The files after one call.
unfoldable pub step : (ℕ → Bool) → Op → Files → Files
step alive (acquire c) fs = (acquire_lock c alive fs).1
step alive (renew session now) fs = (renew_lock session now fs).1
step alive (release session) fs = (release_lock session fs).1

unfoldable pub run_ops : (ℕ → Bool) → List Op → Files → Files
run_ops alive [] fs = fs
run_ops alive (op ∷ ops) fs = run_ops alive ops (step alive op fs)

-- The session that holds the lock.
abbrev pub Holds : String → Files → Type 0
Holds s fs = (info : LockInfo) × (fs.lock ≡ some info) × (info.session_id ≡ s)

-- A call that does not take the lock away: no claim finds the lock takeable, and the holder does
-- not release it. Renewals are free, the holder's and the others'.
abbrev pub Spares : String → (ℕ → Bool) → Op → Files → Type 0
Spares s alive (acquire c) fs =
    (info : LockInfo) → fs.lock ≡ some info → is_takeable info c.now c.hostname alive ≡ false
Spares s alive (renew session now) fs = Unit
Spares s alive (release session) fs = session ≢ s

abbrev pub AllSpare : String → (ℕ → Bool) → List Op → Files → Type 0
AllSpare s alive [] fs = Unit
AllSpare s alive (op ∷ ops) fs = Spares s alive op fs × AllSpare s alive ops (step alive op fs)

step-Holds :
    (s : String) (alive : ℕ → Bool) (op : Op) (fs : Files)
    → Holds s fs
    → Spares s alive op fs
    → Holds s (step alive op fs)
unfolding step acquire_lock acquire_read renew_lock release_lock refreshed read_lock
step-Holds s alive (acquire c) fs (info, l, h) spare =
    elim (Bool-cases (info.session_id == sid c)) [
      | inl own ↦ elim (Bool-cases (contains valid_drivers c.driver)) [
        | inl v ↦ (refreshed info c.now, ground arith, ground arith)
        | inr v ↦ (info, ground arith, h)
      ]
      | inr other ↦ (info, ground (arith, spare info l), h)
    ]
step-Holds s alive (renew session now) fs (info, l, h) spare =
    elim (Bool-cases (info.session_id == session)) [
      | inl own ↦ (refreshed info now, ground arith, ground arith)
      | inr other ↦ (info, ground arith, h)
    ]
step-Holds s alive (release session) fs (info, l, h) spare = (info, ground arith, h)

-- A holder keeps the lock through any calls of any sessions, while each claim that is made finds
-- the lease running and the process out of reach or alive, and the holder does not release it.
pub run_ops-Holds :
    (s : String) (alive : ℕ → Bool) (ops : List Op) (fs : Files)
    → Holds s fs
    → AllSpare s alive ops fs
    → Holds s (run_ops alive ops fs)
unfolding run_ops
run_ops-Holds s alive [] fs h a = h
run_ops-Holds s alive (op ∷ ops) fs h a =
    run_ops-Holds s alive ops (step alive op fs) (step-Holds s alive op fs h a.0) a.1

-- How a lock can leave its session in one call.
pub data Leaves (alive : ℕ → Bool) (old : LockInfo) (op : Op) (fs' : Files) : Type 0 where
  freed : op ≡ release old.session_id → fs'.lock ≡ none → Leaves alive old op fs'
  taken :
      (c : Claim)
      → op ≡ acquire c
      → is_takeable old c.now c.hostname alive ≡ true
      → fs'.lock ≡ some (ours c)
      → Leaves alive old op fs'

-- One call on a locked initiative leaves the lock with its session, or the session released it, or
-- a claim took it over, and that claim found the lease run out or the process dead on its own host.
pub step-Leaves :
    (alive : ℕ → Bool) (op : Op) (fs : Files) (old : LockInfo)
    → fs.lock ≡ some old
    → Holds old.session_id (step alive op fs) ⊎ Leaves alive old op (step alive op fs)
unfolding step acquire_lock acquire_read renew_lock release_lock refreshed read_lock
step-Leaves alive (acquire c) fs old l = elim (Bool-cases (contains valid_drivers c.driver)) [
  | inr v ↦ inl (old, ground arith, refl)
  | inl v ↦ elim (Bool-cases (old.session_id == sid c)) [
    | inl own ↦ inl (refreshed old c.now, ground arith, refl)
    | inr other ↦ elim (Bool-cases (is_takeable old c.now c.hostname alive)) [
      | inl t ↦ inr (taken c refl t (ground arith))
      | inr t ↦ inl (old, ground arith, refl)
    ]
  ]
]
step-Leaves alive (renew session now) fs old l = elim (Bool-cases (old.session_id == session)) [
  | inl own ↦ inl (refreshed old now, ground arith, refl)
  | inr other ↦ inl (old, ground arith, refl)
]
step-Leaves alive (release session) fs old l = elim (Bool-cases (old.session_id == session)) [
  | inl own ↦ inr (freed (ground arith) (ground arith))
  | inr other ↦ inl (old, ground arith, refl)
]

-- After a session's lock has been taken over by another session, both its heartbeat and its release
-- answer False and leave the new lock alone.
pub displaced :
    (c : Claim) (alive : ℕ → Bool) (fs : Files) (old : LockInfo) (r : LockResult) (now : ℕ)
    → fs.lock ≡ some old
    → (acquire_lock c alive fs).0 ≡ some r
    → r.took_over ≡ true
    → let fs' = (acquire_lock c alive fs).1 in
      (renew_lock old.session_id now fs' ≡ (false, fs'))
      × (release_lock old.session_id fs' ≡ (false, fs'))
unfolding acquire_lock acquire_read renew_lock release_lock read_lock ours
displaced c alive fs old r now l e t = (ground arith, ground arith)

-- A claim that succeeds can be renewed and then released, which leaves the initiative unlocked and
-- the halt sentinel as the claim left it.
pub acquire-renew-release :
    (c : Claim) (alive : ℕ → Bool) (fs : Files) (now : ℕ)
    → acquired? (acquire_lock c alive fs).0 ≡ true
    → let held = (acquire_lock c alive fs).1 in
      let renewed = renew_lock (sid c) now held in
      let released = release_lock (sid c) renewed.1 in
      (renewed.0 ≡ true)
      × (released.0 ≡ true)
      × (released.1.lock ≡ none)
      × (released.1.halt ≡ held.halt)
unfolding acquire_lock acquire_read renew_lock release_lock read_lock ours refreshed
acquire-renew-release c alive fs now a = (ground arith, ground arith, ground arith, ground arith)
