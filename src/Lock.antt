-- ===== src/Lock.antt =====
-- src/lock.py: the whole-initiative lock in the files `.aieos/lock` and `.aieos/halt`. A file that
-- is absent is `none`, a lock file holds a well-formed record. The clock counts microseconds; a
-- timestamp in a record is in seconds, as the format of `_fmt` has it.
pub mod Sessions
pub mod Takeover
pub mod Race
mod Tests
use aieos_agent_harness.Base.{
  ℕ, ◌+◌, ◌*◌, ◌/◌, String, Bool, true, false, not, ◌&&◌, ◌||◌, Option, none, some, List, [], ◌∷◌,
  ◌==◌, string_eq, ltb, if◌then◌else◌,
}
use aieos_agent_harness.Base.Lists.{contains}

pub record LockInfo : Type 0 where
  pub owner : String
  pub driver : String
  pub session_id : String
  pub hostname : String
  pub pid : ℕ
  pub acquired_at : ℕ
  pub renewed_at : ℕ
  pub initiative : String
  pub lease_ttl_seconds : ℕ
  pub heartbeat_interval_seconds : ℕ
  pub lock_version : String

pub record LockResult : Type 0 where
  pub acquired : Bool
  pub took_over : Bool
  pub info : Option LockInfo
  pub previous : Option LockInfo

-- The sentinel's payload; `reason` is always "stale_lock_takeover".
pub record Halt : Type 0 where
  pub at : ℕ
  pub taken_from : LockInfo
  pub taken_by : LockInfo

-- The two files of one initiative.
pub record Files : Type 0 where
  pub lock : Option LockInfo
  pub halt : Option Halt

abbrev pub valid_drivers : List String
valid_drivers = "console" ∷ "dark-factory" ∷ "sherpa" ∷ []

abbrev pub second : ℕ
second = 1000000

-- `_fmt` drops the fraction of a second.
unfoldable pub fmt : ℕ → ℕ
fmt now = now / second

-- What `os.kill(pid, 0)` does on POSIX.
pub data Signal : Type 0 where
  delivered no_such_process not_permitted other_error : Signal

-- `_pid_alive`, with the operating system as a parameter.
unfoldable pub pid_alive : (ℕ → Signal) → ℕ → Bool
pid_alive kill pid =
    if ltb 0 pid
    then elim (kill pid) [
      | delivered ↦ true
      | no_such_process ↦ false
      | not_permitted ↦ true
      | other_error ↦ false
    ]
    else false

-- `now - renewed_at > lease_ttl`, with the subtraction on the other side.
unfoldable pub expired : LockInfo → ℕ → Bool
expired info now = ltb ((info.renewed_at + info.lease_ttl_seconds) * second) now

unfoldable pub is_takeable : LockInfo → (now : ℕ) → (hostname : String) → (ℕ → Bool) → Bool
unfolding expired
is_takeable info now hostname alive =
    if expired info now then true else info.hostname == hostname && not (alive info.pid)

-- The arguments of `acquire_lock`. `fresh` is the identifier that `uuid4` would give.
pub record Claim : Type 0 where
  pub owner : String
  pub driver : String
  pub session : Option String
  pub fresh : String
  pub initiative : String
  pub ttl : ℕ
  pub heartbeat : ℕ
  pub now : ℕ
  pub hostname : String
  pub pid : ℕ

-- `session_id or uuid.uuid4().hex`
unfoldable pub sid : Claim → String
sid c = elim c.session [ none ↦ c.fresh | some s ↦ if s == "" then c.fresh else s ]

unfoldable pub read_lock : Files → Option LockInfo
read_lock fs = fs.lock

unfoldable pub ours : Claim → LockInfo
unfolding sid fmt
ours c = record {
  owner = c.owner;
  driver = c.driver;
  session_id = sid c;
  hostname = c.hostname;
  pid = c.pid;
  acquired_at = fmt c.now;
  renewed_at = fmt c.now;
  initiative = c.initiative;
  lease_ttl_seconds = c.ttl;
  heartbeat_interval_seconds = c.heartbeat;
  lock_version = "1.0";
}

unfoldable pub refreshed : LockInfo → ℕ → LockInfo
unfolding fmt
refreshed info now = record info { renewed_at = fmt now }

-- `acquire_lock` after `existing = read_lock(...)`: what it writes, given what it has read. The
-- files may have changed since that read.
unfoldable pub acquire_read : Claim → (ℕ → Bool) → Option LockInfo → Files → LockResult × Files
acquire_read c alive none fs = (
  record { acquired = true; took_over = false; info = some (ours c); previous = none },
  record fs { lock = some (ours c) },
)
acquire_read c alive (some existing) fs =
    if existing.session_id == sid c
    then (
      record {
        acquired = true;
        took_over = false;
        info = some (refreshed existing c.now);
        previous = none;
      },
      record fs { lock = some (refreshed existing c.now) },
    )
    else if is_takeable existing c.now c.hostname alive
    then (
      record { acquired = true; took_over = true; info = some (ours c); previous = some existing },
      record {
        lock = some (ours c);
        halt = some (record { at = fmt c.now; taken_from = existing; taken_by = ours c });
      },
    )
    else (record { acquired = false; took_over = false; info = some existing; previous = none }, fs)

-- `acquire_lock`; `none` is the `ValueError` for an unknown driver.
unfoldable pub acquire_lock : Claim → (ℕ → Bool) → Files → Option LockResult × Files
acquire_lock c alive fs =
    if contains valid_drivers c.driver
    then (let (r, fs') = acquire_read c alive (read_lock fs) fs in (some r, fs'))
    else (none, fs)

unfoldable pub renew_lock : String → ℕ → Files → Bool × Files
renew_lock session now fs = elim fs.lock [
  | none ↦ (false, fs)
  | some existing ↦
      if existing.session_id == session
      then (true, record fs { lock = some (refreshed existing now) })
      else (false, fs)
]

unfoldable pub release_lock : String → Files → Bool × Files
release_lock session fs = elim fs.lock [
  | none ↦ (false, fs)
  | some existing ↦
      if existing.session_id == session then (true, record fs { lock = none }) else (false, fs)
]
