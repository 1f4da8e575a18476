-- ===== src/Tasks/Lock.antt =====
-- lock.go: the advisory `flock` on a task's .lock file. One open file holds the kernel's lock at a
-- time; the text of the file only tells who that is. What the operating system refuses on a call
-- is the argument `LockFaults`.

pub mod Traces
pub mod Laws
use j.Prelude.{
  ℕ, Bool, true, false, Text, [], Option, none, some, Result, ok, err, ◌==◌, if◌then◌else◌, ltb,
}
use j.Tasks.Row.{Time}
use j.Tasks.Store.{StoreError}

pub record Holder : Type 0 where
  pub pid : ℕ
  pub host : Text
  pub phase : Text
  pub started_at : Time

abbrev pub zero_holder : Holder
zero_holder = record { pid = 0; host = []; phase = []; started_at = 0 }

-- The .lock file: the holder that its text decodes to, `none` for an empty or a malformed text,
-- and the open file that has the kernel's lock.
pub record LockFile : Type 0 where
  pub meta : Option Holder
  pub owner : Option ℕ

-- Lock: `fd` is `none` once released.
pub record Lock : Type 0 where
  pub fd : Option ℕ
  pub holder : Holder

pub data AcquireError : Type 0 where
  dir_failed : StoreError → AcquireError
  open_failed stat_failed : AcquireError
  locked : Holder → AcquireError  -- *LockedError

-- What a write of the holder comes to: refused at the opening it leaves the text, and broken off
-- behind the truncation it leaves no holder.
pub data Write : Type 0 where
  written refused torn : Write

-- `dir` is the error of EnsureDir, if there is one. `flock` tells of a failure other than the lock
-- being held.
pub record LockFaults : Type 0 where
  pub dir : Option StoreError
  pub stat : Bool
  pub opening : Bool
  pub flock : Bool
  pub write : Write

-- What AcquireLock reads from the process: its pid, host, phase tag and clock.
abbrev pub Caller : Type 0
Caller = Holder

or_zero : Option Holder → Holder
or_zero none = zero_holder
or_zero (some h) = h

unfoldable pub read_holder : LockFile → Holder
unfolding or_zero
read_holder f = or_zero f.meta

unfoldable pub write_holder : Write → Holder → LockFile → LockFile
write_holder written h f = record f { meta = some h }
write_holder refused h f = f
write_holder torn h f = record f { meta = none }

-- os.OpenFile with O_CREATE.
abbrev created : Option LockFile → LockFile
created none = record { meta = none; owner = none }
created (some f) = f

-- syscall.Flock with LOCK_EX and LOCK_NB, which fails where an open file has the lock.
abbrev flock_fails : LockFaults → LockFile → Bool
flock_fails w f = elim f.owner [ none ↦ w.flock | some o ↦ true ]

acquire_at : Caller → LockFaults → ℕ → LockFile → Result AcquireError Lock × Option LockFile
unfolding read_holder write_holder
acquire_at c w fd f = if flock_fails w f then (err (locked (read_holder f)), some f) else (
  ok (record { fd = some fd; holder = c }),
  some (write_holder w.write c (record f { owner = some fd })),
)

-- AcquireLock, where `fd` is the number of the file that it opens.
unfoldable pub acquire_lock :
    Caller → LockFaults → ℕ → Option LockFile → Result AcquireError Lock × Option LockFile
unfolding acquire_at
acquire_lock c w fd file = elim w.dir [
  | some e ↦ (err (dir_failed e), file)
  | none ↦ if w.opening then (err open_failed, file) else acquire_at c w fd (created file)
]

-- Whether it fails, the lock, and the file.
unfoldable pub update_phase : Text → Write → Lock → Option LockFile → Bool × Lock × Option LockFile
unfolding write_holder
update_phase phase w l file = elim l.fd [
  | none ↦ (false, l, file)
  | some fd ↦
      let h = record l.holder { phase = phase } in
      (
        elim w [ written ↦ false | _ ↦ true ],
        record l { holder = h },
        some (write_holder w h (created file)),
      )
]

unlocked : ℕ → LockFile → LockFile
unlocked fd f = elim f.owner [
  | none ↦ f
  | some o ↦ if o == fd then record f { owner = none } else f
]

-- Release: LOCK_UN, then the close, whose failure is returned.
unfoldable pub release : Bool → Lock → Option LockFile → Bool × Lock × Option LockFile
unfolding unlocked
release close_fails l file = elim l.fd [
  | none ↦ (false, l, file)
  | some fd ↦ (
    close_fails,
    record l { fd = none },
    elim file [ none ↦ none | some f ↦ some (unlocked fd f) ],
  )
]

probe_at : LockFaults → ℕ → LockFile → Result AcquireError (Option Lock) × Option LockFile
unfolding read_holder
probe_at w fd f = if flock_fails w f then (ok none, some f) else (
  ok (some (record { fd = some fd; holder = read_holder f })),
  some (record f { owner = some fd }),
)

-- TryAcquireForReap: `ok none` where there is no lock file, or the lock is held.
unfoldable pub try_acquire_for_reap :
    LockFaults → ℕ → Option LockFile → Result AcquireError (Option Lock) × Option LockFile
unfolding probe_at
try_acquire_for_reap w fd file = elim w.dir [
  | some e ↦ (err (dir_failed e), file)
  | none ↦ if w.stat then (err stat_failed, file) else elim file [
    | none ↦ (ok none, none)
    | some f ↦ if w.opening then (err open_failed, some f) else probe_at w fd f
  ]
]
