-- ===== src/Examples/OfLocks.antt =====
-- The theorems on a task's lock at concrete inputs: one process acquires and sets its phase.
use j.Prelude.{ℕ, ◌≡◌, refl, false, Text, codes, Option, none, some}
use j.Tasks.Lock.{
  Holder, LockFile, Lock, LockFaults, written, acquire_lock, update_phase, write_holder,
}
use j.Tasks.Lock.Traces.{
  Sys, Step, Steps, start, then_step, acquired, phase_updated, with_lock, mutual_exclusion,
}

abbrev pub holder : Text → Holder
holder phase = record { pid = 7; host = codes "h"; phase = phase; started_at = 20 }

abbrev pub sound : LockFaults
sound = record { dir = none; stat = false; opening = false; flock = false; write = written }

abbrev idle : Sys
idle = record { file = none; locks = λ fd. none }

abbrev lock_in : Text → Lock
lock_in phase = record { fd = some 4; holder = holder phase }

abbrev file_in : Text → Option LockFile
file_in phase = some (record { meta = some (holder phase); owner = some 4 })

abbrev held : Sys
held = record {
  file = file_in (codes "planning");
  locks = with_lock 4 (lock_in (codes "planning")) idle.locks;
}

abbrev moved_on : Sys
moved_on = record {
  file = file_in (codes "working");
  locks = with_lock 4 (lock_in (codes "working")) held.locks;
}

first_step : Step idle held
unfolding acquire_lock write_holder
first_step =
    acquired (holder (codes "planning")) sound 4 (lock_in (codes "planning"))
      (file_in (codes "planning")) refl refl refl

second_step : Step held moved_on
unfolding update_phase write_holder
second_step =
    phase_updated (codes "working") 4 (lock_in (codes "planning")) (lock_in (codes "working")) false
      (file_in (codes "working")) refl refl

abbrev trace : Steps idle moved_on
trace = then_step (then_step start first_step) second_step

abbrev four : ℕ
four = 4

mutual_exclusion_example : (four ≡ four) × (lock_in (codes "working") ≡ lock_in (codes "working"))
mutual_exclusion_example =
    mutual_exclusion idle moved_on (λ fd. refl) trace 4 4 (lock_in (codes "working"))
      (lock_in (codes "working")) 4 4 refl refl refl refl

abbrev pub free_file : LockFile
free_file = record { meta = some (holder (codes "working")); owner = none }

abbrev pub probe_lock : Lock
probe_lock = record { fd = some 6; holder = holder (codes "working") }
