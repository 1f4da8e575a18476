-- ===== src/Tasks/Lock/Laws.antt =====
-- Single calls on a task's lock.
use j.Prelude.{
  ap, ◌∙◌, ℕ, ◌≡◌, ◌⊎◌, inl, inr, refl, Bool, false, Bool-cases, Text, Option, none, some,
  Option-cases, ok, err, arith,
}
use j.Tasks.Lock.{
  Caller, LockFile, Lock, Write, LockFaults, AcquireError, dir_failed, open_failed, locked,
  read_holder, write_holder, acquire_lock, acquire_at, update_phase, release, try_acquire_for_reap,
}

-- A second Release changes nothing and reports no error, and neither does UpdatePhase on a lock
-- that has been released.
release_twice :
    (close_fails again : Bool) (l : Lock) (file : Option LockFile) (phase : Text) (w : Write)
    → let (e, l', file') = release close_fails l file in
      (release again l' file' ≡ (false, l', file'))
      × (update_phase phase w l' file' ≡ (false, l', file'))
unfolding release update_phase
release_twice c c' l file phase w = ground arith

-- A reaper's probe that gets the lock and gives it back leaves the file as it was, the holder's
-- text included. It gets the lock only if the file is there and no open file holds it.
pub probe_is_harmless :
    (w : LockFaults) (fd : ℕ) (close_fails : Bool) (file : Option LockFile) (l : Lock)
    → (try_acquire_for_reap w fd file).0 ≡ ok (some l)
    → let after = (try_acquire_for_reap w fd file).1 in
      ((release close_fails l after).2 ≡ file)
      × ((f : LockFile) × (file ≡ some f) × (f.owner ≡ none) × (l.holder ≡ read_holder f))
unfolding try_acquire_for_reap release
probe_is_harmless w fd c none l h = absurd (ground arith)
probe_is_harmless w fd c (some f) l h = ground arith

-- A lock that another open file holds is not acquired, and the file stays as it is.
pub held_is_refused :
    (c : Caller) (w : LockFaults) (fd : ℕ) (f : LockFile) (owner : ℕ)
    → f.owner ≡ some owner
    → (e : AcquireError) × (acquire_lock c w fd (some f) ≡ (err e, some f))
unfolding acquire_lock acquire_at
held_is_refused c w fd f owner held = elim (Option-cases w.dir) [
  | inr (e, there) ↦ (dir_failed e, rw there refl)
  | inl fine ↦ elim (Bool-cases w.opening) [
    | inl fails ↦ (open_failed, rw (fine, fails) refl)
    | inr opens ↦ (locked (read_holder f), ground (arith, fine, opens, held))
  ]
]

-- A free lock is acquired by the file that is opened, or the attempt fails and changes nothing.
pub free_is_acquired :
    (c : Caller) (w : LockFaults) (fd : ℕ) (f : LockFile)
    → f.owner ≡ none
    → ((e : AcquireError) × (acquire_lock c w fd (some f) ≡ (err e, some f)))
      ⊎ ((l : Lock) × (g : LockFile) × (acquire_lock c w fd (some f) ≡ (ok l, some g))
          × (l.fd ≡ some fd)
          × (g.owner ≡ some fd))
unfolding acquire_lock acquire_at write_holder
free_is_acquired c w fd f free = elim (Option-cases w.dir) [
  | inr (e, there) ↦ inl (dir_failed e, rw there refl)
  | inl fine ↦ elim (Bool-cases w.opening) [
    | inl fails ↦ inl (open_failed, rw (fine, fails) refl)
    | inr opens ↦ elim (Bool-cases w.flock) [
      | inl fails ↦ inl (locked (read_holder f), ground (arith, fine, opens, fails, free))
      | inr gets ↦ inr (
        record { fd = some fd; holder = c },
        write_holder w.write c (record f { owner = some fd }),
        ground (arith, fine, opens, gets, free),
        refl,
        ground arith,
      )
    ]
  ]
]

-- Releasing the lock that the open file holds frees it.
pub release_frees :
    (close_fails : Bool) (l : Lock) (g : LockFile) (fd : ℕ)
    → l.fd ≡ some fd
    → g.owner ≡ some fd
    → (release close_fails l (some g)).2 ≡ some (record g { owner = none })
unfolding release
release_frees close_fails l g fd mine its = ground arith

-- The file is there, and no open file has its lock.
abbrev pub IsLeftFree : Option LockFile → Type 0
IsLeftFree file = (f : LockFile) × (file ≡ some f) × (f.owner ≡ none)

-- The lock that a call has got: it is open under the number `fd`, which owns the file.
abbrev pub IsOurs : ℕ → Lock → Option LockFile → Type 0
IsOurs fd l file = (l.fd ≡ some fd) × ((f : LockFile) × (file ≡ some f) × (f.owner ≡ some fd))

pub acquired-IsOurs :
    (c : Caller) (w : LockFaults) (fd : ℕ) (file file' : Option LockFile) (l : Lock)
    → acquire_lock c w fd file ≡ (ok l, file')
    → IsOurs fd l file'
unfolding acquire_lock write_holder
acquired-IsOurs c w fd file file' l h = ground arith

pub probed-IsOurs :
    (w : LockFaults) (fd : ℕ) (file file' : Option LockFile) (l : Lock)
    → try_acquire_for_reap w fd file ≡ (ok (some l), file')
    → IsOurs fd l file'
unfolding try_acquire_for_reap
probed-IsOurs w fd file file' l h = ground arith

-- Given back, it leaves the file free.
pub ours_is_freed :
    (close_fails : Bool) (fd : ℕ) (l : Lock) (file : Option LockFile)
    → IsOurs fd l file
    → IsLeftFree (release close_fails l file).2
ours_is_freed c fd l file (o, (f, is, owner)) = (
  record f { owner = none },
  ap (λ x. (release c l x).2) is ∙ release_frees c l f fd o owner,
  refl,
)
