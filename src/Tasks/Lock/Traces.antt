-- ===== src/Tasks/Lock/Traces.antt =====
-- Interleaved calls of any number of processes on one task's lock.
use mathlib.Core.Path.{subst}
use j.Prelude.{
  ℕ, ◌≡◌, ◌≢◌, ◌⊎◌, inl, inr, refl, ◌∙◌, sym, ap, Bool, true, false, Text, Option, none, some, ok,
  err, arith, ◌==◌, if◌then◌else◌, Option-cases, ==_iff,
}
use j.Tasks.Lock.{
  LockFile, Lock, AcquireError, written, LockFaults, Caller, read_holder, acquire_lock,
  update_phase, release, try_acquire_for_reap,
}

-- The lock file, and the lock that each open file stands for, by its number.
pub record Sys : Type 0 where
  pub file : Option LockFile
  pub locks : ℕ → Option Lock

abbrev pub is_open : Option Lock → Bool
is_open none = false
is_open (some l) = elim l.fd [ none ↦ false | some fd ↦ true ]

abbrev pub with_lock : ℕ → Lock → (ℕ → Option Lock) → ℕ → Option Lock
with_lock fd l locks k = if k == fd then some l else locks k

-- One call by some process. An open gets a number that stands for no open file. A process that
-- dies releases: the kernel closes its files.
pub data Step (s : Sys) : Sys → Type 0 where
  acquired :
      (c : Caller) (w : LockFaults) (fd : ℕ) (l : Lock) (file : Option LockFile)
      → is_open (s.locks fd) ≡ false
      → w.write ≡ written
      → acquire_lock c w fd s.file ≡ (ok l, file)
      → Step s (record { file = file; locks = with_lock fd l s.locks })
  not_acquired :
      (c : Caller) (w : LockFaults) (fd : ℕ) (e : AcquireError) (file : Option LockFile)
      → acquire_lock c w fd s.file ≡ (err e, file)
      → Step s (record s { file = file })
  probed :
      (w : LockFaults) (fd : ℕ) (l : Lock) (file : Option LockFile)
      → is_open (s.locks fd) ≡ false
      → try_acquire_for_reap w fd s.file ≡ (ok (some l), file)
      → Step s (record { file = file; locks = with_lock fd l s.locks })
  phase_updated :
      (phase : Text) (fd : ℕ) (l l' : Lock) (e : Bool) (file : Option LockFile)
      → s.locks fd ≡ some l
      → update_phase phase written l s.file ≡ (e, l', file)
      → Step s (record { file = file; locks = with_lock fd l' s.locks })
  released :
      (close_fails : Bool) (fd : ℕ) (l l' : Lock) (e : Bool) (file : Option LockFile)
      → s.locks fd ≡ some l
      → release close_fails l s.file ≡ (e, l', file)
      → Step s (record { file = file; locks = with_lock fd l' s.locks })

pub data Steps (s : Sys) : Sys → Type 0 where
  start : Steps s s
  then_step : {t u : Sys} → Steps s t → Step t u → Steps s u

-- An open lock is the kernel's owner of the file, under its own number, and the holder that the
-- file's text names is the lock's.
abbrev Owns : Option LockFile → ℕ → Lock → ℕ → Type 0
Owns file fd l n =
    (n ≡ fd) × ((f : LockFile) × (file ≡ some f) × (f.owner ≡ some fd) × (read_holder f ≡ l.holder))

pub record IsExclusive (s : Sys) : Type 0 where
  pub owned : (fd : ℕ) (l : Lock) (n : ℕ) → s.locks fd ≡ some l → l.fd ≡ some n → Owns s.file fd l n

abbrev IsFree : Option LockFile → Type 0
IsFree file = (f : LockFile) → file ≡ some f → f.owner ≡ none

acquired_lem :
    (c : Caller) (w : LockFaults) (fd : ℕ) (l : Lock) (file file' : Option LockFile)
    → w.write ≡ written
    → acquire_lock c w fd file ≡ (ok l, file')
    → (l.fd ≡ some fd) × Owns file' fd l fd × IsFree file
unfolding acquire_lock read_holder
acquired_lem c w fd l file file' h e = ground arith

not_acquired_lem :
    (c : Caller) (w : LockFaults) (fd : ℕ) (x : AcquireError) (f : LockFile)
    (file' : Option LockFile)
    → acquire_lock c w fd (some f) ≡ (err x, file')
    → file' ≡ some f
unfolding acquire_lock
not_acquired_lem c w fd x f file' e = ground arith

probed_lem :
    (w : LockFaults) (fd : ℕ) (l : Lock) (file file' : Option LockFile)
    → try_acquire_for_reap w fd file ≡ (ok (some l), file')
    → (l.fd ≡ some fd) × Owns file' fd l fd × IsFree file
unfolding try_acquire_for_reap read_holder
probed_lem w fd l file file' e = ground arith

updated_lem :
    (phase : Text) (fd n : ℕ) (l l' : Lock) (e : Bool) (file file' : Option LockFile)
    → (l.fd ≡ some n → Owns file fd l n)
    → update_phase phase written l file ≡ (e, l', file')
    → l'.fd ≡ some n
    → Owns file' fd l' n
unfolding update_phase read_holder
updated_lem phase fd n l l' e file file' o h q = ground arith

updated_closed :
    (phase : Text) (l l' : Lock) (e : Bool) (file file' : Option LockFile)
    → update_phase phase written l file ≡ (e, l', file')
    → l.fd ≡ none
    → file' ≡ file
unfolding update_phase
updated_closed phase l l' e file file' h c = ground arith

released_lem :
    (close_fails : Bool) (l l' : Lock) (e : Bool) (file file' : Option LockFile)
    → release close_fails l file ≡ (e, l', file')
    → (l'.fd ≡ none) × (l.fd ≡ none → file' ≡ file)
unfolding release
released_lem c l l' e file file' h = ground arith

picked :
    (b : Bool) (l m : Lock) (o : Option Lock)
    → (if b then some l else o) ≡ some m
    → ((b ≡ true) × (l ≡ m)) ⊎ ((b ≡ false) × (o ≡ some m))
picked true l m o h = inl (refl, cc)
picked false l m o h = inr (refl, h)

-- Writing one lock and the file keeps the invariant if the lock and all others own the file as
-- far as they are open.
put-IsExclusive :
    (s : Sys) (file : Option LockFile) (fd : ℕ) (l : Lock)
    → ((n : ℕ) → l.fd ≡ some n → Owns file fd l n)
    → ((k : ℕ) (m : Lock) (n : ℕ) → k ≢ fd → s.locks k ≡ some m → m.fd ≡ some n → Owns file k m n)
    → IsExclusive (record { file = file; locks = with_lock fd l s.locks })
put-IsExclusive s file fd l mine others = record {
  owned = λ k m n at o. elim (picked (k == fd) l m (s.locks k) at) [
    | inl (b, q) ↦
        subst (λ j. Owns file j m n) (sym ((==_iff k fd).0 b))
          (subst (λ x. Owns file fd x n) q (mine n (ap (λ (x : Lock). x.fd) q ∙ o)))
    | inr (b, at') ↦ others k m n (λ e. let t = (==_iff k fd).1 e in cc) at' o
  ];
}

-- A free file has no open lock.
free_means :
    (s : Sys)
    → IsExclusive s
    → IsFree s.file
    → (k : ℕ) (m : Lock) (n : ℕ) → s.locks k ≡ some m
    → m.fd ≡ some n
    → ⊥
free_means s inv free k m n at o =
    let (q, (f, is, owner, holder)) = inv.owned k m n at o in let none_owns = free f is in cc

any_number :
    (file : Option LockFile) (fd : ℕ) (l : Lock)
    → l.fd ≡ some fd
    → Owns file fd l fd
    → (n : ℕ) → l.fd ≡ some n
    → Owns file fd l n
any_number file fd l o own n q = (ground (arith, o, q), own.1)

one_owner :
    (file : Option LockFile) (j k : ℕ) (l m : Lock) (i n : ℕ)
    → Owns file j l i
    → Owns file k m n
    → k ≡ j
one_owner file j k l m i n (p, (f, is, owner, h)) (q, (g, is', owner', h')) = cc

-- A call on the lock `fd` that leaves the file alone if that lock is closed cannot hurt another.
others_keep :
    (s : Sys)
    → IsExclusive s
    → (fd : ℕ) (l : Lock) (file : Option LockFile) → s.locks fd ≡ some l
    → (l.fd ≡ none → file ≡ s.file)
    → (k : ℕ) (m : Lock) (n : ℕ) → k ≢ fd
    → s.locks k ≡ some m
    → m.fd ≡ some n
    → Owns file k m n
others_keep s inv fd l file at same k m n d at' o = elim (Option-cases l.fd) [
  | inl c ↦ subst (λ x. Owns x k m n) (sym (same c)) (inv.owned k m n at' o)
  | inr (i, q) ↦
      absurd (d (one_owner s.file fd k l m i n (inv.owned fd l i at q) (inv.owned k m n at' o)))
]

step-IsExclusive : (s t : Sys) → Step s t → IsExclusive s → IsExclusive t
step-IsExclusive s _ (acquired c w fd l file shut ok_write e) inv =
    let (o, mine, free) = acquired_lem c w fd l s.file file ok_write e in
    put-IsExclusive s file fd l (any_number file fd l o mine)
      (λ k m n d at o'. absurd (free_means s inv free k m n at o'))
step-IsExclusive s _ (not_acquired c w fd x file e) inv = record {
  owned = λ k m n at o.
      let own = inv.owned k m n at o in
      let (q, (f, is, owner, holder)) = own in
      subst (λ x. Owns x k m n) (is ∙ sym (not_acquired_lem c w fd x f file (rw is at e))) own;
}
step-IsExclusive s _ (probed w fd l file shut e) inv =
    let (o, mine, free) = probed_lem w fd l s.file file e in
    put-IsExclusive s file fd l (any_number file fd l o mine)
      (λ k m n d at o'. absurd (free_means s inv free k m n at o'))
step-IsExclusive s _ (phase_updated phase fd l l' e file at h) inv =
    put-IsExclusive s file fd l'
      (λ n q. updated_lem phase fd n l l' e s.file file (λ o. inv.owned fd l n at o) h q)
      (others_keep s inv fd l file at (updated_closed phase l l' e s.file file h))
step-IsExclusive s _ (released close_fails fd l l' e file at h) inv =
    let (shut, same) = released_lem close_fails l l' e s.file file h in
    put-IsExclusive s file fd l' (λ n q. absurd (ground (arith, shut, q)))
      (others_keep s inv fd l file at same)

steps-IsExclusive : (s t : Sys) → Steps s t → IsExclusive s → IsExclusive t
steps-IsExclusive s _ start inv = inv
steps-IsExclusive s _ (then_step {t} {u} run one) inv =
    step-IsExclusive t u one (steps-IsExclusive s t run inv)

-- No lock is open, as before the first call.
abbrev pub IsIdle : Sys → Type 0
IsIdle s = (fd : ℕ) → s.locks fd ≡ none

idle-IsExclusive : (s : Sys) → IsIdle s → IsExclusive s
idle-IsExclusive s idle = record { owned = λ fd l n at o. let none_there = idle fd in absurd (cc) }

-- From a state in which no lock is open, however the calls of the processes interleave, if no write
-- of a holder fails, at most one lock is open at a time: two that are open are the same.
pub mutual_exclusion :
    (s t : Sys)
    → IsIdle s
    → Steps s t
    → (j k : ℕ) (l m : Lock) (i n : ℕ) → t.locks j ≡ some l
    → l.fd ≡ some i
    → t.locks k ≡ some m
    → m.fd ≡ some n
    → (k ≡ j) × (m ≡ l)
mutual_exclusion s t idle run j k l m i n at o at' o' =
    let inv = steps-IsExclusive s t run (idle-IsExclusive s idle) in
    let same = one_owner t.file j k l m i n (inv.owned j l i at o) (inv.owned k m n at' o') in
    (same, cc)
