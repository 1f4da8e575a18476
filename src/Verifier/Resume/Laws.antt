-- ===== src/Verifier/Resume/Laws.antt =====
-- Where a resumed verification leaves its row, and which rows it takes.
use mathlib.Core.Path.{subst}
use j.Prelude.{
  All, Option-cases, Result-cases, ◌≡◌, Bool, true, false, Bool-cases, inl, inr, Text, List, [],
  ◌∷◌, Option, some, ok, is_empty, text_eq, if◌then◌else◌,
}
use j.Tasks.Status.{verifying, help, needs_clarification}
use j.Tasks.Row.{Task}
use j.Tasks.Wire.{Toml}
use j.Tasks.Store.{Faults, Store}
use j.Tasks.Transit.{World}
use j.Lifecycle.{Env, Lifecycle}
use j.Lifecycle.Verify
use j.Lifecycle.Verify.Laws.{verdict_status}
use j.Lifecycle.Stored.{IsStored}
use j.Resolver.{Picked, picked, left, broken, PickTask, task_by_id, list_resolvable_tasks}
use j.Verifier.Resume.{
  ResumeOptions, resume_outcome, resumable, row_named, from_answer, from_resumable, from_list,
  has_session, from_id, resolve_resume_task,
}

-- A row with a session of the verifier.
abbrev pub HasSession : Task → Type 0
HasSession t = is_empty t.verify_resume_session ≡ false

resumable-HasSession : (ts : List Task) → All HasSession (resumable ts)
unfolding resumable
resumable-HasSession [] = tt
resumable-HasSession (t ∷ ts) = elim (Bool-cases (is_empty t.verify_resume_session)) [
  | inl without ↦ rw without (resumable-HasSession ts)
  | inr recorded ↦ rw recorded (recorded, resumable-HasSession ts)
]

row_named-HasSession :
    (id : Text) (ts : List Task) (t : Task)
    → All HasSession ts
    → row_named id ts ≡ some t
    → HasSession t
unfolding row_named
row_named-HasSession id [] t h e = absurd (cc)
row_named-HasSession id (u ∷ ts) t h e = elim (Bool-cases (text_eq u.id id)) [
  | inl this ↦ let same : u ≡ t = cc (rw this at e) in subst HasSession same h.0
  | inr other ↦ row_named-HasSession id ts t h.1 (rw other at e)
]

from_answer-HasSession :
    (ts : List Task) (answer : Picked) (t : Task)
    → All HasSession ts
    → from_answer ts answer ≡ ok (some t)
    → HasSession t
unfolding from_answer
from_answer-HasSession ts (picked id) t h e = elim (Option-cases (row_named id ts)) [
  | inl missing ↦ absurd (cc (rw missing at e))
  | inr (u, there) ↦
      let same : u ≡ t = cc (rw there at e) in
      subst HasSession same (row_named-HasSession id ts u h there)
]
from_answer-HasSession ts left t h e = absurd (cc)
from_answer-HasSession ts broken t h e = absurd (cc)

from_resumable-HasSession :
    (pick : PickTask) (ts : List Task) (t : Task)
    → All HasSession ts
    → from_resumable pick ts ≡ ok (some t)
    → HasSession t
unfolding from_resumable
from_resumable-HasSession pick [] t h e = absurd (cc)
from_resumable-HasSession pick (u ∷ []) t h e = let same : u ≡ t = cc in subst HasSession same h.0
from_resumable-HasSession pick (u ∷ v ∷ ts) t h e =
    from_answer-HasSession (u ∷ v ∷ ts) (pick _ (u ∷ v ∷ ts)) t h e

module _ (toml : Toml) where
  open toml use {Bytes}

  -- A row that is taken up again has a session, however it was chosen.
  resolve_resume_task-HasSession :
      (w : Faults) (opts : ResumeOptions) (s : Store Bytes) (t : Task)
      → resolve_resume_task toml w opts s ≡ ok (some t)
      → HasSession t
  unfolding resolve_resume_task from_id has_session from_list
  resolve_resume_task-HasSession w opts s t e = elim (Bool-cases (is_empty opts.task_id)) [
    | inl unnamed ↦ elim (Result-cases (list_resolvable_tasks toml w s)) [
      | inl (rows, found) ↦
          from_resumable-HasSession opts.pick (resumable rows) t (resumable-HasSession rows)
            (rw (unnamed, found) at e)
      | inr (x, fails) ↦ absurd (cc (rw (unnamed, fails) at e))
    ]
    | inr named ↦ elim (Result-cases (task_by_id toml opts.task_id s)) [
      | inr (x, fails) ↦ absurd (cc (rw (named, fails) at e))
      | inl (u, found) ↦ elim (Bool-cases (is_empty u.verify_resume_session)) [
        | inl without ↦ absurd (cc (rw (named, found, without) at e))
        | inr recorded ↦
            let same : u ≡ t = cc (rw (named, found, recorded) at e) in
            subst HasSession same recorded
      ]
    ]
  ]

module _ (toml : Toml) {O : Type 0} where
  open toml use {Bytes}

  record AtVerify (begun : Lifecycle × World Bytes O) : Type 0 where
    pub at : begun.0.task.status ≡ verifying
    pub is_open : begun.0.closed ≡ false

  -- The end of a resumed verification.
  pub record VerifySettled (env : Env O) (findings : Option Text)
      (ran : Option (Bool × Lifecycle × World Bytes O)) : Type 0 where
    pub failed : Bool
    pub lifecycle : Lifecycle
    pub world : World Bytes O
    pub returned : ran ≡ some (failed, lifecycle, world)
    pub status : lifecycle.task.status ≡ (
        if failed
        then help
        else if env.clarification
        then needs_clarification
        else verdict_status (resume_outcome failed findings))
    pub closed : lifecycle.closed ≡ true
    pub stored : IsStored toml lifecycle.task world
