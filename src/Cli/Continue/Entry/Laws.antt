-- ===== src/Cli/Continue/Entry/Laws.antt =====
-- The row that a call of `j tasks continue` acts on.
use j.Prelude.{
  ◌≡◌, refl, ◌⊎◌, inl, inr, Text, Option, none, some, Result, ok, err, true, false, Bool-cases,
  is_empty, arith,
}
use j.Tasks.Row.{Task}
use j.Tasks.Wire.{Toml}
use j.Tasks.Store.{StoreError, get_task}
use j.Tasks.Transit.{World}
use j.Cli.Pick.{PickError, pick_from_store}
use j.Cli.Continue.{ContinueEnv, Dispatch, dispatch_by_status}
use j.Cli.Continue.Laws.{is_parked, launches, parked_rows_stay}
use j.Cli.Continue.Entry.{
  Missed, ContinueOptions, Chosen, of_named, of_picked, read_picked,
  resolve_continue_task_from_store, on_chosen, run_continue,
}

named_means : (r : Result StoreError Task) (t : Task) → of_named r ≡ ok t → r ≡ ok t
unfolding of_named
named_means r t h = ground arith

module _ (toml : Toml) {O : Type 0} where
  open toml use {Bytes}

  -- The id is the one that is named, or the one that is picked.
  abbrev pub IsChosen : ContinueEnv O → ContinueOptions → World Bytes O → Text → Type 0
  IsChosen env opts world id =
      ((is_empty opts.task_id ≡ false) × (id ≡ opts.task_id))
      ⊎ ((is_empty opts.task_id ≡ true)
          × (pick_from_store toml env.faults opts.pick world.store ≡ ok (some id)))

  picked_means :
      (world : World Bytes O) (t : Task) (r : Result PickError (Option Text))
      → read_picked toml world r ≡ ok t
      → (id : Text) × (r ≡ ok (some id)) × (get_task toml id world.store ≡ ok t)
  unfolding read_picked of_picked
  picked_means world t (err e) h = absurd (ground arith)
  picked_means world t (ok none) h = absurd (ground arith)
  picked_means world t (ok (some id)) h = (id, refl, ground arith)

  resolved_means :
      (env : ContinueEnv O) (opts : ContinueOptions) (world : World Bytes O) (t : Task)
      → resolve_continue_task_from_store toml env opts world ≡ ok t
      → (id : Text) × IsChosen env opts world id × (get_task toml id world.store ≡ ok t)
  unfolding resolve_continue_task_from_store
  resolved_means env opts world t h = elim (Bool-cases (is_empty opts.task_id)) [
    | inl unnamed ↦
        let (id, p, q) =
          picked_means world t (pick_from_store toml env.faults opts.pick world.store)
            (rw unnamed at h) in
        (id, inr (unnamed, p), q)
    | inr named ↦ (
      opts.task_id,
      inl (named, refl),
      named_means (get_task toml opts.task_id world.store) t (rw named at h),
    )
  ]

  -- A parked row is answered without a launch and without a change.
  abbrev pub IsAnswered : Task → World Bytes O → Dispatch → World Bytes O → Type 0
  IsAnswered t world d after =
      (is_parked t.status ≡ false)
      ⊎ ((is_parked t.status ≡ true) × (launches d ≡ false) × (after ≡ world))

  abbrev pub Ends :
      ContinueEnv O
      → ContinueOptions
      → World Bytes O
      → Result Missed Dispatch
      → World Bytes O
      → Type 0
  Ends env opts world (err m) after = after ≡ world
  Ends env opts world (ok d) after =
      (id : Text) × (t : Task) × IsChosen env opts world id
      × (get_task toml id world.store ≡ ok t)
      × ((d, after) ≡ dispatch_by_status toml env t world)
      × IsAnswered t world d after

  answered :
      (env : ContinueEnv O) (t : Task) (world : World Bytes O)
      → let (d, after) = dispatch_by_status toml env t world in IsAnswered t world d after
  answered env t world = elim (Bool-cases (is_parked t.status)) [
    | inl parked ↦
        let (silent, same) = parked_rows_stay toml env t world parked in inr (parked, silent, same)
    | inr moves ↦ inl moves
  ]

  chosen-Ends :
      (env : ContinueEnv O) (opts : ContinueOptions) (world : World Bytes O) (c : Chosen)
      → resolve_continue_task_from_store toml env opts world ≡ c
      → Ends env opts world (on_chosen toml env world c).0 (on_chosen toml env world c).1
  unfolding on_chosen
  chosen-Ends env opts world (err m) h = refl
  chosen-Ends env opts world (ok t) h =
      let (id, p, q) = resolved_means env opts world t h in
      (id, t, p, q, refl, answered env t world)

  -- A call of RunContinue that dispatches no row changes nothing. One that dispatches a row has read
  -- it under the id that the user named, or else picked in the list; it does what the dispatch by the
  -- status does for that row; and if the row is planning, working, completed, failed or at a status
  -- that is not listed, nothing is launched and nothing changes.
  pub run_continue_lem :
      (env : ContinueEnv O) (opts : ContinueOptions) (world : World Bytes O)
      → Ends env opts world
          (run_continue toml env opts world).0
          (run_continue toml env opts world).1
  unfolding run_continue resolve_continue_task_from_store
  run_continue_lem env opts world = elim (Bool-cases opts.has_agents) [
    | inl some_agent ↦
        rw some_agent
          (chosen-Ends env opts world (resolve_continue_task_from_store toml env opts world) refl)
    | inr no_agent ↦ rw no_agent refl
  ]
