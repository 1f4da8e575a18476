-- ===== src/Tasks/Transit.antt =====
-- apply_persist.go, persist.go and hooks.go: a transition is looked up, put into the row, written,
-- and shown to the hooks.
pub mod Laws
use j.Prelude.{Bool, List, [], ◌∷◌, ◌++◌, Option, none, some, Result, ok, err, if◌then◌else◌}
use j.Tasks.Status.{TaskStatus, completed, unset, status_eq}
use j.Tasks.Fsm.{Event, Transition, IllegalTransition, apply}
use j.Tasks.Row.{Task, Time}
use j.Tasks.Wire.{Toml}
use j.Tasks.Store.{Faults, Store, StoreError, put_task}

-- A hook observes a transition. It acts on what it may write, `O`, and returns or panics: the
-- flag tells which, beside the state that it leaves.
abbrev pub Hook : Type 0 → Type 0
Hook O = Transition → Task → O → O × Bool

module _ {O : Type 0} where
  -- Register: hooks are called in the order of their registration.
  unfoldable pub register : Hook O → List (Hook O) → List (Hook O)
  register h hooks = hooks ++ h ∷ []

  -- `recover` drops the panic, and the loop goes on to the next hook.
  unfoldable pub notify : List (Hook O) → Transition → Task → O → O
  notify [] tr t o = o
  notify (h ∷ hs) tr t o = let (after, panicked) = h tr t o in notify hs tr t after

pub data TransitError : Type 0 where
  illegal : IllegalTransition → TransitError
  not_stored : StoreError → TransitError

-- What the tasks store, the observers and standard error have come to.
pub record World (B O : Type 0) : Type 0 where
  pub store : Store B
  pub observed : O
  pub warnings : List StoreError

pub record Applied (B O : Type 0) : Type 0 where
  pub transition : Transition
  pub error : Option TransitError
  pub task : Task  -- the caller's row, which the call mutates
  pub world : World B O

unfoldable pub stamp_terminal : Time → Task → Task
unfolding status_eq
stamp_terminal now t = if status_eq t.status completed then record t { done_at = now } else t

warned : List StoreError → Option StoreError → List StoreError
warned lines none = lines
warned lines (some e) = lines ++ e ∷ []

abbrev moved : Time → Task → TaskStatus → Task
moved now t to = stamp_terminal now (record t { status = to })

abbrev edge_taken : Task → Event → TaskStatus → Transition
edge_taken t ev to = record { from = t.status; event = ev; to = to }

module _ (toml : Toml) {O : Type 0} where
  open toml use {Bytes}

  -- PersistWarn: a refused write is a line on standard error.
  unfoldable pub persist_warn : Faults → Task → World Bytes O → World Bytes O
  unfolding warned
  persist_warn w t world =
      let (e, s) = put_task toml w t world.store in
      record world { store = s; warnings = warned world.warnings e }

  rejected : Task → World Bytes O → IllegalTransition → Applied Bytes O
  rejected t world x = record {
    transition = record { from = x.from; event = x.event; to = unset };
    error = some (illegal x);
    task = t;
    world = world;
  }

  -- The notification is made only if the row has been written.
  notify_stored :
      List (Hook O)
      → Transition
      → Task
      → World Bytes O
      → Option StoreError × Store Bytes
      → Applied Bytes O
  notify_stored hooks tr t world (none, s) = record {
    transition = tr;
    error = none;
    task = t;
    world = record world { store = s; observed = notify hooks tr t world.observed };
  }
  notify_stored hooks tr t world (some e, s) = record {
    transition = tr;
    error = some (not_stored e);
    task = t;
    world = record world { store = s };
  }

  persist_strict :
      Faults
      → Time
      → List (Hook O)
      → Task
      → Event
      → World Bytes O
      → Result IllegalTransition TaskStatus
      → Applied Bytes O
  unfolding rejected notify_stored
  persist_strict w now hooks t ev world (err x) = rejected t world x
  persist_strict w now hooks t ev world (ok to) =
      let t' = moved now t to in
      notify_stored hooks (edge_taken t ev to) t' world (put_task toml w t' world.store)

  unfoldable pub apply_and_persist :
      Faults → Time → List (Hook O) → Task → Event → World Bytes O → Applied Bytes O
  unfolding persist_strict
  apply_and_persist w now hooks t ev world =
      persist_strict w now hooks t ev world (apply t.status ev)

  persist_best_effort :
      Faults
      → Time
      → List (Hook O)
      → Task
      → Event
      → World Bytes O
      → Result IllegalTransition TaskStatus
      → Applied Bytes O
  unfolding rejected persist_warn
  persist_best_effort w now hooks t ev world (err x) = rejected t world x
  persist_best_effort w now hooks t ev world (ok to) =
      let t' = moved now t to in
      let tr = edge_taken t ev to in
      let written = persist_warn w t' world in
      record {
        transition = tr;
        error = none;
        task = t';
        world = record written { observed = notify hooks tr t' written.observed };
      }

  unfoldable pub apply_and_persist_warn :
      Faults → Time → List (Hook O) → Task → Event → World Bytes O → Applied Bytes O
  unfolding persist_best_effort
  apply_and_persist_warn w now hooks t ev world =
      persist_best_effort w now hooks t ev world (apply t.status ev)
