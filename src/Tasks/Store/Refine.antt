-- ===== src/Tasks/Store/Refine.antt =====
-- The tasks store as a map from ids to rows: no sequence of calls tells the two apart, where the
-- directory holds tasks alone and the operating system refuses nothing.
use mathlib.Core.Path.{ap₂, subst}
use j.Prelude.{
  Text, ◌≡◌, inl, inr, refl, sym, ap, ◌∙◌, true, false, Bool-cases, List, [], ◌∷◌, Option, none,
  some, Result, ok, err, is_empty, text_eq, text_eq_sound, not, if◌then◌else◌,
}
use j.Tasks.Status.{valid}
use j.Tasks.Row.{Task}
use j.Tasks.Wire.{Toml, marshal_task, unmarshal_task, unmarshal-marshal}
use j.Tasks.Store.{
  absent, unreadable, present, Entry, plain_file, task_dir, StoreError, id_required, invalid_status,
  not_exist, no_faults, Store, entry_at, set_entry, put_task, get_task, delete_task, read_row,
  write_row, make_dir, remove_row, decoded,
}
use j.Tasks.Store.Laws.{entry_at-set_entry}

-- The abstract view: the rows by their ids.
abbrev pub RowMap : Type 0
RowMap = Text → Option Task

abbrev pub update : Text → Option Task → RowMap → RowMap
update id o m k = if text_eq id k then o else m k

pub data Op : Type 0 where
  put : Task → Op
  get delete : Text → Op

pub data Answer : Type 0 where
  done : Option StoreError → Answer
  row : Result StoreError Task → Answer

-- The specification: what each call answers, and the map behind it.
abbrev pub map_put : Task → RowMap → Option StoreError × RowMap
map_put t m =
    if is_empty t.id
    then (some id_required, m)
    else if not (valid t.status)
    then (some (invalid_status t.status), m)
    else (none, update t.id (some t) m)

abbrev pub map_get : Text → Option Task → Result StoreError Task
map_get id none = err (not_exist id)
map_get id (some t) = ok t

abbrev pub map_delete : Text → RowMap → Option Task → Option StoreError × RowMap
map_delete id m none = (some (not_exist id), m)
map_delete id m (some t) = (none, update id none m)

pub run_map : RowMap → List Op → List Answer
run_map m [] = []
run_map m (put t ∷ ops) = let (e, m') = map_put t m in done e ∷ run_map m' ops
run_map m (get id ∷ ops) = row (map_get id (m id)) ∷ run_map m ops
run_map m (delete id ∷ ops) = let (e, m') = map_delete id m (m id) in done e ∷ run_map m' ops

abbrev kept : Result Text Task → Option Task
kept (ok t) = some t
kept (err e) = none

module _ (toml : Toml) where
  open toml use {Bytes}

  -- The same calls on the store.
  pub run_store : Store Bytes → List Op → List Answer
  run_store s [] = []
  run_store s (put t ∷ ops) = let (e, s') = put_task toml no_faults t s in done e ∷ run_store s' ops
  run_store s (get id ∷ ops) = row (get_task toml id s) ∷ run_store s ops
  run_store s (delete id ∷ ops) =
      let (e, s') = delete_task toml no_faults id s in done e ∷ run_store s' ops

  -- What an entry says of its id.
  abbrev pub row_of : Text → Option (Entry Bytes) → Option Task
  row_of id none = none
  row_of id (some plain_file) = none
  row_of id (some (task_dir absent)) = none
  row_of id (some (task_dir unreadable)) = none
  row_of id (some (task_dir (present bytes))) = kept (unmarshal_task toml bytes id)

  abbrev pub view : Store Bytes → RowMap
  view s id = row_of id (entry_at id s.entries)

  -- A directory with a row that can be decoded, or with none.
  abbrev pub IsSound : Text → Option (Entry Bytes) → Type 0
  IsSound id none = Unit {0}
  IsSound id (some plain_file) = ⊥
  IsSound id (some (task_dir absent)) = Unit {0}
  IsSound id (some (task_dir unreadable)) = ⊥
  IsSound id (some (task_dir (present bytes))) = (t : Task) × (unmarshal_task toml bytes id ≡ ok t)

  pub record IsClean (s : Store Bytes) : Type 0 where
    pub is_tasks : is_empty s.tasks_dir ≡ false
    pub sound : (id : Text) → IsSound id (entry_at id s.entries)

  read-row_of :
      (id : Text) (o : Option (Entry Bytes))
      → IsSound id o
      → read_row toml id o ≡ map_get id (row_of id o)
  unfolding read_row decoded
  read-row_of id none h = refl
  read-row_of id (some plain_file) h = absurd h
  read-row_of id (some (task_dir absent)) h = refl
  read-row_of id (some (task_dir unreadable)) h = absurd h
  read-row_of id (some (task_dir (present bytes))) (t, e) =
      ap (decoded toml) e ∙ sym (ap (λ r. map_get id (kept r)) e)

  get_refines :
      (s : Store Bytes) → IsClean s → (id : Text) → get_task toml id s ≡ map_get id (view s id)
  unfolding get_task
  get_refines s clean id =
      rw (clean.is_tasks) (read-row_of id (entry_at id s.entries) (clean.sound id))

  abbrev holding : Text → Entry Bytes → Store Bytes → Store Bytes
  holding id e s = record s { exists = true; entries = set_entry id e s.entries }

  write_clean :
      (w : Text) (bytes : Bytes) (s : Store Bytes) (o : Option (Entry Bytes))
      → IsSound w o
      → write_row no_faults w bytes s (make_dir o) ≡ (none, holding w (task_dir (present bytes)) s)
  unfolding write_row make_dir
  write_clean w bytes s none h = refl
  write_clean w bytes s (some plain_file) h = absurd h
  write_clean w bytes s (some (task_dir f)) h = refl

  -- What a clean store shows, and that it is clean.
  record Shows (m : RowMap) (s : Store Bytes) : Type 0 where
    pub clean : IsClean s
    pub same : (id : Text) → view s id ≡ m id

  -- An entry that says `o` of its id, in the place of the one that was there.
  holding-Shows :
      (id : Text) (e : Entry Bytes) (o : Option Task) (s : Store Bytes) (m : RowMap)
      → IsSound id (some e)
      → row_of id (some e) ≡ o
      → Shows m s
      → Shows (update id o m) (holding id e s)
  holding-Shows id e o s m ok-e says h =
      let at = λ (k : Text). entry_at-set_entry id k e s.entries in
      record {
        clean = record {
          is_tasks = h.clean.is_tasks;
          sound = λ k. subst (IsSound k) (sym (at k)) (elim (Bool-cases (text_eq id k)) [
            | inl same ↦ rw same (subst (λ j. IsSound j (some e)) (text_eq_sound id k same) ok-e)
            | inr other ↦ rw other (h.clean.sound k)
          ]);
        };
        same = λ k. ap (row_of k) (at k) ∙ elim (Bool-cases (text_eq id k)) [
          | inl same ↦ rw same (subst (λ j. row_of j (some e) ≡ o) (text_eq_sound id k same) says)
          | inr other ↦ rw other (h.same k)
        ];
      }

  abbrev deleted : Text → Store Bytes → Option Task → Option StoreError × Store Bytes
  deleted id s none = (some (not_exist id), s)
  deleted id s (some t) = (none, holding id (task_dir absent) s)

  delete_clean :
      (id : Text) (s : Store Bytes) (o : Option (Entry Bytes))
      → IsSound id o
      → remove_row toml no_faults id s o ≡ deleted id s (row_of id o)
  unfolding remove_row
  delete_clean id s none h = refl
  delete_clean id s (some plain_file) h = absurd h
  delete_clean id s (some (task_dir absent)) h = refl
  delete_clean id s (some (task_dir unreadable)) h = absurd h
  delete_clean id s (some (task_dir (present bytes))) (t, e) =
      sym (ap (λ r. deleted id s (kept r)) e)

  -- Each call answers alike, and leaves a store that shows the map's next state.
  put_refines :
      (t : Task) (s : Store Bytes) (m : RowMap)
      → Shows m s
      → ((put_task toml no_faults t s).0 ≡ (map_put t m).0)
        × Shows (map_put t m).1 (put_task toml no_faults t s).1
  unfolding put_task
  put_refines t s m h = elim (Bool-cases (is_empty t.id)) [
    | inl unnamed ↦ rw unnamed (refl, h)
    | inr named ↦ elim (Bool-cases (valid t.status)) [
      | inr odd ↦ rw (named, odd) (refl, h)
      | inl fine ↦
          rw
            (
              named,
              fine,
              h.clean.is_tasks,
              write_clean t.id (marshal_task toml t) s (entry_at t.id s.entries)
                  (h.clean.sound t.id),
            )
            (
              refl,
              let back = unmarshal-marshal toml t t.id named in
                  holding-Shows t.id (task_dir (present (marshal_task toml t))) (some t) s m
                    (t, back) (ap kept back) h,
            )
    ]
  ]

  delete_step :
      (id : Text) (s : Store Bytes) (m : RowMap) (o : Option Task)
      → Shows m s
      → ((deleted id s o).0 ≡ (map_delete id m o).0)
        × Shows (map_delete id m o).1 (deleted id s o).1
  delete_step id s m none h = (refl, h)
  delete_step id s m (some t) h = (refl, holding-Shows id (task_dir absent) none s m tt refl h)

  delete_refines :
      (id : Text) (s : Store Bytes) (m : RowMap)
      → Shows m s
      → ((delete_task toml no_faults id s).0 ≡ (map_delete id m (m id)).0)
        × Shows (map_delete id m (m id)).1 (delete_task toml no_faults id s).1
  unfolding delete_task
  delete_refines id s m h =
      rw (h.clean.is_tasks, delete_clean id s (entry_at id s.entries) (h.clean.sound id), h.same id)
        (delete_step id s m (m id) h)

  shown_refines :
      (ops : List Op) (s : Store Bytes) (m : RowMap) → Shows m s → run_store s ops ≡ run_map m ops
  unfolding run_store run_map
  shown_refines [] s m h = refl
  shown_refines (put t ∷ ops) s m h =
      let (same, next) = put_refines t s m h in
      ap₂ (λ e rest. done e ∷ rest) same (shown_refines ops _ _ next)
  shown_refines (get id ∷ ops) s m h =
      ap₂ (λ a rest. row a ∷ rest) (get_refines s h.clean id ∙ ap (map_get id) (h.same id))
        (shown_refines ops s m h)
  shown_refines (delete id ∷ ops) s m h =
      let (same, next) = delete_refines id s m h in
      ap₂ (λ e rest. done e ∷ rest) same (shown_refines ops _ _ next)

  -- On a tasks directory in which every entry is a directory with a row that can be decoded, or
  -- with none, and under an operating system that refuses nothing, any sequence of PutTask, GetTask
  -- and DeleteTask calls answers what the same calls answer on a map from ids to rows.
  pub run_refines :
      (s : Store Bytes) → IsClean s → (ops : List Op) → run_store s ops ≡ run_map (view s) ops
  run_refines s clean ops =
      shown_refines ops s (view s) (record { clean = clean; same = λ id. refl })
