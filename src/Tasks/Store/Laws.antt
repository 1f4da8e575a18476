-- ===== src/Tasks/Store/Laws.antt =====
-- What the tasks store promises: rows under their ids, whatever a call's outcome.
use mathlib.Core.List.{Mem, Memᴰ}
use mathlib.Core.Path.{subst}
use mathlib.Core.List.Perm
use j.Prelude.{
  Text, ◌≡◌, refl, Bool, true, false, List, [], ◌∷◌, Option, none, some, Result, ok, err, is_empty,
  Ordering, text_eq, text_eq_refl, text_eq_sound, text_compare, sort, ◌&&◌, if◌then◌else◌, arith,
  Bool-cases, inl, inr, sym, ◌≢◌, ◌⊎◌, text_compare_gt, text_compare_le_trans, IsSorted,
  sort-IsSorted, sort-perm,
}
use j.Tasks.Row.{Task}
use j.Tasks.Wire.{Toml, marshal_task, unmarshal-marshal}
use j.Tasks.Store.{
  absent, unreadable, present, Entry, plain_file, task_dir, StoreError, not_exist, Faults, Store,
  entry_at, set_entry, remove_entry, put_task, get_task, delete_task, list_tasks, collect, listed,
  add_row, sorted_rows, remove_dir, ensure_dir, made_dir, read_row, write_row, make_dir, remove_row,
}

module _ {B : Type 0} where
  pub entry_at-set_entry :
      (i k : Text) (e : Entry B) (es : List (Text × Entry B))
      → entry_at k (set_entry i e es) ≡ (if text_eq i k then some e else entry_at k es)
  unfolding entry_at set_entry
  entry_at-set_entry i k e [] = refl
  entry_at-set_entry i k e ((name, old) ∷ rest) = ground (
    arith,
    text_eq_sound name i,
    text_eq_sound i k,
    text_eq_sound name k,
    text_eq_refl i,
    entry_at-set_entry i k e rest,
  )

abbrev pub succeeded : Option StoreError → Bool
succeeded none = true
succeeded (some e) = false

module _ (toml : Toml) where
  open toml use {Bytes}

  -- A write under `i` seen by a read of `k`, for each thing that may stand at `i`.
  read-write_row :
      (w : Faults) (i k : Text) (bytes : Bytes) (s : Store Bytes) (o : Option (Entry Bytes))
      → entry_at i s.entries ≡ o
      → let (e, s') = write_row w i bytes s (make_dir o) in
        (s'.tasks_dir ≡ s.tasks_dir)
        × (read_row toml k (entry_at k s'.entries) ≡ (
            if succeeded e && text_eq i k
            then read_row toml k (some (task_dir (present bytes)))
            else read_row toml k (entry_at k s.entries)))
  unfolding write_row make_dir read_row
  read-write_row w i k bytes s none h = ground (
    arith,
    entry_at-set_entry i k (task_dir absent) s.entries,
    entry_at-set_entry i k (task_dir (present bytes)) s.entries,
    text_eq_sound i k,
  )
  read-write_row w i k bytes s (some plain_file) h = ground arith
  read-write_row w i k bytes s (some (task_dir f)) h = ground (
    arith,
    entry_at-set_entry i k (task_dir f) s.entries,
    entry_at-set_entry i k (task_dir (present bytes)) s.entries,
    text_eq_sound i k,
  )

  -- After a put, whatever its outcome, a get of any id gives the row that was put if the put
  -- succeeded under that id, and otherwise what it gave before.
  pub get-put :
      (w : Faults) (t : Task) (s : Store Bytes) (id : Text)
      → get_task toml id (put_task toml w t s).1 ≡ (
          if succeeded (put_task toml w t s).0 && text_eq t.id id then ok t else get_task toml id s)
  unfolding get_task put_task
  get-put w t s id = ground (
    arith,
    read-write_row w t.id id (marshal_task toml t) s (entry_at t.id s.entries) refl,
    text_eq_sound t.id id,
    unmarshal-marshal toml t id,
  )

  -- After a delete, whatever its outcome, a get of the id says that there is no such task if the
  -- delete succeeded; a get of another id, or after a refused delete, gives what it gave before.
  pub get-delete :
      (w : Faults) (i : Text) (s : Store Bytes) (id : Text)
      → get_task toml id (delete_task toml w i s).1 ≡ (
          if succeeded (delete_task toml w i s).0 && text_eq i id
          then err (not_exist id)
          else get_task toml id s)
  unfolding get_task delete_task remove_row read_row
  get-delete w i s id =
      ground (arith, entry_at-set_entry i id (task_dir absent) s.entries, text_eq_sound i id)

  -- A delete does not move the tasks directory.
  pub delete_keeps_dir :
      (w : Faults) (id : Text) (s : Store Bytes)
      → (delete_task toml w id s).1.tasks_dir ≡ s.tasks_dir
  unfolding delete_task remove_row
  delete_keeps_dir w id s = ground arith

  abbrev pub by_id : Task → Task → Ordering
  by_id a b = text_compare a.id b.id

  listed-read :
      (id : Text) (t : Task) (e : Entry Bytes)
      → read_row toml id (some e) ≡ ok t
      → listed toml id e ≡ ok (some t)
  unfolding read_row listed
  listed-read id t plain_file r = cc
  listed-read id t (task_dir absent) r = cc
  listed-read id t (task_dir unreadable) r = cc
  listed-read id t (task_dir (present b)) r = ground arith

  -- A successful loop step keeps what the rest of the loop gave, behind this entry's row.
  add_row-ok :
      (l : Result StoreError (Option Task)) (r : Result StoreError (List Task)) {ts : List Task}
      → add_row toml l r ≡ ok ts
      → (rest : List Task) × (r ≡ ok rest)
        × ((l ≡ ok none) × (ts ≡ rest) ⊎ ((t : Task) × (l ≡ ok (some t)) × (ts ≡ t ∷ rest)))
  unfolding add_row
  add_row-ok (err e) r h = cc
  add_row-ok (ok none) (ok rest) h = (rest, refl, inl (refl, cc))
  add_row-ok (ok none) (err e) h = cc
  add_row-ok (ok (some t)) (ok rest) h = (rest, refl, inr (t, refl, cc))
  add_row-ok (ok (some t)) (err e) h = cc

  collect-mem :
      (id : Text) (t : Task) (es : List (Text × Entry Bytes)) (ts : List Task)
      → read_row toml id (entry_at id es) ≡ ok t
      → collect toml es ≡ ok ts
      → Memᴰ t ts
  unfolding collect entry_at read_row
  collect-mem id t [] ts r c = cc
  collect-mem id t ((name, e) ∷ rest) ts r c =
      let (us, collected, cases) = add_row-ok (listed toml name e) (collect toml rest) c in
      elim (Bool-cases (text_eq name id)) [
        | inl same ↦
            let here = listed-read name t e (ground (arith, text_eq_sound name id)) in
            elim cases [
              | inl skip ↦ cc here
              | inr (u, this, is) ↦ subst (Memᴰ t) (sym is) (Memᴰ.head (ground arith))
            ]
        | inr other ↦
            let there = collect-mem id t rest us (rw other at r) collected in
            elim cases [
              | inl (skip, is) ↦ subst (Memᴰ t) (sym is) there
              | inr (u, this, is) ↦ subst (Memᴰ t) (sym is) (Memᴰ.tail there)
            ]
      ]

  by_id_total : (a b : Task) → by_id a b ≡ Ordering.gt → by_id b a ≢ Ordering.gt
  by_id_total a b h = ground (arith, text_compare_gt a.id b.id)

  by_id_trans :
      (a b c : Task) → by_id a b ≢ Ordering.gt → by_id b c ≢ Ordering.gt → by_id a c ≢ Ordering.gt
  by_id_trans a b c h k = text_compare_le_trans a.id b.id c.id h k

  sorted_rows-ok :
      (r : Result StoreError (List Task)) {ts : List Task}
      → sorted_rows toml r ≡ ok ts
      → (us : List Task) × (r ≡ ok us) × (ts ≡ sort by_id us)
  unfolding sorted_rows
  sorted_rows-ok (ok us) h = (us, refl, cc)
  sorted_rows-ok (err e) h = cc

  -- A listing that succeeds is in the order of the ids, and holds every row that a get finds in a
  -- tasks directory that exists.
  pub list_tasks_lem :
      (w : Faults) (s : Store Bytes) (ts : List Task) (id : Text) (t : Task)
      → list_tasks toml w s ≡ ok ts
      → s.exists ≡ true
      → get_task toml id s ≡ ok t
      → IsSorted by_id ts × Mem t ts
  unfolding list_tasks get_task
  list_tasks_lem w s ts id t h there found =
      let (us, collected, is) = sorted_rows-ok (collect toml s.entries) {ts = ts} (ground arith) in
      (
        subst (IsSorted by_id) (sym is) (sort-IsSorted by_id by_id_total by_id_trans us),
        subst (Mem t) (sym is) (
            (Perm.mem_iff (sort-perm by_id us)).1
              ∣ collect-mem id t s.entries us (ground arith) collected ∣₁),
      )

  -- A removed directory takes its row with it, and no other.
  entry_at-remove_entry :
      (i k : Text) (es : List (Text × Entry Bytes))
      → entry_at k (remove_entry i es) ≡ (if text_eq i k then none else entry_at k es)
  unfolding entry_at remove_entry
  entry_at-remove_entry i k [] = ground arith
  entry_at-remove_entry i k ((name, old) ∷ rest) = ground (
    arith,
    text_eq_sound name i,
    text_eq_sound i k,
    text_eq_sound name k,
    text_eq_refl i,
    entry_at-remove_entry i k rest,
  )

  -- After RemoveDir, whatever its outcome, a get of the id says that there is no such task if the
  -- call succeeded; any other get gives what it gave before.
  pub get-remove_dir :
      (w : Faults) (i : Text) (s : Store Bytes) (id : Text)
      → is_empty s.tasks_dir ≡ false
      → get_task toml id (remove_dir w i s).1 ≡ (
          if succeeded (remove_dir w i s).0 && text_eq i id
          then err (not_exist id)
          else get_task toml id s)
  unfolding get_task remove_dir read_row
  get-remove_dir w i s id named = ground (arith, entry_at-remove_entry i id s.entries)

  get-made_dir :
      (w : Faults) (i : Text) (s : Store Bytes) (id : Text) (o : Option (Entry Bytes))
      → entry_at i s.entries ≡ o
      → let s' = (made_dir w i s (make_dir o)).1 in
        (s'.tasks_dir ≡ s.tasks_dir)
        × (read_row toml id (entry_at id s'.entries) ≡ read_row toml id (entry_at id s.entries))
  unfolding made_dir make_dir read_row
  get-made_dir w i s id none h =
      ground (arith, entry_at-set_entry i id (task_dir absent) s.entries, text_eq_sound i id)
  get-made_dir w i s id (some plain_file) h = (refl, refl)
  get-made_dir w i s id (some (task_dir f)) h =
      ground (arith, entry_at-set_entry i id (task_dir f) s.entries, text_eq_sound i id)

  -- Making a task's directory changes no row.
  pub get-ensure_dir :
      (w : Faults) (i : Text) (s : Store Bytes) (id : Text)
      → get_task toml id (ensure_dir w i s).1 ≡ get_task toml id s
  unfolding get_task ensure_dir read_row
  get-ensure_dir w i s id = ground (arith, get-made_dir w i s id (entry_at i s.entries) refl)
