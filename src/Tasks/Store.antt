-- ===== src/Tasks/Store.antt =====
-- task.go and dir.go: PutTask, GetTask, DeleteTask, ListTasks and RemoveDir over the tasks
-- directory, one subdirectory for each task with its row in task.toml. What the operating system
-- refuses on a call is the argument `Faults`.
pub mod Laws
pub mod Refine
use j.Prelude.{
  Text, ◌≡◌, Bool, true, false, List, [], ◌∷◌, Option, none, some, Result, ok, err, is_empty,
  Ordering, text_eq, text_compare, sort, ◌&&◌, ◌||◌, not, if◌then◌else◌,
}
use j.Tasks.Status.{TaskStatus, valid}
use j.Tasks.Row.{Task}
use j.Tasks.Wire.{Toml, marshal_task, unmarshal_task}

pub data TomlFile (B : Type 0) : Type 0 where
  absent : TomlFile B
  unreadable : TomlFile B
  present : B → TomlFile B

-- What stands in the tasks directory under one name.
pub data Entry (B : Type 0) : Type 0 where
  plain_file : Entry B
  task_dir : TomlFile B → Entry B

pub data StoreError : Type 0 where
  id_required wrong_store : StoreError
  invalid_status : TaskStatus → StoreError
  not_exist : Text → StoreError  -- wraps fs.ErrNotExist
  decode_failed : Text → StoreError
  io_failed : StoreError

-- Calls that the operating system refuses although the paths are in order.
pub record Faults : Type 0 where
  pub mkdir : Bool
  pub write : Bool
  pub read_dir : Bool
  pub remove : Bool

abbrev pub no_faults : Faults
no_faults = record { mkdir = false; write = false; read_dir = false; remove = false }

-- `tasks_dir` is the handle's root, `[]` on a handle of the settings store. `exists` tells whether
-- that directory is there, and `entries` what is in it.
pub record Store (B : Type 0) : Type 0 where
  pub tasks_dir : Text
  pub exists : Bool
  pub entries : List (Text × Entry B)

module _ {B : Type 0} where
  unfoldable pub entry_at : Text → List (Text × Entry B) → Option (Entry B)
  entry_at id [] = none
  entry_at id ((name, e) ∷ rest) = if text_eq name id then some e else entry_at id rest

  unfoldable pub set_entry : Text → Entry B → List (Text × Entry B) → List (Text × Entry B)
  set_entry id e [] = (id, e) ∷ []
  set_entry id e ((name, old) ∷ rest) =
      if text_eq name id then (name, e) ∷ rest else (name, old) ∷ set_entry id e rest

  unfoldable pub remove_entry : Text → List (Text × Entry B) → List (Text × Entry B)
  remove_entry id [] = []
  remove_entry id ((name, old) ∷ rest) =
      let tail = remove_entry id rest in if text_eq name id then tail else (name, old) ∷ tail

  abbrev with_entry : Text → Entry B → Store B → Store B
  with_entry id e s = record s { exists = true; entries = set_entry id e s.entries }

  -- os.MkdirAll(taskDir): `none` where a plain file has the name.
  make_dir : Option (Entry B) → Option (TomlFile B)
  make_dir none = some absent
  make_dir (some plain_file) = none
  make_dir (some (task_dir f)) = some f

  -- MkdirAll, then the atomic write: a refused write leaves the directory and the old file.
  write_row : Faults → Text → B → Store B → Option (TomlFile B) → Option StoreError × Store B
  write_row w id bytes s none = (some io_failed, s)
  write_row w id bytes s (some old) =
      if w.mkdir
      then (some io_failed, s)
      else if w.write
      then (some io_failed, with_entry id (task_dir old) s)
      else (none, with_entry id (task_dir (present bytes)) s)

module _ (toml : Toml) where
  open toml use {Bytes}

  unfoldable pub put_task : Faults → Task → Store Bytes → Option StoreError × Store Bytes
  unfolding write_row make_dir
  put_task w t s =
      if is_empty t.id
      then (some id_required, s)
      else if not (valid t.status)
      then (some (invalid_status t.status), s)
      else if is_empty s.tasks_dir
      then (some wrong_store, s)
      else write_row w t.id (marshal_task toml t) s (make_dir (entry_at t.id s.entries))

  decoded : Result Text Task → Result StoreError Task
  decoded (ok t) = ok t
  decoded (err id) = err (decode_failed id)

  read_row : Text → Option (Entry Bytes) → Result StoreError Task
  unfolding decoded
  read_row id none = err (not_exist id)
  read_row id (some plain_file) = err io_failed
  read_row id (some (task_dir absent)) = err (not_exist id)
  read_row id (some (task_dir unreadable)) = err io_failed
  read_row id (some (task_dir (present bytes))) = decoded (unmarshal_task toml bytes id)

  unfoldable pub get_task : Text → Store Bytes → Result StoreError Task
  unfolding read_row
  get_task id s =
      if is_empty s.tasks_dir then err wrong_store else read_row id (entry_at id s.entries)

  remove_row : Faults → Text → Store Bytes → Option (Entry Bytes) → Option StoreError × Store Bytes
  remove_row w id s none = (some (not_exist id), s)
  remove_row w id s (some plain_file) = (some io_failed, s)
  remove_row w id s (some (task_dir absent)) = (some (not_exist id), s)
  remove_row w id s (some (task_dir f)) =
      if w.remove then (some io_failed, s) else (none, with_entry id (task_dir absent) s)

  -- Only task.toml goes: the directory and its other files stay.
  unfoldable pub delete_task : Faults → Text → Store Bytes → Option StoreError × Store Bytes
  unfolding remove_row
  delete_task w id s =
      if is_empty s.tasks_dir
      then (some wrong_store, s)
      else remove_row w id s (entry_at id s.entries)

  -- What ListTasks makes of one entry: `ok none` is the loop's `continue`.
  listed : Text → Entry Bytes → Result StoreError (Option Task)
  listed name plain_file = ok none
  listed name (task_dir absent) = ok none
  listed name (task_dir unreadable) = err io_failed
  listed name (task_dir (present bytes)) = elim (unmarshal_task toml bytes name) [
    | ok t ↦ ok (some t)
    | err id ↦ err (decode_failed id)
  ]

  add_row :
      Result StoreError (Option Task)
      → Result StoreError (List Task)
      → Result StoreError (List Task)
  add_row (err e) rest = err e
  add_row (ok none) rest = rest
  add_row (ok (some t)) (ok ts) = ok (t ∷ ts)
  add_row (ok (some t)) (err e) = err e

  unfoldable pub collect : List (Text × Entry Bytes) → Result StoreError (List Task)
  unfolding add_row listed
  collect [] = ok []
  collect ((name, e) ∷ rest) = add_row (listed name e) (collect rest)

  sorted_rows : Result StoreError (List Task) → Result StoreError (List Task)
  sorted_rows (ok ts) = ok (sort (λ a b. text_compare a.id b.id) ts)
  sorted_rows (err e) = err e

  unfoldable pub list_tasks : Faults → Store Bytes → Result StoreError (List Task)
  unfolding sorted_rows
  list_tasks w s =
      if is_empty s.tasks_dir
      then err wrong_store
      else if not s.exists
      then ok []
      else if w.read_dir
      then err io_failed
      else sorted_rows (collect s.entries)

module _ {B : Type 0} where
  made_dir : Faults → Text → Store B → Option (TomlFile B) → Option StoreError × Store B
  made_dir w id s none = (some io_failed, s)
  made_dir w id s (some f) =
      if w.mkdir then (some io_failed, s) else (none, with_entry id (task_dir f) s)

  -- EnsureDir: the parent is not created.
  unfoldable pub ensure_dir : Faults → Text → Store B → Option StoreError × Store B
  unfolding make_dir made_dir
  ensure_dir w id s =
      if is_empty id
      then (some id_required, s)
      else if not s.exists
      then (some (not_exist s.tasks_dir), s)
      else made_dir w id s (make_dir (entry_at id s.entries))

  -- RemoveDir: a directory that is not there is no error.
  unfoldable pub remove_dir : Faults → Text → Store B → Option StoreError × Store B
  remove_dir w id s =
      if is_empty id
      then (some id_required, s)
      else if not s.exists
      then (some (not_exist s.tasks_dir), s)
      else if w.remove
      then (some io_failed, s)
      else (none, record s { entries = remove_entry id s.entries })
