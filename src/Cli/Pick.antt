-- ===== src/Cli/Pick.antt =====
-- pickFromStore of internal/cli/tasks/ui.go: the user picks one of the rows, in the list's order.
use j.Prelude.{Text, List, [], ◌∷◌, Option, none, some, Result, ok, err}
use j.Tasks.Row.{Task}
use j.Tasks.Wire.{Toml}
use j.Tasks.Store.{Faults, Store, StoreError, list_tasks}
use j.Tasks.Sort.{sort_tasks}
use j.Resolver.{Picked, picked, left, broken}

pub data PickError : Type 0 where
  not_listed : StoreError → PickError
  not_picked : PickError

from_pick : Picked → Result PickError (Option Text)
from_pick (picked id) = ok (some id)
from_pick left = ok none
from_pick broken = err not_picked

-- The picker is not asked where there are no rows.
unfoldable pub from_rows : (List Task → Picked) → List Task → Result PickError (Option Text)
unfolding from_pick
from_rows pick [] = ok none
from_rows pick (t ∷ ts) = from_pick (pick (sort_tasks (t ∷ ts)))

from_list : (List Task → Picked) → Result StoreError (List Task) → Result PickError (Option Text)
unfolding from_rows
from_list pick (err e) = err (not_listed e)
from_list pick (ok rows) = from_rows pick rows

module _ (toml : Toml) where
  open toml use {Bytes}

  unfoldable pub pick_from_store :
      Faults → (List Task → Picked) → Store Bytes → Result PickError (Option Text)
  unfolding from_list
  pick_from_store w pick s = from_list pick (list_tasks toml w s)
