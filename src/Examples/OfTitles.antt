-- ===== src/Examples/OfTitles.antt =====
-- The theorems on titles, on the URLs of pull requests and on the store as a map at concrete inputs.
use j.Prelude.{
  ◌≡◌, refl, inl, inr, Text, codes, List, [], ◌∷◌, ◌++◌, some, ok, arith, Bool-cases, text_eq,
}
use j.Tasks.Status.{TaskStatus}
use j.Tasks.Wire.{task_file_from_task, task_from_file, unmarshal_task}
use j.Tasks.Store.{entry_at}
use j.Tasks.Store.Refine.{Op, put, get, delete, run_store, run_map, view, IsSound, run_refines}
use j.Github.Url.{parse_url, public_host}
use j.Github.Url.Laws.{parse_url-canonical, pull_path}
use j.Lifecycle.Titles.{decorate_title, eyes_prefix}
use j.Lifecycle.Titles.Laws.{decorate_title-again}
use j.Examples.Rows.{row_at, store_of, plain_toml}

abbrev signed : Text
signed = eyes_prefix ++ codes "Add a key"

decorate_title-again_example :
    decorate_title (decorate_title signed TaskStatus.failed) TaskStatus.working
    ≡ decorate_title signed TaskStatus.working
decorate_title-again_example = decorate_title-again signed TaskStatus.failed TaskStatus.working

parse_url-canonical_example :
    parse_url (
      some (record {
        scheme = codes "https";
        host = public_host;
        path = pull_path (codes "o") (codes "r") (codes "pull") 12;
      }))
    ≡ ok (record { host = public_host; owner = codes "o"; repo = codes "r"; number = 12 })
parse_url-canonical_example =
    parse_url-canonical b'o' [] b'r' [] (codes "https") (codes "pull") 12 (refl, tt) (refl, tt)
      (λ e. cc) (inl refl) (omega arith) (omega arith)

abbrev calls : List Op
calls =
    put (row_at TaskStatus.working)
    ∷ get (codes "t1")
    ∷ delete (codes "t1")
    ∷ delete (codes "t1")
    ∷ put (record (row_at TaskStatus.working) { id = [] })
    ∷ []

row_is_sound :
    (id : Text)
    → IsSound plain_toml id (entry_at id (store_of (row_at TaskStatus.planning)).entries)
unfolding entry_at unmarshal_task task_from_file task_file_from_task
row_is_sound id = elim (Bool-cases (text_eq (codes "t1") id)) [
  | inl same ↦ rw same (row_at TaskStatus.planning, refl)
  | inr other ↦ rw other tt
]

run_refines_example :
    run_store plain_toml (store_of (row_at TaskStatus.planning)) calls
    ≡ run_map (view plain_toml (store_of (row_at TaskStatus.planning))) calls
run_refines_example =
    run_refines plain_toml (store_of (row_at TaskStatus.planning))
      (record { is_tasks = refl; sound = row_is_sound }) calls
