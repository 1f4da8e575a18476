-- ===== src/Examples/OfRounds.antt =====
-- The theorems on the rounds of a code review at concrete inputs: a first round that asks the user,
-- and the next call.
use j.Prelude.{
  ◌≡◌, refl, Bool, true, false, Text, codes, [], ◌∷◌, none, some, ok, err, text_eq, arith, int_of,
  sort, print_int, decimal, split_on, trim_space, trim_right, drop_while, atoi, scan_digits, ◌==◌,
  if◌then◌else◌,
}
use j.Tasks.Status.{TaskStatus}
use j.Tasks.Row.{Task}
use j.Tasks.Lock.{Holder, LockFaults, written}
use j.Github.{collect_items}
use j.Github.Url.{parse_url, split_pr_path}
use j.Github.Fetch.{
  Server, FirstPage, fetch_pr, fetch_paged, fetch_remaining, guard_state, header_of,
}
use j.Github.Fetch.Drained.{no_more}
use j.Github.Fetch.Whole.{fetch_pr_lem}
use j.CodeReview.{ReviewFile, count_id, snapshot_source_ids, validate_round, validate_post}
use j.CodeReview.Laws.{has_artifacts}
use j.CodeReview.Rounds.{
  Rounds, Round, round_dir, empty_round, new_round_at, resolve_or_allocate, list_round_numbers,
  round_numbers, last, has_clarification, allocate, entry_at, set_entry,
}
use j.CodeReview.Rounds.Laws.{resolve_lem, Allocates}
use j.CodeReview.Run.{
  ReviewEnv, execute_code_review_round, review_at, files_at, prepare_round_review, review_of,
  item_from_fetch, save_review, validate_review_round,
}
use j.CodeReview.Run.Laws.{round_keeps_feedback, Basis}
use j.CodeReview.Run.Again.{asked_round_is_resumed}
use j.Examples.Rows.{row_at}
use j.Examples.OfReviews.{review}

abbrev asking : ReviewFile
asking = review (codes "clarification_needed") []

abbrev first : Round
first = record { n = int_of 1; name = codes "round-1" }

abbrev asked : Rounds
asked =
    (
      codes "round-1",
      round_dir (record {
        review = some asking;
        files = record { plan = none; clarification = some 40 };
      }),
    )
    ∷ []

-- The planner asks in every round.
abbrev page : FirstPage
page = record {
  url = codes "u";
  state = codes "OPEN";
  is_draft = false;
  merged = false;
  comments = (record { end_cursor = []; has_next_page = false }, []);
  review_threads = (record { end_cursor = []; has_next_page = false }, []);
  reviews = (record { end_cursor = []; has_next_page = false }, []);
}

abbrev server : Server
server = record {
  viewer = ok (codes "j");
  first = ok (some page);
  comments_after = λ c. err [];
  threads_after = λ c. err [];
  reviews_after = λ c. err [];
}

abbrev env : ReviewEnv
env = record {
  faults = record { ensure_dir = none; mkdir_root = false; read_dir = false; mkdir_round = false };
  url = λ t.
      some
        (record { scheme = codes "https"; host = codes "github.com"; path = codes "/o/r/pull/3" });
  server = server;
  pages = 0;
  now = 9;
  save_fails = false;
  planner = λ round resumed rounds. (
    set_entry round.name
        (round_dir (record {
          review = some asking;
          files = record { plan = none; clarification = some 40 };
        }))
        rounds,
    false,
  );
}

abbrev row : Task
row = record (row_at TaskStatus.work_done) {
  pull_request_url = codes "https://github.com/o/r/pull/3";
}

runs : execute_code_review_round env row [] ≡ (none, asked)
unfolding execute_code_review_round resolve_or_allocate list_round_numbers round_numbers last sort
    has_clarification allocate new_round_at print_int decimal entry_at set_entry
    prepare_round_review parse_url split_pr_path split_on trim_space trim_right drop_while atoi
    text_eq fetch_pr fetch_paged fetch_remaining guard_state collect_items snapshot_source_ids
    review_of item_from_fetch save_review review_at validate_review_round validate_round
    validate_post files_at scan_digits
runs = refl

round_keeps_feedback_example :
    (it : Round) × (resumed : Bool) × (chosen : Rounds) × (basis file : ReviewFile)
    × (resolve_or_allocate env.faults [] ≡ (ok (it, resumed), chosen))
    × Basis env row chosen it resumed basis
    × (review_at it.name asked ≡ some file)
    × (has_artifacts file (files_at it.name asked) ≡ true)
    × ((id : Text) → count_id id file.items ≡ (if count_id id basis.items == 0 then 0 else 1))
round_keeps_feedback_example = round_keeps_feedback env row [] asked runs

first_is_new :
    resolve_or_allocate env.faults []
    ≡ (ok (first, false), (codes "round-1", round_dir empty_round) ∷ [])
unfolding resolve_or_allocate list_round_numbers round_numbers last sort allocate new_round_at
    print_int decimal entry_at set_entry
first_is_new = refl

resolve_lem_example : Allocates [] first ((codes "round-1", round_dir empty_round) ∷ [])
resolve_lem_example =
    resolve_lem env.faults [] first false ((codes "round-1", round_dir empty_round) ∷ [])
      (unfold round_numbers in λ k h. absurd h) first_is_new

asked_round_is_resumed_example : resolve_or_allocate env.faults asked ≡ (ok (first, true), asked)
unfolding review_at entry_at text_eq
asked_round_is_resumed_example =
    asked_round_is_resumed env row [] asked ((codes "round-1", round_dir empty_round) ∷ []) first
      false asking env.faults
      (λ round resumed rounds. (
        record { review = some asking; files = record { plan = none; clarification = some 40 } },
        refl,
      ))
      (unfold round_numbers in λ k h. absurd h) runs first_is_new refl refl refl refl refl

abbrev holder : Holder
holder = record { pid = 7; host = codes "h"; phase = codes "code-review"; started_at = 20 }

abbrev sound : LockFaults
sound = record { dir = none; stat = false; opening = false; flock = false; write = written }

fetch_pr_lem_example :
    fetch_pr 0 server
      (record { host = codes "github.com"; owner = codes "o"; repo = codes "r"; number = 3 })
    ≡ ok (record {
      pr =
          header_of
            (record { host = codes "github.com"; owner = codes "o"; repo = codes "r"; number = 3 })
            page;
      items = collect_items (codes "j") [] [] [];
    })
unfolding text_eq
fetch_pr_lem_example =
    fetch_pr_lem server
      (record { host = codes "github.com"; owner = codes "o"; repo = codes "r"; number = 3 })
      (codes "j") page
      (record {
        comments = [];
        threads = [];
        reviews = [];
        comment_pages = 0;
        thread_pages = 0;
        review_pages = 0;
        comments_behind = no_more _ refl;
        threads_behind = no_more _ refl;
        reviews_behind = no_more _ refl;
      })
      0 refl refl (omega arith) (omega arith) (omega arith)
