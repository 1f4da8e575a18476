-- ===== src/Examples/OfReviews.antt =====
-- The theorems on code reviews and on the feedback of a pull request at concrete inputs.
use j.Prelude.{◌≡◌, ◌↔◌, refl, false, Text, codes, List, [], ◌∷◌, ◌++◌, none, some, All, text_eq}
use j.CodeReview.{Item, ReviewFile, RoundFiles, validate_post, snapshot_source_ids}
use j.CodeReview.Counting.{EachOnce}
use j.CodeReview.Laws.{validate_post_lem, IsConcluded, IsDecided}
use j.Github.{ConversationComment, ReviewThread, Review, collect_items, reply_marker}
use j.Github.Laws.{
  collect_items_lem, ids_of_items, conversation_ids, thread_ids, review_ids, IsFeedback,
}

abbrev item : Text → Text → Text → Item
item id decision plan_ref = record {
  source_id = id;
  kind = codes "comment";
  thread_id = [];
  author = codes "a";
  body = codes "b";
  path = [];
  line = 0;
  is_outdated = false;
  has_j_reply = false;
  decision = decision;
  reason = [];
  reply = [];
  plan_ref = plan_ref;
}

abbrev pub review : Text → List Item → ReviewFile
review decision items = record {
  schema_version = 1;
  provider = codes "github";
  fetched_at = 9;
  decision = decision;
  summary = [];
  pr = record {
    url = [];
    owner = [];
    repo = [];
    number = 1;
    state = [];
    draft = false;
    merged = false;
  };
  items = items;
}

abbrev fetched : ReviewFile
fetched = review [] (item (codes "c1") [] [] ∷ [])

abbrev planned : ReviewFile
planned =
    review (codes "changes_needed") (item (codes "c1") (codes "accepted") (codes "step 1") ∷ [])

planned_accepted : validate_post planned (snapshot_source_ids fetched.items) ≡ none
unfolding validate_post snapshot_source_ids text_eq
planned_accepted = refl

validate_post_lem_example :
    (validate_post planned (codes "c1" ∷ []) ≡ none)
    ↔ (IsConcluded planned × EachOnce (codes "c1" ∷ []) planned.items × All IsDecided planned.items)
validate_post_lem_example = validate_post_lem planned (codes "c1" ∷ [])

abbrev with_plan : RoundFiles
with_plan = record { plan = some 120; clarification = none }

abbrev talk : List ConversationComment
talk =
    record { id = codes "n1"; author = codes "ann"; body = codes "Please rename." }
    ∷ record { id = codes "n2"; author = codes "j"; body = reply_marker }
    ∷ []

abbrev threads : List ReviewThread
threads =
    record {
      id = codes "t";
      is_outdated = false;
      comments =
          record {
            id = codes "n3";
            author = codes "ann";
            body = codes "Why?";
            path = codes "a.go";
            line = 0;
            original_line = 7;
          }
          ∷ [];
    }
    ∷ []

abbrev reviews : List Review
reviews = record { id = codes "n4"; author = codes "ann"; body = [] } ∷ []

collect_items_lem_example :
    let items = collect_items (codes "j") talk threads reviews in
    (ids_of_items items
      ≡ conversation_ids (codes "j") talk
        ++ thread_ids (codes "j") threads
        ++ review_ids (codes "j") reviews)
    × All (IsFeedback (codes "j")) items
collect_items_lem_example = collect_items_lem (codes "j") talk threads reviews
