-- ===== src/Github.antt =====
-- internal/tools/github: the feedback of a pull request as one list of items, without the replies
-- that j itself has posted. A comment's author is the login.
pub mod Laws
pub mod Url
pub mod Fetch
use j.Prelude.{
  ℕ, zero, suc, ◌+◌, Bool, true, false, Text, codes, List, [], ◌∷◌, ◌++◌, Option, none, some,
  is_empty, text_eq, trim_space, contains, ◌==◌, ◌&&◌, not, if◌then◌else◌,
}

pub record ConversationComment : Type 0 where
  pub id : Text
  pub author : Text
  pub body : Text

pub record ReviewComment : Type 0 where
  pub id : Text
  pub author : Text
  pub body : Text
  pub path : Text
  pub line : ℕ
  pub original_line : ℕ

pub record ReviewThread : Type 0 where
  pub id : Text
  pub is_outdated : Bool
  pub comments : List ReviewComment

-- The state of a review is fetched and not read.
pub record Review : Type 0 where
  pub id : Text
  pub author : Text
  pub body : Text

pub data ItemKind : Type 0 where
  conversation_comment review_comment review_summary : ItemKind

pub record FeedbackItem : Type 0 where
  pub source_id : Text
  pub kind : ItemKind
  pub thread_id : Text
  pub author : Text
  pub body : Text
  pub path : Text
  pub line : ℕ
  pub is_outdated : Bool
  pub has_j_reply : Bool

abbrev pub reply_marker : Text
reply_marker = codes "<!-- j-code-review-reply -->"

unfoldable pub is_reply : Text → Text → Text → Bool
is_reply body author viewer =
    if is_empty viewer
    then false
    else if is_empty author
    then false
    else if not (contains body reply_marker)
    then false
    else text_eq author viewer

abbrev pub conversation_source_id : Text → Text
conversation_source_id id = codes "issue-comment:" ++ id

abbrev pub review_comment_source_id : Text → Text
review_comment_source_id id = codes "review-comment:" ++ id

abbrev pub review_summary_source_id : Text → Text
review_summary_source_id id = codes "review-summary:" ++ id

-- The conversation's part of collectReplyAuthors: the source ids that a reply follows.
unfoldable pub replied_ids : Text → List ConversationComment → List Text
replied_ids viewer [] = []
replied_ids viewer (p ∷ []) = []
replied_ids viewer (p ∷ c ∷ rest) =
    let ids = replied_ids viewer (c ∷ rest) in
    if is_reply c.body c.author viewer then conversation_source_id p.id ∷ ids else ids

has_id : Text → List Text → Bool
has_id id [] = false
has_id id (x ∷ xs) = let rest = has_id id xs in if text_eq x id then true else rest

-- collectThreadReplyIndex, at one position.
unfoldable pub reply_follows : Text → List ReviewComment → ℕ → Bool
reply_follows viewer [] i = false
reply_follows viewer (c ∷ []) i = false
reply_follows viewer (c ∷ d ∷ rest) zero = is_reply d.body d.author viewer
reply_follows viewer (c ∷ d ∷ rest) (suc i) = reply_follows viewer (d ∷ rest) i

has_thread : Text → List ReviewThread → Bool
has_thread id [] = false
has_thread id (th ∷ ths) = let rest = has_thread id ths in if text_eq th.id id then true else rest

-- The index holds one entry for a thread id, the last thread's.
unfoldable pub has_thread_reply : Text → List ReviewThread → Text → ℕ → Bool
unfolding reply_follows has_thread
has_thread_reply viewer [] id i = false
has_thread_reply viewer (th ∷ ths) id i =
    let later = has_thread_reply viewer ths id i in
    if has_thread id ths
    then later
    else if text_eq th.id id
    then reply_follows viewer th.comments i
    else false

unfoldable pub append_conversation_items :
    Text → List Text → List ConversationComment → List FeedbackItem
unfolding has_id
append_conversation_items viewer replied [] = []
append_conversation_items viewer replied (c ∷ rest) =
    let items = append_conversation_items viewer replied rest in
    if is_reply c.body c.author viewer
    then items
    else record {
      source_id = conversation_source_id c.id;
      kind = conversation_comment;
      thread_id = [];
      author = c.author;
      body = c.body;
      path = [];
      line = 0;
      is_outdated = false;
      has_j_reply = has_id (conversation_source_id c.id) replied;
    }
      ∷ items

abbrev comment_line : ReviewComment → ℕ
comment_line c = if c.line == 0 then c.original_line else c.line

-- The loop of collectThreadItems, from position `i`; `replied` is hasThreadReply on the thread.
unfoldable pub thread_items_from :
    Text → ReviewThread → (ℕ → Bool) → ℕ → List ReviewComment → List FeedbackItem
thread_items_from viewer th replied i [] = []
thread_items_from viewer th replied i (c ∷ rest) =
    let items = thread_items_from viewer th replied (i + 1) rest in
    if is_reply c.body c.author viewer
    then items
    else record {
      source_id = review_comment_source_id c.id;
      kind = review_comment;
      thread_id = th.id;
      author = c.author;
      body = c.body;
      path = c.path;
      line = comment_line c;
      is_outdated = th.is_outdated;
      has_j_reply = replied i;
    }
      ∷ items

unfoldable pub collect_thread_items :
    Text → List ReviewThread → List ReviewThread → List FeedbackItem
unfolding has_thread_reply thread_items_from
collect_thread_items viewer all [] = []
collect_thread_items viewer all (th ∷ ths) =
    thread_items_from viewer th (has_thread_reply viewer all th.id) 0 th.comments
    ++ collect_thread_items viewer all ths

unfoldable pub append_review_summary_items : Text → List Review → List FeedbackItem
append_review_summary_items viewer [] = []
append_review_summary_items viewer (r ∷ rest) =
    let items = append_review_summary_items viewer rest in
    if is_empty (trim_space r.body)
    then items
    else if is_reply r.body r.author viewer
    then items
    else record {
      source_id = review_summary_source_id r.id;
      kind = review_summary;
      thread_id = [];
      author = r.author;
      body = r.body;
      path = [];
      line = 0;
      is_outdated = false;
      has_j_reply = false;
    }
      ∷ items

unfoldable pub collect_items :
    Text → List ConversationComment → List ReviewThread → List Review → List FeedbackItem
unfolding append_conversation_items collect_thread_items append_review_summary_items replied_ids
collect_items viewer conv threads reviews =
    append_conversation_items viewer (replied_ids viewer conv) conv
    ++ collect_thread_items viewer threads threads
    ++ append_review_summary_items viewer reviews
