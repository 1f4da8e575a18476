-- ===== src/Github/Fetch.antt =====
-- fetch.go: the first page of a pull request, the check of its state, and the pages behind the
-- first. What the transport answers is the argument `Server`.
pub mod Drained
pub mod Whole
use j.Prelude.{
  ℕ, zero, suc, ◌+◌, Bool, true, false, Text, codes, List, [], ◌∷◌, ◌++◌, map, Option, none, some,
  Result, ok, err, text_eq, leb, ◌&&◌, if◌then◌else◌,
}
use j.Github.{ConversationComment, ReviewThread, Review, FeedbackItem, collect_items}
use j.Github.Url.{PrRef}

pub record PageInfo : Type 0 where
  pub end_cursor : Text
  pub has_next_page : Bool

-- A page of a connection: its nodes, and where the next one begins.
abbrev pub Page : Type 0 → Type 0
Page N = PageInfo × List N

pub record FirstPage : Type 0 where
  pub url : Text
  pub state : Text
  pub is_draft : Bool
  pub merged : Bool
  pub comments : Page ConversationComment
  pub review_threads : Page ReviewThread
  pub reviews : Page Review

pub data FetchError : Type 0 where
  transport : Text → FetchError  -- what Client.do returns
  not_found closed merged_pr draft : FetchError
  fetch_running : FetchError  -- the fuel ran out

-- The answers to the queries, by the cursor where they take one. `first` is `none` where the
-- repository or the pull request is missing.
pub record Server : Type 0 where
  pub viewer : Result Text Text
  pub first : Result Text (Option FirstPage)
  pub comments_after : Text → Result Text (Page ConversationComment)
  pub threads_after : Text → Result Text (Page ReviewThread)
  pub reviews_after : Text → Result Text (Page Review)

module _ {N : Type 0} where
  -- One turn of the loop of fetchPaged, before the turns behind it.
  next_page :
      (PageInfo → List N → Result FetchError (List N))
      → List N
      → Result Text (Page N)
      → Result FetchError (List N)
  next_page turn out (err e) = err (transport e)
  next_page turn out (ok (info, nodes)) = turn info (out ++ nodes)

  -- fetchPaged. The fuel bounds the pages that are asked for.
  unfoldable pub fetch_paged :
      ℕ → (Text → Result Text (Page N)) → PageInfo → List N → Result FetchError (List N)
  unfolding next_page
  fetch_paged zero server info out = if info.has_next_page then err fetch_running else ok out
  fetch_paged (suc fuel) server info out =
      let rest = next_page (fetch_paged fuel server) out (server info.end_cursor) in
      if info.has_next_page then rest else ok out

-- guardState, `none` where it accepts.
unfoldable pub guard_state : Text → Bool → Bool → Option FetchError
guard_state state merged is_draft =
    if merged
    then some merged_pr
    else if text_eq state (codes "CLOSED")
    then some closed
    else if is_draft
    then some draft
    else none

pub record Connections : Type 0 where
  pub conv : List ConversationComment
  pub threads : List ReviewThread
  pub reviews : List Review

fetched_all :
    Result FetchError (List ConversationComment)
    → Result FetchError (List ReviewThread)
    → Result FetchError (List Review)
    → Result FetchError Connections
fetched_all (err e) threads reviews = err e
fetched_all (ok conv) (err e) reviews = err e
fetched_all (ok conv) (ok threads) (err e) = err e
fetched_all (ok conv) (ok threads) (ok reviews) =
    ok (record { conv = conv; threads = threads; reviews = reviews })

unfoldable pub fetch_remaining : ℕ → Server → FirstPage → Result FetchError Connections
unfolding fetched_all
fetch_remaining fuel s first =
    fetched_all (fetch_paged fuel s.comments_after first.comments.0 first.comments.1)
      (fetch_paged fuel s.threads_after first.review_threads.0 first.review_threads.1)
      (fetch_paged fuel s.reviews_after first.reviews.0 first.reviews.1)

-- strings.ToLower, on the letters that GitHub's states are spelled with.
lower : ℕ → ℕ
lower c = if leb b'A' c && leb c b'Z' then c + 32 else c

pub record PrHeader : Type 0 where
  pub url : Text
  pub owner : Text
  pub repo : Text
  pub number : ℕ
  pub state : Text
  pub draft : Bool
  pub merged : Bool

pub record FetchResult : Type 0 where
  pub pr : PrHeader
  pub items : List FeedbackItem

pub header_of : PrRef → FirstPage → PrHeader
unfolding lower
header_of ref first = record {
  url = first.url;
  owner = ref.owner;
  repo = ref.repo;
  number = ref.number;
  state = map lower first.state;
  draft = first.is_draft;
  merged = first.merged;
}

collected : Text → PrHeader → Result FetchError Connections → Result FetchError FetchResult
collected viewer pr (err e) = err e
collected viewer pr (ok c) =
    ok (record { pr = pr; items = collect_items viewer c.conv c.threads c.reviews })

guarded : Option FetchError → Result FetchError FetchResult → Result FetchError FetchResult
guarded (some e) rest = err e
guarded none rest = rest

-- fetchPRFirstPage, and FetchPR behind it.
behind_first :
    ℕ → Server → PrRef → Text → Result Text (Option FirstPage) → Result FetchError FetchResult
unfolding guarded collected header_of fetch_remaining
behind_first fuel s ref viewer (err e) = err (transport e)
behind_first fuel s ref viewer (ok none) = err not_found
behind_first fuel s ref viewer (ok (some first)) =
    guarded (guard_state first.state first.merged first.is_draft)
      (collected viewer (header_of ref first) (fetch_remaining fuel s first))

behind_viewer : ℕ → Server → PrRef → Result Text Text → Result FetchError FetchResult
unfolding behind_first
behind_viewer fuel s ref (err e) = err (transport e)
behind_viewer fuel s ref (ok viewer) = behind_first fuel s ref viewer s.first

unfoldable pub fetch_pr : ℕ → Server → PrRef → Result FetchError FetchResult
unfolding behind_viewer
fetch_pr fuel s ref = behind_viewer fuel s ref s.viewer
