-- ===== src/Github/Fetch/Whole.antt =====
-- The whole feedback of a pull request is fetched, or the pull request is refused by its state.
use j.Prelude.{
  ℕ, ◌≤◌, ◌≡◌, refl, Text, codes, List, ◌++◌, some, ok, err, arith, text_eq, if◌then◌else◌,
}
use j.Github.{ConversationComment, ReviewThread, Review, collect_items}
use j.Github.Url.{PrRef}
use j.Github.Fetch.{
  FirstPage, Server, merged_pr, closed, draft, guard_state, fetch_pr, fetch_remaining, fetched_all,
  behind_viewer, behind_first, header_of,
}
use j.Github.Fetch.Drained.{Behind, fetch_paged_lem}

-- The pages of a pull request: the first ones, and what stands behind each of them.
pub record Feedback (s : Server) (first : FirstPage) : Type 0 where
  pub comments : List ConversationComment
  pub threads : List ReviewThread
  pub reviews : List Review
  pub comment_pages : ℕ
  pub thread_pages : ℕ
  pub review_pages : ℕ
  pub comments_behind : Behind s.comments_after first.comments.0 comments comment_pages
  pub threads_behind : Behind s.threads_after first.review_threads.0 threads thread_pages
  pub reviews_behind : Behind s.reviews_after first.reviews.0 reviews review_pages

remaining_lem :
    (s : Server) (first : FirstPage) (f : Feedback s first) (fuel : ℕ)
    → f.comment_pages ≤ fuel
    → f.thread_pages ≤ fuel
    → f.review_pages ≤ fuel
    → fetch_remaining fuel s first
      ≡ ok (record {
        conv = first.comments.1 ++ f.comments;
        threads = first.review_threads.1 ++ f.threads;
        reviews = first.reviews.1 ++ f.reviews;
      })
unfolding fetch_remaining
remaining_lem s first f fuel c t r =
    rw
      (
        fetch_paged_lem s.comments_after first.comments.1 fuel f.comments_behind c,
        fetch_paged_lem s.threads_after first.review_threads.1 fuel f.threads_behind t,
        fetch_paged_lem s.reviews_after first.reviews.1 fuel f.reviews_behind r,
      )
      (unfold fetched_all in refl)

-- FetchPR returns, for a viewer and a pull request that can be read and whose pages all come: a
-- merged, a closed and a draft pull request are refused in that order, and any other one gives the
-- items of all comments, threads and reviews of all pages, in order.
pub fetch_pr_lem :
    (s : Server) (ref : PrRef) (viewer : Text) (first : FirstPage) (f : Feedback s first) (fuel : ℕ)
    → s.viewer ≡ ok viewer
    → s.first ≡ ok (some first)
    → f.comment_pages ≤ fuel
    → f.thread_pages ≤ fuel
    → f.review_pages ≤ fuel
    → fetch_pr fuel s ref ≡ (
        if first.merged
        then err merged_pr
        else if text_eq first.state (codes "CLOSED")
        then err closed
        else if first.is_draft
        then err draft
        else ok (record {
          pr = header_of ref first;
          items =
              collect_items viewer
                (first.comments.1 ++ f.comments)
                (first.review_threads.1 ++ f.threads)
                (first.reviews.1 ++ f.reviews);
        }))
unfolding fetch_pr guard_state
fetch_pr_lem s ref viewer first f fuel v h c t r =
    rw (v, behind_viewer, h, behind_first, remaining_lem s first f fuel c t r) (ground arith)
