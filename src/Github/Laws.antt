-- ===== src/Github/Laws.antt =====
-- What becomes of the feedback.
use j.Prelude.{
  ℕ, ◌+◌, ◌≡◌, refl, ap, ◌∙◌, Bool, false, Text, List, [], ◌∷◌, ◌++◌, is_empty, All, Bool-cases,
  inl, inr, trim_space, if◌then◌else◌, map, not, ◌&&◌,
}
use j.Github.{
  ConversationComment, ReviewComment, ReviewThread, Review, FeedbackItem, is_reply,
  append_conversation_items, thread_items_from, collect_thread_items, append_review_summary_items,
  has_thread_reply, replied_ids, collect_items, conversation_source_id, review_comment_source_id,
  review_summary_source_id,
}

-- An item is feedback for `viewer`: not a reply that the viewer posted through j.
abbrev pub IsFeedback : Text → FeedbackItem → Type 0
IsFeedback viewer it = is_reply it.body it.author viewer ≡ false

conversation-IsFeedback :
    (viewer : Text) (replied : List Text) (conv : List ConversationComment)
    → All (IsFeedback viewer) (append_conversation_items viewer replied conv)
unfolding append_conversation_items
conversation-IsFeedback viewer replied [] = tt
conversation-IsFeedback viewer replied (c ∷ rest) =
    let ih = conversation-IsFeedback viewer replied rest in
    elim (Bool-cases (is_reply c.body c.author viewer)) [ inl y ↦ rw y ih | inr n ↦ rw n (n, ih) ]

All-++ :
    (viewer : Text) (s t : List FeedbackItem)
    → All (IsFeedback viewer) s
    → All (IsFeedback viewer) t
    → All (IsFeedback viewer) (s ++ t)
All-++ viewer [] t a b = b
All-++ viewer (x ∷ s) t a b = (a.0, All-++ viewer s t a.1 b)

thread-IsFeedback :
    (viewer : Text) (th : ReviewThread) (replied : ℕ → Bool) (i : ℕ) (cs : List ReviewComment)
    → All (IsFeedback viewer) (thread_items_from viewer th replied i cs)
unfolding thread_items_from
thread-IsFeedback viewer th replied i [] = tt
thread-IsFeedback viewer th replied i (c ∷ rest) =
    let ih = thread-IsFeedback viewer th replied (i + 1) rest in
    elim (Bool-cases (is_reply c.body c.author viewer)) [ inl y ↦ rw y ih | inr n ↦ rw n (n, ih) ]

threads-IsFeedback :
    (viewer : Text) (all ths : List ReviewThread)
    → All (IsFeedback viewer) (collect_thread_items viewer all ths)
unfolding collect_thread_items
threads-IsFeedback viewer all [] = tt
threads-IsFeedback viewer all (th ∷ ths) =
    All-++ viewer (thread_items_from viewer th (has_thread_reply viewer all th.id) 0 th.comments)
      (collect_thread_items viewer all ths)
      (thread-IsFeedback viewer th (has_thread_reply viewer all th.id) 0 th.comments)
      (threads-IsFeedback viewer all ths)

reviews-IsFeedback :
    (viewer : Text) (rs : List Review)
    → All (IsFeedback viewer) (append_review_summary_items viewer rs)
unfolding append_review_summary_items
reviews-IsFeedback viewer [] = tt
reviews-IsFeedback viewer (r ∷ rest) =
    let ih = reviews-IsFeedback viewer rest in
    elim (Bool-cases (is_empty (trim_space r.body))) [
      | inl b ↦ rw b ih
      | inr m ↦ elim (Bool-cases (is_reply r.body r.author viewer)) [
        | inl y ↦ rw (m, y) ih
        | inr n ↦ rw (m, n) (n, ih)
      ]
    ]

module _ {A : Type 0} where
  -- The elements that pass a test, in order.
  abbrev pub keep : (A → Bool) → List A → List A
  keep p [] = []
  keep p (x ∷ xs) = if p x then x ∷ keep p xs else keep p xs

abbrev pub ids_of_items : List FeedbackItem → List Text
ids_of_items = map (λ (it : FeedbackItem). it.source_id)

abbrev pub conversation_ids : Text → List ConversationComment → List Text
conversation_ids viewer conv =
    map (λ (c : ConversationComment). conversation_source_id c.id)
      (keep (λ (c : ConversationComment). not (is_reply c.body c.author viewer)) conv)

abbrev pub comment_ids : Text → List ReviewComment → List Text
comment_ids viewer cs =
    map (λ (c : ReviewComment). review_comment_source_id c.id)
      (keep (λ (c : ReviewComment). not (is_reply c.body c.author viewer)) cs)

abbrev pub thread_ids : Text → List ReviewThread → List Text
thread_ids viewer [] = []
thread_ids viewer (th ∷ ths) = comment_ids viewer th.comments ++ thread_ids viewer ths

abbrev pub review_ids : Text → List Review → List Text
review_ids viewer rs =
    map (λ (r : Review). review_summary_source_id r.id)
      (keep
        (λ (r : Review).
          not (is_empty (trim_space r.body)) && not (is_reply r.body r.author viewer))
        rs)

ids-++ : (s t : List FeedbackItem) → ids_of_items (s ++ t) ≡ ids_of_items s ++ ids_of_items t
ids-++ [] t = refl
ids-++ (x ∷ s) t = ap (λ l. x.source_id ∷ l) (ids-++ s t)

conversation_order :
    (viewer : Text) (replied : List Text) (conv : List ConversationComment)
    → ids_of_items (append_conversation_items viewer replied conv) ≡ conversation_ids viewer conv
unfolding append_conversation_items
conversation_order viewer replied [] = refl
conversation_order viewer replied (c ∷ rest) =
    let ih = conversation_order viewer replied rest in
    elim (Bool-cases (is_reply c.body c.author viewer)) [
      | inl y ↦ rw y ih
      | inr n ↦ rw n (ap (λ l. conversation_source_id c.id ∷ l) ih)
    ]

thread_order :
    (viewer : Text) (th : ReviewThread) (replied : ℕ → Bool) (i : ℕ) (cs : List ReviewComment)
    → ids_of_items (thread_items_from viewer th replied i cs) ≡ comment_ids viewer cs
unfolding thread_items_from
thread_order viewer th replied i [] = refl
thread_order viewer th replied i (c ∷ rest) =
    let ih = thread_order viewer th replied (i + 1) rest in
    elim (Bool-cases (is_reply c.body c.author viewer)) [
      | inl y ↦ rw y ih
      | inr n ↦ rw n (ap (λ l. review_comment_source_id c.id ∷ l) ih)
    ]

threads_order :
    (viewer : Text) (all ths : List ReviewThread)
    → ids_of_items (collect_thread_items viewer all ths) ≡ thread_ids viewer ths
unfolding collect_thread_items
threads_order viewer all [] = refl
threads_order viewer all (th ∷ ths) =
    let replied = has_thread_reply viewer all th.id in
    ids-++ (thread_items_from viewer th replied 0 th.comments) (collect_thread_items viewer all ths)
    ∙ ap (λ l. l ++ ids_of_items (collect_thread_items viewer all ths))
        (thread_order viewer th replied 0 th.comments)
    ∙ ap (λ l. comment_ids viewer th.comments ++ l) (threads_order viewer all ths)

reviews_order :
    (viewer : Text) (rs : List Review)
    → ids_of_items (append_review_summary_items viewer rs) ≡ review_ids viewer rs
unfolding append_review_summary_items
reviews_order viewer [] = refl
reviews_order viewer (r ∷ rest) =
    let ih = reviews_order viewer rest in
    elim (Bool-cases (is_empty (trim_space r.body))) [
      | inl b ↦ rw b ih
      | inr m ↦ elim (Bool-cases (is_reply r.body r.author viewer)) [
        | inl y ↦ rw (m, y) ih
        | inr n ↦ rw (m, n) (ap (λ l. review_summary_source_id r.id ∷ l) ih)
      ]
    ]

-- The items carry the source ids of the feedback, none lost, none added and none out of order: the
-- conversation's comments, then the threads' comments thread by thread, then the reviews with a
-- text that is not blank, each without the replies that the viewer posted through j; and no item is
-- such a reply.
pub collect_items_lem :
    (viewer : Text) (conv : List ConversationComment) (threads : List ReviewThread)
    (reviews : List Review)
    → let items = collect_items viewer conv threads reviews in
      (ids_of_items items
        ≡ conversation_ids viewer conv ++ thread_ids viewer threads ++ review_ids viewer reviews)
      × All (IsFeedback viewer) items
unfolding collect_items
collect_items_lem viewer conv threads reviews =
    let c = append_conversation_items viewer (replied_ids viewer conv) conv in
    let t = collect_thread_items viewer threads threads in
    let r = append_review_summary_items viewer reviews in
    (
      rw
          (
            ids-++ (c ++ t) r,
            ids-++ c t,
            conversation_order viewer (replied_ids viewer conv) conv,
            threads_order viewer threads threads,
            reviews_order viewer reviews,
          )
          refl,
      All-++ viewer (c ++ t) r
          (All-++ viewer c t (conversation-IsFeedback viewer (replied_ids viewer conv) conv)
            (threads-IsFeedback viewer threads threads))
          (reviews-IsFeedback viewer reviews),
    )
