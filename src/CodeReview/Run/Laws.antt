-- ===== src/CodeReview/Run/Laws.antt =====
-- What a round of a code review leaves, and that it gives its lock back.
use mathlib.Core.Path.{subst}
use j.Prelude.{
  ◌≡◌, ◌⊎◌, inl, inr, refl, ap, ◌∙◌, Bool, true, false, Bool-cases, Text, List, Option, none, some,
  Result, ok, err, trim_space, ◌==◌, if◌then◌else◌,
}
use j.Tasks.Row.{Task}
use j.Github.Url.{UrlError, PrRef, parse_url}
use j.Github.Fetch.{FetchError, FetchResult, fetch_pr}
use j.CodeReview.{ReviewFile, ReviewError, snapshot_source_ids, validate_round, count_id}
use j.CodeReview.Laws.{feedback_is_kept, validate_round_lem, has_artifacts}
use j.CodeReview.Rounds.{Rounds, Round, Resolved, resolve_or_allocate}
use j.CodeReview.Run.{
  ReviewEnv, Prepared, review_of, review_at, files_at, written, fetched, loaded,
  prepare_round_review, refused, checked, validate_review_round, planned, behind_round,
  execute_code_review_round,
}

-- The file whose feedback a round works on: the one that the round before it left, for a round that is
-- resumed, or the one that is made of what GitHub answers.
abbrev pub Basis : ReviewEnv → Task → Rounds → Round → Bool → ReviewFile → Type 0
Basis env row rounds round true f = review_at round.name rounds ≡ some f
Basis env row rounds round false f =
    (ref : PrRef) × (res : FetchResult) × (parse_url (env.url (trim_space row.pull_request_url))
      ≡ ok ref)
    × (fetch_pr env.pages env.server ref ≡ ok res)
    × (f ≡ review_of env.now res)

module _ (env : ReviewEnv) (round : Round) (rounds : Rounds) (ids : List Text)
    (after : Rounds) where
  written_ok :
      (r : Result FetchError FetchResult)
      → written env round rounds r ≡ (ok ids, after)
      → (res : FetchResult) × (r ≡ ok res)
        × (ids ≡ snapshot_source_ids (review_of env.now res).items)
  unfolding written
  written_ok (err e) h = absurd (cc (ap (λ p. p.0) h))
  written_ok (ok res) h = (res, refl, ids_of (Bool-cases env.save_fails))
    where
      ids_of :
          (env.save_fails ≡ true) ⊎ (env.save_fails ≡ false)
          → ids ≡ snapshot_source_ids (review_of env.now res).items
      ids_of (inl fails) = let h' = rw fails at h in absurd (cc (ap (λ p. p.0) h'))
      ids_of (inr saved) = let h' = rw saved at h in cc (ap (λ p. p.0) h')

  fetched_ok :
      (r : Result UrlError PrRef)
      → fetched env round rounds r ≡ (ok ids, after)
      → (ref : PrRef) × (res : FetchResult) × (r ≡ ok ref)
        × (fetch_pr env.pages env.server ref ≡ ok res)
        × (ids ≡ snapshot_source_ids (review_of env.now res).items)
  unfolding fetched
  fetched_ok (err e) h = absurd (cc (ap (λ p. p.0) h))
  fetched_ok (ok ref) h =
      let (res, e, i) = written_ok (fetch_pr env.pages env.server ref) h in (ref, res, refl, e, i)

  loaded_ok :
      (o : Option ReviewFile)
      → loaded rounds o ≡ (ok ids, after)
      → (f : ReviewFile) × (o ≡ some f) × (ids ≡ snapshot_source_ids f.items)
  unfolding loaded
  loaded_ok none h = absurd (cc (ap (λ p. p.0) h))
  loaded_ok (some f) h = (f, refl, cc (ap (λ p. p.0) h))

  prepared_ok :
      (row : Task) (resumed : Bool)
      → prepare_round_review env row round resumed rounds ≡ (ok ids, after)
      → (f : ReviewFile) × Basis env row rounds round resumed f
        × (ids ≡ snapshot_source_ids f.items)
  unfolding prepare_round_review
  prepared_ok row true h = loaded_ok (review_at round.name rounds) h
  prepared_ok row false h =
      let (ref, res, p, e, i) =
        fetched_ok (parse_url (env.url (trim_space row.pull_request_url))) h in
      (review_of env.now res, (ref, res, p, e, refl), i)

refused-none : (o : Option ReviewError) → refused o ≡ none → o ≡ none
unfolding refused
refused-none none h = refl
refused-none (some e) h = cc

checked_ok :
    (round : Round) (ids : List Text) (rounds : Rounds) (o : Option ReviewFile)
    → checked round ids rounds o ≡ none
    → (f : ReviewFile) × (o ≡ some f) × (validate_round f ids (files_at round.name rounds) ≡ none)
unfolding checked refused
checked_ok round ids rounds none h = absurd (cc)
checked_ok round ids rounds (some f) h =
    (f, refl, refused-none (validate_round f ids (files_at round.name rounds)) h)

-- What a round that went well leaves: the rounds between its choice and the planner, its basis, and
-- the planner's file behind it.
abbrev pub WentWell : ReviewEnv → Task → Rounds → Rounds → Type 0
WentWell env row rounds after =
    (round : Round) × (resumed : Bool) × (chosen : Rounds) × (prepared : Rounds)
    × (basis : ReviewFile) × (file : ReviewFile) × (resolve_or_allocate env.faults rounds
        ≡ (ok (round, resumed), chosen))
    × Basis env row chosen round resumed basis
    × (prepare_round_review env row round resumed chosen
        ≡ (ok (snapshot_source_ids basis.items), prepared))
    × (env.planner round resumed prepared ≡ (after, false))
    × (review_at round.name after ≡ some file)
    × (validate_round file (snapshot_source_ids basis.items) (files_at round.name after) ≡ none)

planned_ok :
    (env : ReviewEnv) (row : Task) (rounds chosen after : Rounds) (round : Round) (resumed : Bool)
    (p : Prepared)
    → resolve_or_allocate env.faults rounds ≡ (ok (round, resumed), chosen)
    → prepare_round_review env row round resumed chosen ≡ p
    → planned env round resumed p ≡ (none, after)
    → WentWell env row rounds after
unfolding planned validate_review_round
planned_ok env row rounds chosen after round resumed (err e, prepared) r q h =
    absurd (cc (ap (λ p. p.0) h))
planned_ok env row rounds chosen after round resumed (ok ids, prepared) r q h =
    by_failure (Bool-cases (env.planner round resumed prepared).1)
  where
    by_failure :
        ((env.planner round resumed prepared).1 ≡ true)
          ⊎ ((env.planner round resumed prepared).1 ≡ false)
        → WentWell env row rounds after
    by_failure (inl failed) = let h' = rw failed at h in absurd (cc (ap (λ p. p.0) h'))
    by_failure (inr fine) =
        let h' = rw fine at h in
        let end : (env.planner round resumed prepared).0 ≡ after = ap (λ p. p.1) h' in
        let (f, basis, i) = prepared_ok env round chosen ids prepared row resumed q in
        let valid = ap (λ p. p.0) h' in
        let valid' = subst (λ r. validate_review_round round ids r ≡ none) end valid in
        let (file, at, sound) = checked_ok round ids after (review_at round.name after) valid' in
        (
          round,
          resumed,
          chosen,
          prepared,
          f,
          file,
          r,
          basis,
          q ∙ ap (λ k. (ok k, prepared)) i,
          λ j. (end j, fine j),
          at,
          subst (λ k. validate_round file k (files_at round.name after) ≡ none) i sound,
        )

behind_ok :
    (env : ReviewEnv) (row : Task) (rounds after : Rounds) (r : Resolved)
    → resolve_or_allocate env.faults rounds ≡ r
    → behind_round env row r ≡ (none, after)
    → WentWell env row rounds after
unfolding behind_round
behind_ok env row rounds after (err e, chosen) r h = absurd (cc (ap (λ p. p.0) h))
behind_ok env row rounds after (ok (round, resumed), chosen) r h =
    planned_ok env row rounds chosen after round resumed
      (prepare_round_review env row round resumed chosen) r refl h

pub went_well :
    (env : ReviewEnv) (row : Task) (rounds after : Rounds)
    → execute_code_review_round env row rounds ≡ (none, after)
    → WentWell env row rounds after
unfolding execute_code_review_round
went_well env row rounds after h =
    behind_ok env row rounds after (resolve_or_allocate env.faults rounds) refl h

-- A round of a code review that went well, whatever the planner did: the round that it chose holds a
-- review file behind it with what its decision needs, and the file carries each id of the feedback
-- once and no other id. The feedback is what GitHub answers, for a new round, and the file that was
-- left, for one that is resumed.
pub round_keeps_feedback :
    (env : ReviewEnv) (row : Task) (rounds after : Rounds)
    → execute_code_review_round env row rounds ≡ (none, after)
    → (round : Round) × (resumed : Bool) × (chosen : Rounds) × (basis file : ReviewFile)
      × (resolve_or_allocate env.faults rounds ≡ (ok (round, resumed), chosen))
      × Basis env row chosen round resumed basis
      × (review_at round.name after ≡ some file)
      × (has_artifacts file (files_at round.name after) ≡ true)
      × ((id : Text) → count_id id file.items ≡ (if count_id id basis.items == 0 then 0 else 1))
round_keeps_feedback env row rounds after h =
    let (round, resumed, chosen, prepared, basis, file, r, b, q, p, at, valid) =
      went_well env row rounds after h in
    let (post, artifacts) =
      (validate_round_lem file (snapshot_source_ids basis.items) (files_at round.name after)).0
        valid in
    (
      round,
      resumed,
      chosen,
      basis,
      file,
      r,
      b,
      at,
      artifacts,
      λ id. feedback_is_kept basis file id post,
    )
