-- ===== src/CodeReview/Run/Again.antt =====
-- Two runs of a code review, one behind the other.
use mathlib.Core.Path.{subst}
use j.Prelude.{
  ℕ, ◌≤◌, ◌<◌, ◌≡◌, ◌⊎◌, inl, inr, refl, sym, ap, ◌∙◌, Bool, true, false, Bool-cases, Text, List,
  Option, none, some, Option-cases, Result, ok, err, text_eq, text_eq_sound, trim_space, max_int,
  int_of, arith,
}
use j.Tasks.Row.{Task}
use j.Github.Url.{UrlError, PrRef, parse_url}
use j.Github.Fetch.{FetchError, FetchResult, fetch_pr}
use j.CodeReview.{ReviewFile, RoundFiles, clarification_needed, changes_needed, snapshot_source_ids}
use j.CodeReview.Laws.{has_artifacts, validate_round_lem}
use j.CodeReview.Rounds.{
  Rounds, Round, RoundContent, RoundFaults, round_dir, empty_round, new_round_at, parse_round_dir,
  entry_at, set_entry, has_clarification, resolve_or_allocate,
}
use j.CodeReview.Rounds.Numbers.{parse-name, numbers_pos, round_at-Has}
use j.CodeReview.Rounds.Laws.{
  InRange, IsBelow, Outcome, resolve_lem, resolve_over, set_entry-Has, has_clarification_at,
  entry_at-set_entry_self,
}
use j.CodeReview.Run.{
  ReviewEnv, Planner, content_of, review_at, files_at, written, fetched, loaded, save_review,
  review_of, prepare_round_review, execute_code_review_round,
}
use j.CodeReview.Run.Laws.{WentWell, went_well}

-- The planner touches the directory of its round alone, as its prompt asks.
abbrev pub StaysInRound : Planner → Type 0
StaysInRound planner =
    (round : Round) (resumed : Bool) (rounds : Rounds)
    → (c : RoundContent) × ((planner round resumed rounds).0
        ≡ set_entry round.name (round_dir c) rounds)

set_entry-IsBelow :
    (n : ℕ) (name : Text) (c : RoundContent) (rounds : Rounds)
    → parse_round_dir name ≡ some n
    → IsBelow n rounds
    → IsBelow n (set_entry name (round_dir c) rounds)
set_entry-IsBelow n name c rounds named below k there = elim (set_entry-Has name c rounds k there) [
  | inl e ↦ let same : n ≡ k = cc in omega arith
  | inr old ↦ below k old
]

written_in :
    (env : ReviewEnv) (round : Round) (rounds prepared : Rounds) (ids : List Text)
    (r : Result FetchError FetchResult)
    → written env round rounds r ≡ (ok ids, prepared)
    → (c : RoundContent) × (prepared ≡ set_entry round.name (round_dir c) rounds)
unfolding written save_review
written_in env round rounds prepared ids (err e) h = absurd (cc (ap (λ p. p.0) h))
written_in env round rounds prepared ids (ok res) h = (
  record (content_of (entry_at round.name rounds)) { review = some (review_of env.now res) },
  by_save (Bool-cases env.save_fails),
)
  where
    by_save :
        (env.save_fails ≡ true) ⊎ (env.save_fails ≡ false)
        → prepared
          ≡ set_entry round.name
              (round_dir (record (content_of (entry_at round.name rounds)) {
                review = some (review_of env.now res);
              }))
              rounds
    by_save (inl fails) = let h' = rw fails at h in absurd (cc (ap (λ p. p.0) h'))
    by_save (inr saved) = let h' = rw saved at h in sym (ap (λ p. p.1) h')

fetched_in :
    (env : ReviewEnv) (round : Round) (rounds prepared : Rounds) (ids : List Text)
    (r : Result UrlError PrRef)
    → fetched env round rounds r ≡ (ok ids, prepared)
    → (c : RoundContent) × (prepared ≡ set_entry round.name (round_dir c) rounds)
unfolding fetched
fetched_in env round rounds prepared ids (err e) h = absurd (cc (ap (λ p. p.0) h))
fetched_in env round rounds prepared ids (ok ref) h =
    written_in env round rounds prepared ids (fetch_pr env.pages env.server ref) h

loaded_in :
    (rounds prepared : Rounds) (ids : List Text) (o : Option ReviewFile)
    → loaded rounds o ≡ (ok ids, prepared)
    → prepared ≡ rounds
unfolding loaded
loaded_in rounds prepared ids none h = absurd (cc (ap (λ p. p.0) h))
loaded_in rounds prepared ids (some f) h = sym (ap (λ p. p.1) h)

-- The preparation touches the directory of its round alone.
prepared_in_round :
    (env : ReviewEnv) (row : Task) (round : Round) (resumed : Bool) (rounds prepared : Rounds)
    (ids : List Text)
    → prepare_round_review env row round resumed rounds ≡ (ok ids, prepared)
    → (prepared ≡ rounds)
      ⊎ ((c : RoundContent) × (prepared ≡ set_entry round.name (round_dir c) rounds))
unfolding prepare_round_review
prepared_in_round env row round true rounds prepared ids h =
    inl (loaded_in rounds prepared ids (review_at round.name rounds) h)
prepared_in_round env row round false rounds prepared ids h = inr (
    fetched_in env round rounds prepared ids (parse_url (env.url (trim_space row.pull_request_url)))
      h)

-- The number of the round that was chosen, among those that are there then.
chosen_number :
    (resumed : Bool) (rounds chosen : Rounds) (round : Round)
    → InRange rounds
    → Outcome resumed rounds round chosen
    → (n : ℕ) × (0 < n) × (n ≤ max_int) × (round ≡ new_round_at (int_of n)) × IsBelow n chosen
chosen_number true rounds chosen round range (n, there, most, is, asked, same) =
    let small = range n there in
    (n, numbers_pos rounds n there, omega arith, is, subst (IsBelow n) (sym same) most)
chosen_number false rounds chosen round range (n, pos, fits, above, is, free, new, settled) = (
  n,
  pos,
  fits,
  is,
  subst (IsBelow n) (sym new) (
      set_entry-IsBelow n round.name empty_round rounds
        (ap (λ r. parse_round_dir r.name) is ∙ parse-name n pos fits)
        (λ k there. let low = above k there in omega arith)),
)

prepared-IsBelow :
    (env : ReviewEnv) (row : Task) (round : Round) (resumed : Bool) (rounds prepared : Rounds)
    (ids : List Text) (n : ℕ)
    → prepare_round_review env row round resumed rounds ≡ (ok ids, prepared)
    → parse_round_dir round.name ≡ some n
    → IsBelow n rounds
    → IsBelow n prepared
prepared-IsBelow env row round resumed rounds prepared ids n h named below =
    elim (prepared_in_round env row round resumed rounds prepared ids h) [
      | inl same ↦ subst (IsBelow n) (sym same) below
      | inr (c, new) ↦
          subst (IsBelow n) (sym new) (set_entry-IsBelow n round.name c rounds named below)
    ]

-- The file of a round that its planner has just left is the planner's.
files-set_entry :
    (name : Text) (c : RoundContent) (rounds : Rounds)
    → files_at name (set_entry name (round_dir c) rounds) ≡ c.files
unfolding files_at content_of
files-set_entry name c rounds =
    ap (λ o. (content_of o).files) (entry_at-set_entry_self name (round_dir c) rounds)

asked_content :
    (f : ReviewFile) (files : RoundFiles)
    → has_artifacts f files ≡ true
    → text_eq f.decision clarification_needed ≡ true
    → (size : ℕ) × (files.clarification ≡ some size)
asked_content f files h asked =
    let named = text_eq_sound f.decision clarification_needed asked in
    let other : text_eq f.decision changes_needed ≡ false = rw named (unfold text_eq in refl) in
    elim (Option-cases files.clarification) [
      | inl missing ↦ absurd (ground (arith, h, asked, other, missing))
      | inr found ↦ found
    ]

-- The planner's directory behind the preparation of a round that was chosen.
taken_up :
    (round : Round) (prepared : Rounds) (n : ℕ) (c : RoundContent) (size : ℕ) (w : RoundFaults)
    → w.ensure_dir ≡ none
    → w.mkdir_root ≡ false
    → w.read_dir ≡ false
    → round ≡ new_round_at (int_of n)
    → parse_round_dir round.name ≡ some n
    → IsBelow n prepared
    → c.files.clarification ≡ some size
    → resolve_or_allocate w (set_entry round.name (round_dir c) prepared)
      ≡ (ok (round, true), set_entry round.name (round_dir c) prepared)
taken_up round prepared n c size w d m r is named below asked =
    let after = set_entry round.name (round_dir c) prepared in
    let at = entry_at-set_entry_self round.name (round_dir c) prepared in
    let clear = has_clarification_at round.name after c size at asked in
    subst (λ it. resolve_or_allocate w after ≡ (ok (it, true), after)) (sym is)
      (resolve_over w after n d m r (round_at-Has round.name after c n at named)
        (set_entry-IsBelow n round.name c prepared named below)
        (subst (λ it. has_clarification it.name after ≡ true) is clear))

well_asked :
    (env : ReviewEnv) (row : Task) (rounds after : Rounds) (file : ReviewFile) (round : Round)
    (w : RoundFaults)
    → StaysInRound env.planner
    → InRange rounds
    → (well : WentWell env row rounds after) → well.0 ≡ round
    → review_at round.name after ≡ some file
    → text_eq file.decision clarification_needed ≡ true
    → w.ensure_dir ≡ none
    → w.mkdir_root ≡ false
    → w.read_dir ≡ false
    → resolve_or_allocate w after ≡ (ok (round, true), after)
well_asked env row rounds after file round w stays range
      (it, resumed, chosen, prepared, basis, left, res, b, q, p, at, valid) same here asked d m r =
    let (n, pos, fits, is, below) =
      chosen_number resumed rounds chosen it range
        (resolve_lem env.faults rounds it resumed chosen range res) in
    let named : parse_round_dir it.name ≡ some n =
      ap (λ x. parse_round_dir x.name) is ∙ parse-name n pos fits in
    let (c, wrote) = stays it resumed prepared in
    let end : set_entry it.name (round_dir c) prepared ≡ after = sym wrote ∙ ap (λ x. x.0) p in
    let same_file : left ≡ file = cc (at, here, ap (λ x. review_at x.name after) same) in
    let artifacts =
      ((validate_round_lem left (snapshot_source_ids basis.items) (files_at it.name after)).0
        valid).1 in
    let (size, has) =
      asked_content left (files_at it.name after) artifacts
        (ap (λ f. text_eq f.decision clarification_needed) same_file ∙ asked) in
    let files : files_at it.name after ≡ c.files =
      ap (λ rs. files_at it.name rs) (sym end) ∙ files-set_entry it.name c prepared in
    let again =
      taken_up it prepared n c size w d m r is named
        (prepared-IsBelow env row it resumed chosen prepared (snapshot_source_ids basis.items) n q
          named below)
        (ap (λ (f : RoundFiles). f.clarification) (sym files) ∙ has) in
    let settled = subst (λ rs. resolve_or_allocate w rs ≡ (ok (it, true), rs)) end again in
    subst (λ x. resolve_or_allocate w after ≡ (ok (x, true), after)) same settled

-- A round that went well and whose file asks for a clarification is the one that the next call takes
-- up, as it was left, if the planner touches the directory of its round alone and no directory has
-- the largest number of an `int`.
pub asked_round_is_resumed :
    (env : ReviewEnv) (row : Task) (rounds after chosen : Rounds) (round : Round) (resumed : Bool)
    (file : ReviewFile) (w : RoundFaults)
    → StaysInRound env.planner
    → InRange rounds
    → execute_code_review_round env row rounds ≡ (none, after)
    → resolve_or_allocate env.faults rounds ≡ (ok (round, resumed), chosen)
    → review_at round.name after ≡ some file
    → text_eq file.decision clarification_needed ≡ true
    → w.ensure_dir ≡ none
    → w.mkdir_root ≡ false
    → w.read_dir ≡ false
    → resolve_or_allocate w after ≡ (ok (round, true), after)
asked_round_is_resumed env row rounds after chosen round resumed file w stays range h res at asked d
      m r =
    let well = went_well env row rounds after h in
    let same : well.0 ≡ round = cc (ap (λ x. x.0) (sym well.6 ∙ res)) in
    well_asked env row rounds after file round w stays range well same at asked d m r
