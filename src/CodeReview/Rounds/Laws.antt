-- ===== src/CodeReview/Rounds/Laws.antt =====
-- Which round a review works on: a new one behind all others, or the last one again.
use mathlib.Core.Path.{subst}
use j.Prelude.{
  ℕ, ◌+◌, ◌≤◌, ◌<◌, ◌≡◌, ◌≢◌, ◌⊎◌, inl, inr, refl, sym, ap, ◌∙◌, Bool, true, false, Bool-cases,
  Text, [], ◌∷◌, Option, none, some, Result, ok, err, text_eq, text_eq_sound, text_eq_refl, int_of,
  int_succ, max_int, arith,
}
use j.CodeReview.Rounds.{
  Rounds, Round, RoundEntry, RoundContent, RoundFaults, RoundError, stray_file, round_dir,
  empty_round, new_round_at, parse_round_dir, round_numbers, list_round_numbers, last, entry_at,
  set_entry, has_clarification, clarification_in, made, allocated, allocate, resolve_behind,
  resolve_or_allocate,
}
use j.CodeReview.Rounds.Latest.{Has, last-sort, last-sort-none, last-sort-largest}
use j.CodeReview.Rounds.Numbers.{parse-name, on_list-Has, Has-on_list, round_at-Has}

-- No number of a round is the last that an `int` holds.
abbrev pub InRange : Rounds → Type 0
InRange rounds = (k : ℕ) → Has k (round_numbers rounds) → k < max_int

-- The last round asked for a clarification, and is taken up again.
abbrev pub Resumes : Rounds → Round → Rounds → Type 0
Resumes rounds round after =
    (n : ℕ) × Has n (round_numbers rounds)
    × ((k : ℕ) → Has k (round_numbers rounds) → k ≤ n)
    × (round ≡ new_round_at (int_of n))
    × (has_clarification round.name rounds ≡ true)
    × (after ≡ rounds)

-- The round with the largest number holds no clarification.md.
abbrev pub IsSettled : Rounds → Type 0
IsSettled rounds =
    (k : ℕ)
    → Has k (round_numbers rounds)
    → ((j : ℕ) → Has j (round_numbers rounds) → j ≤ k)
    → has_clarification (new_round_at (int_of k)).name rounds ≡ false

-- A new directory, under a number above all others and a name that nothing had.
abbrev pub Allocates : Rounds → Round → Rounds → Type 0
Allocates rounds round after =
    (n : ℕ) × (0 < n)
    × (n ≤ max_int)
    × ((k : ℕ) → Has k (round_numbers rounds) → k < n)
    × (round ≡ new_round_at (int_of n))
    × (entry_at round.name rounds ≡ none)
    × (after ≡ set_entry round.name (round_dir empty_round) rounds)
    × IsSettled rounds

abbrev pub Outcome : Bool → Rounds → Round → Rounds → Type 0
Outcome true = Resumes
Outcome false = Allocates

not_a_round :
    (n : ℕ) (rounds : Rounds) (c : RoundContent)
    → 0 < n
    → n ≤ max_int
    → ((k : ℕ) → Has k (round_numbers rounds) → k < n)
    → entry_at (new_round_at (int_of n)).name rounds ≢ some (round_dir c)
not_a_round n rounds c pos fits above at =
    let again = above n (round_at-Has _ rounds c n at (parse-name n pos fits)) in
    absurd (omega arith)

made_new :
    (w : RoundFaults) (round : Round) (rounds : Rounds) (o : Option RoundEntry) (after : Rounds)
    → ((c : RoundContent) → o ≢ some (round_dir c))
    → made w round rounds o ≡ ok after
    → (o ≡ none) × (after ≡ set_entry round.name (round_dir empty_round) rounds)
unfolding made
made_new w round rounds none after new h = (refl, ground (arith, h))
made_new w round rounds (some stray_file) after new h = absurd (cc)
made_new w round rounds (some (round_dir c)) after new h = absurd (new c refl)

allocated_ok :
    (round r : Round) (rounds after : Rounds) (b : Bool) (m : Result RoundError Rounds)
    → allocated round rounds m ≡ (ok (r, b), after)
    → (r ≡ round) × (b ≡ false) × (m ≡ ok after)
unfolding allocated
allocated_ok round r rounds after b (err e) h = absurd (cc (ap (λ p. p.0) h))
allocated_ok round r rounds after b (ok s) h =
    (cc (ap (λ p. p.0) h), cc (ap (λ p. p.0) h), ap (λ t. ok t) (ap (λ p. p.1) h))

allocate_ok :
    (w : RoundFaults) (n : ℕ) (rounds : Rounds) (round : Round) (b : Bool) (after : Rounds)
    → 0 < n
    → n ≤ max_int
    → ((k : ℕ) → Has k (round_numbers rounds) → k < n)
    → IsSettled rounds
    → allocate w (int_of n) rounds ≡ (ok (round, b), after)
    → (b ≡ false) × Allocates rounds round after
unfolding allocate
allocate_ok w n rounds round b after pos fits above settled h =
    let it = new_round_at (int_of n) in
    let (same, fresh, m) =
      allocated_ok it round rounds after b (made w it rounds (entry_at it.name rounds)) h in
    let (free, new) =
      made_new w it rounds (entry_at it.name rounds) after
        (λ c. not_a_round n rounds c pos fits above) m in
    (fresh, (n, pos, fits, above, same, rw same free, rw same new, settled))

succ_in_range : (n : ℕ) → n < max_int → int_succ n ≡ int_of (n + 1)
unfolding int_succ
succ_in_range n h = ground arith

behind_ok :
    (w : RoundFaults) (rounds : Rounds) (o : Option ℕ) (round : Round) (resumed : Bool)
    (after : Rounds)
    → last (list_round_numbers rounds) ≡ o
    → InRange rounds
    → resolve_behind w rounds o ≡ (ok (round, resumed), after)
    → Outcome resumed rounds round after
unfolding resolve_behind list_round_numbers
behind_ok w rounds none round resumed after e range h =
    let (fresh, new) =
      allocate_ok w 1 rounds round resumed after (omega arith) (omega arith)
        (λ k there. absurd (last-sort-none (round_numbers rounds) k e there))
        (λ k there. absurd (last-sort-none (round_numbers rounds) k e there)) h in
    subst (λ b. Outcome b rounds round after) (sym fresh) new
behind_ok w rounds (some n) round resumed after e range h =
    let it = new_round_at (int_of n) in
    let (there, most) = last-sort (round_numbers rounds) n e in
    let small = range n there in
    elim (Bool-cases (has_clarification it.name rounds)) [
      | inl asked ↦
          let back = rw asked at h in
          let same : it ≡ round = cc (ap (λ p. p.0) back) in
          let kind : true ≡ resumed = cc (ap (λ p. p.0) back) in
          subst (λ b. Outcome b rounds round after) kind
            (
              n,
              there,
              most,
              sym same,
              subst (λ r. has_clarification r.name rounds ≡ true) same asked,
              sym (ap (λ p. p.1) back),
            )
      | inr settled ↦
          let next = rw (settled, succ_in_range n small) at h in
          let (fresh, new) =
            allocate_ok w (n + 1) rounds round resumed after (omega arith) (omega arith)
              (λ k has. let low = most k has in omega arith)
              (λ k has largest.
                let low = most k has in
                let high = largest n there in
                let one : n ≡ k = omega arith in
                subst (λ m. has_clarification (new_round_at (int_of m)).name rounds ≡ false) one
                  settled)
              next in
          subst (λ b. Outcome b rounds round after) (sym fresh) new
    ]

-- ResolveOrAllocate, where it succeeds and no directory has the largest number of an `int`: either
-- the round with the largest number holds a clarification.md, is resumed, and no directory changes;
-- or it holds none, or there is no round, and an empty directory is made under a number above all
-- others and a name that nothing had, beside the entries that were there.
pub resolve_lem :
    (w : RoundFaults) (rounds : Rounds) (round : Round) (resumed : Bool) (after : Rounds)
    → InRange rounds
    → resolve_or_allocate w rounds ≡ (ok (round, resumed), after)
    → Outcome resumed rounds round after
unfolding resolve_or_allocate
resolve_lem w rounds round resumed after range h =
    behind_ok w rounds (last (list_round_numbers rounds)) round resumed after refl range
      (ground (arith, h))

pub entry_at-set_entry_self :
    (name : Text) (e : RoundEntry) (rounds : Rounds)
    → entry_at name (set_entry name e rounds) ≡ some e
unfolding entry_at set_entry
entry_at-set_entry_self name e [] = ground (arith, text_eq_refl name)
entry_at-set_entry_self name e ((other, old) ∷ rest) =
    ground (arith, entry_at-set_entry_self name e rest)

-- No round has a larger number.
abbrev pub IsBelow : ℕ → Rounds → Type 0
IsBelow n rounds = (k : ℕ) → Has k (round_numbers rounds) → k ≤ n

pub set_entry-Has :
    (name : Text) (c : RoundContent) (rounds : Rounds) (k : ℕ)
    → Has k (round_numbers (set_entry name (round_dir c) rounds))
    → (parse_round_dir name ≡ some k) ⊎ Has k (round_numbers rounds)
unfolding set_entry round_numbers
set_entry-Has name c [] k h = on_list-Has (parse_round_dir name) k [] h
set_entry-Has name c ((other, stray_file) ∷ rest) k h = elim (Bool-cases (text_eq other name)) [
  | inl same ↦ elim (on_list-Has (parse_round_dir other) k (round_numbers rest) (rw same at h)) [
    | inl e ↦ inl (ap parse_round_dir (sym (text_eq_sound other name same)) ∙ e)
    | inr l ↦ inr l
  ]
  | inr differs ↦ set_entry-Has name c rest k (rw differs at h)
]
set_entry-Has name c ((other, round_dir d) ∷ rest) k h = elim (Bool-cases (text_eq other name)) [
  | inl same ↦ inr (rw same at h)
  | inr differs ↦ elim (on_list-Has (parse_round_dir other) k _ (rw differs at h)) [
    | inl e ↦ inr (Has-on_list (parse_round_dir other) k (round_numbers rest) (inl e))
    | inr l ↦ elim (set_entry-Has name c rest k l) [
      | inl e ↦ inl e
      | inr m ↦ inr (Has-on_list (parse_round_dir other) k (round_numbers rest) (inr m))
    ]
  ]
]

-- A successful call made its way to the list of the rounds.
pub resolve_over :
    (w : RoundFaults) (rounds : Rounds) (n : ℕ)
    → w.ensure_dir ≡ none
    → w.mkdir_root ≡ false
    → w.read_dir ≡ false
    → Has n (round_numbers rounds)
    → IsBelow n rounds
    → has_clarification (new_round_at (int_of n)).name rounds ≡ true
    → resolve_or_allocate w rounds ≡ (ok (new_round_at (int_of n), true), rounds)
unfolding resolve_or_allocate resolve_behind list_round_numbers
resolve_over w rounds n d m r there most asked =
    rw (d, m, r, last-sort-largest (round_numbers rounds) n there most) (rw asked refl)

pub has_clarification_at :
    (name : Text) (rounds : Rounds) (c : RoundContent) (size : ℕ)
    → entry_at name rounds ≡ some (round_dir c)
    → c.files.clarification ≡ some size
    → has_clarification name rounds ≡ true
unfolding has_clarification
has_clarification_at name rounds c size at e = rw at (unfold clarification_in in rw e refl)
