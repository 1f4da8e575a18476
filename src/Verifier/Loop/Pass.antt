-- ===== src/Verifier/Loop/Pass.antt =====
-- The fix loop succeeds exactly on a PASS that it gets to see.
use j.Prelude.{
  ℕ, zero, suc, ◌+◌, ◌≤◌, ◌<◌, ◌≡◌, ◌↔◌, ◌⊎◌, inl, inr, ◌∙◌, ap, Bool, true, false, Text, none,
  some, ◌&&◌, ◌||◌, not, ◌==◌, if◌then◌else◌, arith,
}
use j.Lifecycle.Verify.{success}
use j.Verifier.Verdict.{Verdict, pass, fail}
use j.Verifier.Loop.{
  Agents, verdict_of, fix_fails, iteration, loop, run_verify_loop, capped, finish_iteration,
  started, is_over, continued, Progress,
}

-- The verifier turn of iteration `k` starts, and waiting for its process does not fail. The first
-- iteration does not wait where the backend reports no process, a pid of 0.
abbrev pub turn_ends_well : Agents → ℕ → Bool
turn_ends_well a k = elim (a.verify_pid k) [
  | none ↦ false
  | some pid ↦ (k == 0 && pid == 0) || not (a.verify_wait_fails k)
]

abbrev pub is_pass : Verdict → Bool
is_pass pass = true
is_pass fail = false

-- Iteration `k` leaves a FAIL behind, and the worker's fix turn for it succeeds.
abbrev pub is_fixed : Agents → ℕ → Bool
is_fixed a k = not (is_pass (verdict_of a k)) && (a.fix_agent_known && not (fix_fails a k))

-- The pass of iteration `k` is seen by a loop that starts with iteration `i`.
abbrev pub SeesPass : Agents → ℕ → ℕ → Type 0
SeesPass a i k =
    (turn_ends_well a k ≡ true)
    × (verdict_of a k ≡ pass)
    × ((m : ℕ) → i ≤ m → m < k → (turn_ends_well a m ≡ true) × (is_fixed a m ≡ true))

succeeds :
    (a : Agents) (n i : ℕ) (session : Text)
    → turn_ends_well a i ≡ true
    → verdict_of a i ≡ pass
    → ((iteration a n i session).outcome ≡ success) × ((iteration a n i session).error ≡ false)
unfolding iteration started finish_iteration
succeeds a n i session h v = ground arith

success_means :
    (a : Agents) (n i : ℕ) (session : Text)
    → (iteration a n i session).outcome ≡ success
    → (turn_ends_well a i ≡ true)
      × (verdict_of a i ≡ pass)
      × ((iteration a n i session).error ≡ false)
unfolding iteration started finish_iteration
success_means a n i session h = ground arith

goes_on :
    (a : Agents) (n i : ℕ) (session : Text)
    → i + 1 < n
    → turn_ends_well a i ≡ true
    → is_fixed a i ≡ true
    → is_over (iteration a n i session) ≡ false
unfolding iteration started finish_iteration
goes_on a n i session l h v = ground arith

going_on_means :
    (a : Agents) (n i : ℕ) (session : Text)
    → i + 1 < n
    → is_over (iteration a n i session) ≡ false
    → (turn_ends_well a i ≡ true) × (is_fixed a i ≡ true)
unfolding iteration started finish_iteration
going_on_means a n i session l h = ground arith

here_or_later : (i k : ℕ) → i ≤ k → (k ≡ i) ⊎ (i + 1 ≤ k)
here_or_later i k h = ground arith

abbrev joined : Progress → Progress → Progress
joined p rest = if is_over p then p else continued p rest

joined_first :
    (p rest : Progress)
    → p.outcome ≡ success
    → p.error ≡ false
    → ((joined p rest).outcome ≡ success) × ((joined p rest).error ≡ false)
joined_first p rest o e = ground arith

joined_rest :
    (p rest : Progress)
    → is_over p ≡ false
    → rest.outcome ≡ success
    → rest.error ≡ false
    → ((joined p rest).outcome ≡ success) × ((joined p rest).error ≡ false)
joined_rest p rest n o e = ground arith

joined_means :
    (p rest : Progress)
    → (joined p rest).outcome ≡ success
    → ((p.outcome ≡ success) × ((joined p rest).error ≡ p.error))
      ⊎ ((is_over p ≡ false) × (rest.outcome ≡ success) × ((joined p rest).error ≡ rest.error))
joined_means p rest o = ground arith

-- A loop that starts with iteration `i` and sees the pass of iteration `k` succeeds.
seen_pass :
    (a : Agents) (n left i : ℕ) (session : Text)
    → n ≡ i + left
    → (k : ℕ) → i ≤ k
    → k < n
    → SeesPass a i k
    → ((loop a n left i session).outcome ≡ success) × ((loop a n left i session).error ≡ false)
unfolding loop
seen_pass a n zero i session e k l u (w, v, before) = absurd (omega arith)
seen_pass a n (suc left) i session e k l u (w, v, before) =
    let p = iteration a n i session in
    let rest = loop a n left (i + 1) p.session in
    elim (here_or_later i k l) [
      | inl q ↦ let (o, x) = succeeds a n i session (cc) (cc) in joined_first p rest o x
      | inr m ↦
          let (w', f) = before i (omega arith) (omega arith) in
          let (o, x) =
            seen_pass a n left (i + 1) p.session (omega arith) k m u
              (w, v, λ j g h. before j (omega arith) h) in
          joined_rest p rest (goes_on a n i session (omega arith) w' f) o x
    ]

from_here :
    (a : Agents) (i k : ℕ)
    → turn_ends_well a i ≡ true
    → is_fixed a i ≡ true
    → ((m : ℕ) → i + 1 ≤ m → m < k → (turn_ends_well a m ≡ true) × (is_fixed a m ≡ true))
    → (m : ℕ) → i ≤ m
    → m < k
    → (turn_ends_well a m ≡ true) × (is_fixed a m ≡ true)
from_here a i k w f later m b h = elim (here_or_later i m b) [
  | inl q ↦ (ap (turn_ends_well a) q ∙ w, ap (is_fixed a) q ∙ f)
  | inr l ↦ later m l h
]

-- A loop that starts with iteration `i` and succeeds has seen a pass.
pass_seen :
    (a : Agents) (n left i : ℕ) (session : Text)
    → n ≡ i + left
    → (loop a n left i session).outcome ≡ success
    → ((loop a n left i session).error ≡ false) × ((k : ℕ) × (i ≤ k) × (k < n) × SeesPass a i k)
unfolding loop
pass_seen a n zero i session e o = absurd (cc)
pass_seen a n (suc left) i session e o =
    let p = iteration a n i session in
    let rest = loop a n left (i + 1) p.session in
    elim (joined_means p rest o) [
      | inl (o', q) ↦
          let (w, v, x) = success_means a n i session o' in
          (q ∙ x, (i, omega arith, omega arith, (w, v, λ m g h. absurd (omega arith))))
      | inr (g, o', q) ↦
          let (x, (k, l, u, (w, v, before))) =
            pass_seen a n left (i + 1) p.session (omega arith) o' in
          let (w', f) = going_on_means a n i session (omega arith) g in
          (q ∙ x, (k, omega arith, u, (w, v, λ m b h. from_here a i k w' f before m b h)))
    ]

-- The verification loop succeeds exactly if some iteration below the cap ends with a PASS in the
-- findings, where that iteration's verifier turn ends well, and every earlier iteration's verifier
-- turn ends well, leaves a FAIL, and is followed by a fix turn that succeeds.
pub success_lem :
    (a : Agents) (max_iterations : ℕ) (session : Text)
    → ((run_verify_loop a max_iterations session).outcome ≡ success)
      ↔ ((k : ℕ) × (k < capped max_iterations) × SeesPass a 0 k)
unfolding run_verify_loop
success_lem a max_iterations session =
    let n = capped max_iterations in
    (
      λ o. let (x, (k, l, u, h)) = pass_seen a n n 0 session (omega arith) o in (k, u, h),
      λ s. let (k, u, h) = s in (seen_pass a n n 0 session (omega arith) k (omega arith) u h).0,
    )

pub success_no_error :
    (a : Agents) (max_iterations : ℕ) (session : Text)
    → let p = run_verify_loop a max_iterations session in p.outcome ≡ success → p.error ≡ false
unfolding run_verify_loop
success_no_error a max_iterations session o =
    let n = capped max_iterations in (pass_seen a n n 0 session (omega arith) o).0
