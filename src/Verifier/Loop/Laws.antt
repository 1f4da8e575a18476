-- ===== src/Verifier/Loop/Laws.antt =====
-- The fix loop is bounded, and succeeds exactly on a pass that it gets to see.
use j.Prelude.{
  ℕ, zero, suc, ◌+◌, ◌≤◌, ◌-◌, ◌≡◌, true, false, Text, List, [], ◌∷◌, ◌++◌, if◌then◌else◌, arith,
}
use j.Verifier.Loop.{
  Agents, Turn, verify_turn, fix_turn, iteration, loop, run_verify_loop, capped, finish_iteration,
  started, is_over, continued,
}

abbrev pub verify_turns : List Turn → ℕ
verify_turns [] = 0
verify_turns (verify_turn r s ∷ ts) = suc (verify_turns ts)
verify_turns (fix_turn ∷ ts) = verify_turns ts

abbrev pub fix_turns : List Turn → ℕ
fix_turns [] = 0
fix_turns (verify_turn r s ∷ ts) = fix_turns ts
fix_turns (fix_turn ∷ ts) = suc (fix_turns ts)

verify_turns-++ : (s t : List Turn) → verify_turns (s ++ t) ≡ verify_turns s + verify_turns t
verify_turns-++ [] t = omega arith
verify_turns-++ (verify_turn r x ∷ s) t = let ih = verify_turns-++ s t in omega arith
verify_turns-++ (fix_turn ∷ s) t = verify_turns-++ s t

fix_turns-++ : (s t : List Turn) → fix_turns (s ++ t) ≡ fix_turns s + fix_turns t
fix_turns-++ [] t = omega arith
fix_turns-++ (verify_turn r x ∷ s) t = fix_turns-++ s t
fix_turns-++ (fix_turn ∷ s) t = let ih = fix_turns-++ s t in omega arith

-- One iteration makes one verifier turn, and at most one fix turn, none on the last iteration.
iteration_turns :
    (a : Agents) (n i : ℕ) (session : Text)
    → let ts = (iteration a n i session).turns in
      (verify_turns ts ≡ 1) × (fix_turns ts ≤ 1) × (fix_turns ts ≤ n - (i + 1))
unfolding iteration started finish_iteration
iteration_turns a n i session = ground arith

-- A loop with `left` iterations left makes at most `left` verifier turns, and one fix turn fewer.
loop_turns :
    (a : Agents) (n left i : ℕ) (session : Text)
    → n ≤ i + left
    → let ts = (loop a n left i session).turns in
      (verify_turns ts ≤ left) × (fix_turns ts ≤ left - 1)
unfolding loop
loop_turns a n zero i session h = ground arith
loop_turns a n (suc left) i session h =
    let p = iteration a n i session in
    let rest = loop a n left (i + 1) p.session in
    let one = iteration_turns a n i session in
    let more = loop_turns a n left (i + 1) p.session (omega arith) in
    let v = verify_turns-++ p.turns rest.turns in
    let f = fix_turns-++ p.turns rest.turns in
    elim (is_over p)
      as (λ b.
        let q = if b then p else continued p rest in
        (verify_turns q.turns ≤ suc left) × (fix_turns q.turns ≤ suc left - 1)) [
          | true ↦ (omega arith, omega arith)
          | false ↦ (omega arith, omega arith)
        ]

-- The verification loop starts at most `MaxIterations` verifier turns (3 where it is 0), and with
-- them at most one fix turn fewer, whatever the agents answer.
pub turns_bounded :
    (a : Agents) (max_iterations : ℕ) (session : Text)
    → let ts = (run_verify_loop a max_iterations session).turns in
      (verify_turns ts ≤ capped max_iterations) × (fix_turns ts + 1 ≤ capped max_iterations)
unfolding run_verify_loop
turns_bounded a max_iterations session =
    let n = capped max_iterations in
    let (v, f) = loop_turns a n n 0 session (omega arith) in (v, ground arith)

-- Every verifier turn of the list asks its agent to resume.
abbrev pub Resumes : List Turn → Type 0
Resumes [] = Unit
Resumes (verify_turn r s ∷ ts) = (r ≡ true) × Resumes ts
Resumes (fix_turn ∷ ts) = Resumes ts

Resumes-++ : (s t : List Turn) → Resumes s → Resumes t → Resumes (s ++ t)
Resumes-++ [] t a b = b
Resumes-++ (verify_turn r x ∷ s) t (h, a) b = (h, Resumes-++ s t a b)
Resumes-++ (fix_turn ∷ s) t a b = Resumes-++ s t a b

later_iteration-Resumes :
    (a : Agents) (n i : ℕ) (session : Text) → 1 ≤ i → Resumes (iteration a n i session).turns
unfolding iteration started finish_iteration
later_iteration-Resumes a n i session h = ground arith

later_loop-Resumes :
    (a : Agents) (n left i : ℕ) (session : Text) → 1 ≤ i → Resumes (loop a n left i session).turns
unfolding loop
later_loop-Resumes a n zero i session h = tt
later_loop-Resumes a n (suc left) i session h =
    let p = iteration a n i session in
    let rest = loop a n left (i + 1) p.session in
    let here = later_iteration-Resumes a n i session h in
    elim (is_over p) as (λ b. Resumes (if b then p else continued p rest).turns) [
      | true ↦ here
      | false ↦
          Resumes-++ p.turns rest.turns here
            (later_loop-Resumes a n left (i + 1) p.session (omega arith))
    ]

-- The first turn is a verifier turn that starts afresh on the given session; the verifier turns
-- behind it resume.
abbrev pub StartsFresh : Text → List Turn → Type 0
StartsFresh session [] = ⊥
StartsFresh session (verify_turn r s ∷ ts) = (r ≡ false) × (s ≡ session) × Resumes ts
StartsFresh session (fix_turn ∷ ts) = ⊥

StartsFresh-++ :
    (session : Text) (s t : List Turn)
    → StartsFresh session s
    → Resumes t
    → StartsFresh session (s ++ t)
StartsFresh-++ session (verify_turn r x ∷ s) t (f, q, a) b = (f, q, Resumes-++ s t a b)
StartsFresh-++ session [] t a b = absurd a
StartsFresh-++ session (fix_turn ∷ s) t a b = absurd a

first_iteration :
    (a : Agents) (n : ℕ) (session : Text) → StartsFresh session (iteration a n 0 session).turns
unfolding iteration started finish_iteration
first_iteration a n session = ground arith

first_loop :
    (a : Agents) (n left : ℕ) (session : Text)
    → 1 ≤ left
    → StartsFresh session (loop a n left 0 session).turns
unfolding loop
first_loop a n zero session h = absurd (omega arith)
first_loop a n (suc left) session h =
    let p = iteration a n 0 session in
    let rest = loop a n left (0 + 1) p.session in
    let here = first_iteration a n session in
    elim (is_over p) as (λ b. StartsFresh session (if b then p else continued p rest).turns) [
      | true ↦ here
      | false ↦
          StartsFresh-++ session p.turns rest.turns here
            (later_loop-Resumes a n left (0 + 1) p.session (omega arith))
    ]

capped-pos : (n : ℕ) → 1 ≤ capped n
capped-pos n = ground arith

-- The loop's first request is a verifier turn on the run's own session without the Resume flag,
-- and every later verifier turn has the flag.
resume_flags :
    (a : Agents) (max_iterations : ℕ) (session : Text)
    → StartsFresh session (run_verify_loop a max_iterations session).turns
unfolding run_verify_loop
resume_flags a max_iterations session =
    first_loop a (capped max_iterations) (capped max_iterations) session (capped-pos max_iterations)
