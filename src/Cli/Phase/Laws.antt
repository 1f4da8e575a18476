-- ===== src/Cli/Phase/Laws.antt =====
-- The phase that `j tasks continue` takes up is the one that ended last.
use j.Prelude.{
  ℕ, ◌≤◌, ◌<◌, ◌≡◌, ◌⊎◌, inl, inr, refl, sym, ◌∙◌, true, false, Option, none, some, is_empty, arith,
  Option-cases, Text,
}
use j.Tasks.Row.{Task, Time}
use j.Cli.Phase.{
  Phase, plan_phase, work_phase, verify_phase, latest_end_at, latest_phase, latest_session,
}

-- When a phase of the row ended, and the session that it left.
abbrev pub end_of : Phase → Task → Time
end_of plan_phase t = t.plan_end_at
end_of work_phase t = t.work_end_at
end_of verify_phase t = t.verify_end_at

-- The later a phase stands in the chain, the higher its rank.
abbrev pub rank : Phase → ℕ
rank plan_phase = 0
rank work_phase = 1
rank verify_phase = 2

latest_end_at-some :
    (t : Task) (p q : Phase)
    → latest_end_at t ≡ some p
    → (0 < end_of p t) × (end_of q t ≤ end_of p t) × (end_of q t ≡ end_of p t → rank q ≤ rank p)
unfolding latest_end_at
latest_end_at-some t p q h = ground arith

latest_end_at-none : (t : Task) (q : Phase) → latest_end_at t ≡ none → end_of q t ≡ 0
unfolding latest_end_at
latest_end_at-none t q h = ground arith

abbrev pub session_of : Phase → Task → Text
session_of plan_phase t = t.plan_resume_session
session_of work_phase t = t.work_resume_session
session_of verify_phase t = t.verify_resume_session

-- The phase ended, no phase ended after it, and none that stands later in the chain ended with it.
abbrev pub EndedLast : Task → Phase → Type 0
EndedLast t p =
    (0 < end_of p t)
    × ((q : Phase) → (end_of q t ≤ end_of p t) × (end_of q t ≡ end_of p t → rank q ≤ rank p))

-- No phase ended, the phase left a session, and none that stands later in the chain did.
abbrev pub LeftSession : Task → Phase → Type 0
LeftSession t p =
    (is_empty (session_of p t) ≡ false)
    × ((q : Phase) → (end_of q t ≡ 0) × (rank p < rank q → is_empty (session_of q t) ≡ true))

latest_session-some :
    (t : Task) (p q : Phase)
    → latest_session t ≡ some p
    → (is_empty (session_of p t) ≡ false) × (rank p < rank q → is_empty (session_of q t) ≡ true)
unfolding latest_session
latest_session-some t p q h = ground arith

latest_session-none :
    (t : Task) (q : Phase) → latest_session t ≡ none → is_empty (session_of q t) ≡ true
unfolding latest_session
latest_session-none t q h = ground arith

from_end : (t : Task) (p : Phase) → latest_end_at t ≡ some p → latest_phase t ≡ some p
unfolding latest_phase
from_end t p h = ground (arith, h)

from_session : (t : Task) → latest_end_at t ≡ none → latest_phase t ≡ latest_session t
unfolding latest_phase
from_session t h = ground (arith, h)

ended_last : (t : Task) (p : Phase) → latest_end_at t ≡ some p → EndedLast t p
ended_last t p h =
    ((latest_end_at-some t p p h).0, λ q. let (a, b, c) = latest_end_at-some t p q h in (b, c))

left_session :
    (t : Task) (p : Phase) → latest_end_at t ≡ none → latest_session t ≡ some p → LeftSession t p
left_session t p h g = (
  (latest_session-some t p p g).0,
  λ q. (latest_end_at-none t q h, (latest_session-some t p q g).1),
)

-- No phase ended, and none left a session.
abbrev pub HasNoPhase : Task → Type 0
HasNoPhase t = (q : Phase) → (end_of q t ≡ 0) × (is_empty (session_of q t) ≡ true)

none_means : (t : Task) → latest_phase t ≡ none → HasNoPhase t
none_means t h = elim (Option-cases (latest_end_at t)) [
  | inl n ↦ λ q. (latest_end_at-none t q n, latest_session-none t q (sym (from_session t n) ∙ h))
  | inr (p, e) ↦ let some_phase = from_end t p e in absurd (cc)
]

-- What the answer says: the phase that ended last, the later one in the chain of two that ended
-- together; where no phase ended, the last in the chain that left a session; and none where no
-- phase ended and none left a session.
abbrev pub Answers : Task → Option Phase → Type 0
Answers t none = HasNoPhase t
Answers t (some p) = EndedLast t p ⊎ LeftSession t p

answers : (t : Task) (o : Option Phase) → latest_phase t ≡ o → Answers t o
answers t none h = none_means t h
answers t (some p) h = elim (Option-cases (latest_end_at t)) [
  | inl n ↦ inr (left_session t p n (sym (from_session t n) ∙ h))
  | inr (q, e) ↦ let q_phase = from_end t q e in inl (ended_last t p (e ∙ sym q_phase ∙ h))
]

-- The phase that a row is resumed at is the one that ended last, the later one in the chain of two
-- that ended together; where no phase ended, the last in the chain that left a session; and there
-- is none only if no phase ended and none left a session.
latest_phase_lem : (t : Task) → Answers t (latest_phase t)
latest_phase_lem t = answers t (latest_phase t) refl
