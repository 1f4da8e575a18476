-- ===== src/Lifecycle/Titles/Laws.antt =====
-- One sign at most stands in front of a title, and it follows the last status alone.
use mathlib.Core.Path.{subst}
use j.Prelude.{
  ℕ, zero, suc, ◌≤◌, ◌<◌, ◌≡◌, refl, sym, ap, ◌∙◌, Text, [], ◌∷◌, ◌++◌, none, some, Option-cases,
  inl, inr, length, has_prefix, is_space, drop_while, drop_while-length, drop, arith,
}
use j.Tasks.Status.{TaskStatus, plan_pending_approval, needs_clarification, failed, help}
use j.Lifecycle.Titles.{
  trim_one_prefix, trim_left, turn, strip_from, strip_status_prefix, prefix_for, decorate_title,
  alert_prefix, eyes_prefix,
}

-- No sign stands in front, behind whatever blanks.
abbrev pub IsPlain : Text → Type 0
IsPlain s = trim_one_prefix (trim_left s) ≡ none

length-drop : (n : ℕ) (s : Text) → length (drop n s) ≤ length s
length-drop zero s = omega arith
length-drop (suc n) [] = omega arith
length-drop (suc n) (c ∷ s) = omega (arith, length-drop n s)

trim_shorter : (s t : Text) → trim_one_prefix s ≡ some t → length t < length s
unfolding trim_one_prefix has_prefix
trim_shorter [] t h = absurd (cc)
trim_shorter (c ∷ s) t h = ground (arith, length-drop 1 s)

stop_plain : (fuel : ℕ) (s : Text) → IsPlain s → strip_from fuel s ≡ s
unfolding strip_from
stop_plain zero s h = refl
stop_plain (suc fuel) s h = ap (turn (strip_from fuel) s) h

go_on :
    (fuel : ℕ) (s t : Text)
    → trim_one_prefix (trim_left s) ≡ some t
    → strip_from (suc fuel) s ≡ strip_from fuel t
unfolding strip_from
go_on fuel s t h = ap (turn (strip_from fuel) s) h

left_shorter : (s t : Text) → trim_one_prefix (trim_left s) ≡ some t → length t < length s
left_shorter s t h =
    let shorter = trim_shorter (trim_left s) t h in
    let left : length (trim_left s) ≤ length s = unfold trim_left in drop_while-length is_space s in
    omega arith

-- With fuel for the characters of the text, no sign is left.
strip_from-IsPlain : (fuel : ℕ) (s : Text) → length s ≤ fuel → IsPlain (strip_from fuel s)
strip_from-IsPlain zero [] h =
    unfold strip_from trim_left drop_while trim_one_prefix has_prefix in refl
strip_from-IsPlain zero (c ∷ s) h = absurd (omega arith)
strip_from-IsPlain (suc fuel) s h = elim (Option-cases (trim_one_prefix (trim_left s))) [
  | inl plain ↦ subst IsPlain (sym (stop_plain (suc fuel) s plain)) plain
  | inr (rest, e) ↦
      let shorter = left_shorter s rest e in
      subst IsPlain (sym (go_on fuel s rest e)) (strip_from-IsPlain fuel rest (omega arith))
]

no_sign : IsPlain []
unfolding trim_one_prefix trim_left has_prefix drop_while
no_sign = refl

strip_enough :
    (fuel more : ℕ) (s : Text)
    → length s ≤ fuel
    → length s ≤ more
    → strip_from fuel s ≡ strip_from more s
strip_enough zero more [] h k = unfold strip_from in sym (stop_plain more [] no_sign)
strip_enough zero more (c ∷ s) h k = absurd (omega arith)
strip_enough (suc fuel) zero [] h k = unfold strip_from in stop_plain (suc fuel) [] no_sign
strip_enough (suc fuel) zero (c ∷ s) h k = absurd (omega arith)
strip_enough (suc fuel) (suc more) s h k = elim (Option-cases (trim_one_prefix (trim_left s))) [
  | inl plain ↦ stop_plain (suc fuel) s plain ∙ sym (stop_plain (suc more) s plain)
  | inr (rest, e) ↦
      let shorter = left_shorter s rest e in
      go_on fuel s rest e
      ∙ strip_enough fuel more rest (omega arith) (omega arith)
      ∙ sym (go_on more s rest e)
]

strip-IsPlain : (s : Text) → IsPlain (strip_status_prefix s)
unfolding strip_status_prefix
strip-IsPlain s = strip_from-IsPlain (length s) s (omega arith)

-- The loop of stripStatusPrefix ends after a turn for each character at most: any bound from there on
-- gives the same text, and no sign stands in front of it.
strip_terminates :
    (turns : ℕ) (s : Text)
    → length s ≤ turns
    → (strip_from turns s ≡ strip_status_prefix s) × IsPlain (strip_status_prefix s)
strip_terminates turns s h =
    (unfold strip_status_prefix in strip_enough turns (length s) s h (omega arith), strip-IsPlain s)

alert_found : (s : Text) → trim_one_prefix (trim_left (alert_prefix ++ s)) ≡ some s
unfolding trim_one_prefix trim_left has_prefix drop_while is_space
alert_found s = refl

eyes_found : (s : Text) → trim_one_prefix (trim_left (eyes_prefix ++ s)) ≡ some s
unfolding trim_one_prefix trim_left has_prefix drop_while is_space
eyes_found s = refl

alert_off : (s : Text) → IsPlain s → strip_status_prefix (alert_prefix ++ s) ≡ s
unfolding strip_status_prefix
alert_off s plain =
    go_on (suc (length s)) (alert_prefix ++ s) s (alert_found s)
    ∙ stop_plain (suc (length s)) s plain

eyes_off : (s : Text) → IsPlain s → strip_status_prefix (eyes_prefix ++ s) ≡ s
unfolding strip_status_prefix
eyes_off s plain =
    go_on (suc (length s)) (eyes_prefix ++ s) s (eyes_found s) ∙ stop_plain (suc (length s)) s plain

-- A sign that is put in front of a plain text is taken off again, and nothing else.
strip-prefix_for :
    (status : TaskStatus) (s : Text) → IsPlain s → strip_status_prefix (prefix_for status ++ s) ≡ s
unfolding strip_status_prefix prefix_for
strip-prefix_for needs_clarification s plain = alert_off s plain
strip-prefix_for failed s plain = alert_off s plain
strip-prefix_for help s plain = alert_off s plain
strip-prefix_for plan_pending_approval s plain = eyes_off s plain
strip-prefix_for _ s plain = stop_plain (length s) s plain

-- Only the last status shows in a title: however often the hook has decorated it, and whatever signs
-- it began with, decorating it anew gives what decorating the first title gives.
pub decorate_title-again :
    (title : Text) (before after : TaskStatus)
    → decorate_title (decorate_title title before) after ≡ decorate_title title after
unfolding decorate_title
decorate_title-again title before after =
    ap (λ s. prefix_for after ++ s)
      (strip-prefix_for before (strip_status_prefix title) (strip-IsPlain title))
