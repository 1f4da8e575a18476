-- ===== src/Lifecycle/Titles.antt =====
-- linear_title_sync.go: the sign in front of the linked issue's title, and the hook that sets it.
pub mod Laws
use j.Prelude.{
  ℕ, zero, suc, ◌+◌, Bool, true, false, Text, List, [], ◌∷◌, ◌++◌, Option, none, some, is_empty,
  length, text_eq, has_prefix, is_space, drop_while, drop, if◌then◌else◌,
}
use j.Tasks.Status.{TaskStatus, plan_pending_approval, needs_clarification, failed, help}
use j.Tasks.Fsm.{Transition}
use j.Tasks.Row.{Task}

abbrev pub alert_prefix : Text
alert_prefix = 0x2757 ∷ 0x20 ∷ []

abbrev pub eyes_prefix : Text
eyes_prefix = 0x1f440 ∷ 0x20 ∷ []

abbrev pub alert_sign : Text
alert_sign = 0x2757 ∷ []

abbrev pub eyes_sign : Text
eyes_sign = 0x1f440 ∷ []

unfoldable pub trim_one_prefix : Text → Option Text
trim_one_prefix s =
    if has_prefix s alert_prefix
    then some (drop 2 s)
    else if has_prefix s eyes_prefix
    then some (drop 2 s)
    else if has_prefix s alert_sign
    then some (drop 1 s)
    else if has_prefix s eyes_sign
    then some (drop 1 s)
    else none

-- strings.TrimLeftFunc(s, unicode.IsSpace)
unfoldable pub trim_left : Text → Text
trim_left s = drop_while is_space s

turn : (Text → Text) → Text → Option Text → Text
turn loop s none = s
turn loop s (some rest) = loop rest

-- The loop of stripStatusPrefix, where the fuel bounds the signs that are taken off.
unfoldable pub strip_from : ℕ → Text → Text
unfolding turn
strip_from zero s = s
strip_from (suc fuel) s = turn (strip_from fuel) s (trim_one_prefix (trim_left s))

-- Each turn takes a character off.
unfoldable pub strip_status_prefix : Text → Text
unfolding strip_from
strip_status_prefix s = strip_from (length s) s

unfoldable pub prefix_for : TaskStatus → Text
prefix_for needs_clarification = alert_prefix
prefix_for failed = alert_prefix
prefix_for help = alert_prefix
prefix_for plan_pending_approval = eyes_prefix
prefix_for _ = []

unfoldable pub decorate_title : Text → TaskStatus → Text
decorate_title current status = prefix_for status ++ strip_status_prefix current

retitled : Text → TaskStatus → Option Text
retitled title status =
    let new_title = decorate_title title status in
    if text_eq new_title title then none else some new_title

-- The new title that the hook sends, `none` for no call. `title` is that of the issue, `none` where no
-- client or no issue is at hand.
unfoldable pub linear_title_sync_hook : Option Text → Transition → Task → Option Text
unfolding retitled
linear_title_sync_hook title tr t =
    if is_empty t.linear_issue
    then none
    else elim title [ none ↦ none | some current ↦ retitled current tr.to ]
