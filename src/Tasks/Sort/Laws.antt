-- ===== src/Tasks/Sort/Laws.antt =====
-- What the listing's order means, and that SortTasks establishes it.
use mathlib.Core.List.{Perm}
use j.Prelude.{
  ◌≡◌, ◌≢◌, ◌≤◌, true, false, List, [], ◌∷◌, Ordering, text_compare, text_compare_gt,
  text_compare_lt, text_compare_le_trans, sort, sort-perm, sort-IsSorted, IsSorted, All, arith,
}
use j.Tasks.Row.{Task}
use j.Tasks.Sort.{task_is_active, task_fallback_time, compare_tasks, sort_tasks}

-- One row may stand before another: active rows before inactive ones; of two active rows the one
-- with the smaller id; of two inactive rows the one with the later time, and at equal times the
-- one with the larger id.
pub record Before (a b : Task) : Type 0 where
  pub active_first : task_is_active b.status ≡ true → task_is_active a.status ≡ true
  pub active_by_id :
      task_is_active a.status ≡ true
      → task_is_active b.status ≡ true
      → text_compare a.id b.id ≢ Ordering.gt
  pub later_first :
      task_is_active a.status ≡ false
      → task_is_active b.status ≡ false
      → task_fallback_time b ≤ task_fallback_time a
  pub tie_by_id :
      task_is_active a.status ≡ false
      → task_is_active b.status ≡ false
      → task_fallback_time a ≡ task_fallback_time b
      → text_compare b.id a.id ≢ Ordering.gt

Before-compare : (a b : Task) → compare_tasks a b ≢ Ordering.gt → Before a b
unfolding compare_tasks
Before-compare a b h = record {
  active_first = ground arith;
  active_by_id = ground arith;
  later_first = ground arith;
  tie_by_id = ground (arith, text_compare_lt a.id b.id, text_compare_gt b.id a.id);
}

compare-Before : (a b : Task) → Before a b → compare_tasks a b ≢ Ordering.gt
unfolding compare_tasks
compare-Before a b h = ground (
  arith,
  h.active_first,
  h.active_by_id,
  h.later_first,
  h.tie_by_id,
  text_compare_lt a.id b.id,
  text_compare_gt b.id a.id,
)

Before-trans : (a b c : Task) → Before a b → Before b c → Before a c
Before-trans a b c h k = record {
  active_first = ground (arith, h.active_first, k.active_first);
  active_by_id = ground (arith, text_compare_le_trans a.id b.id c.id);
  later_first = ground arith;
  tie_by_id = ground (arith, text_compare_le_trans c.id b.id a.id);
}

total : (a b : Task) → compare_tasks a b ≡ Ordering.gt → compare_tasks b a ≢ Ordering.gt
unfolding compare_tasks
total a b h = ground (arith, text_compare_lt a.id b.id, text_compare_gt a.id b.id)

-- Every row may stand before all that follow it.
abbrev pub IsListed : List Task → Type 0
IsListed [] = Unit
IsListed (t ∷ ts) = All (Before t) ts × IsListed ts

All-Before :
    (t : Task) (ts : List Task) → All (λ u. compare_tasks t u ≢ Ordering.gt) ts → All (Before t) ts
All-Before t [] h = tt
All-Before t (u ∷ us) h = (Before-compare t u h.0, All-Before t us h.1)

IsListed-sorted : (ts : List Task) → IsSorted compare_tasks ts → IsListed ts
IsListed-sorted [] h = tt
IsListed-sorted (t ∷ ts) h = (All-Before t ts h.0, IsListed-sorted ts h.1)

-- SortTasks rearranges the rows, and the result is in the order of the listing.
sort_tasks_lem : (ts : List Task) → IsListed (sort_tasks ts) × Perm (sort_tasks ts) ts
unfolding sort_tasks
sort_tasks_lem ts = (
  IsListed-sorted (sort compare_tasks ts) (
      sort-IsSorted compare_tasks total
        (λ a b c h k.
          compare-Before a c (Before-trans a b c (Before-compare a b h) (Before-compare b c k)))
        ts),
  sort-perm compare_tasks ts,
)
