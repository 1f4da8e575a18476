-- ===== src/Resolver/Laws.antt =====
-- What the resolver answers, and when it asks.
use j.Prelude.{
  ℕ, suc, ◌≤◌, ◌≡◌, ◌⊎◌, ◌↔◌, inl, inr, refl, sym, ap, ◌∙◌, Bool, true, false, Bool-cases, Text,
  codes, List, [], ◌∷◌, ◌++◌, some, Result, ok, err, is_empty, ◌==◌, All, if◌then◌else◌, arith,
}
use j.Tasks.Row.{Task}
use j.Tasks.Wire.{Toml}
use j.Tasks.Store.{Faults, Store, StoreError, get_task}
use j.Resolver.{
  TaskFiles, VerifyTask, PickTask, Picked, picked, left, broken, auto_pick_from, auto_pick_allowed,
  chosen, from_picker, from_auto_pick, verify_allowed, resolve_verify_task,
  resolve_verify_by_task_id, list_resolvable_tasks, from_rows, task_by_id, task_dir_for,
  resolved_in, ResolveError,
}

-- None of the rows is allowed.
abbrev pub NoneAllowed : (Task → Bool) → List Task → Type 0
NoneAllowed allowed ts = All (λ t. allowed t ≡ false) ts

-- Of the rows, one is allowed, and it has the id.
abbrev pub OnlyAllowed : (Task → Bool) → List Task → Text → Type 0
OnlyAllowed allowed rows id =
    (before : List Task) × (row : Task) × (after : List Task) × (rows ≡ before ++ row ∷ after)
    × (allowed row ≡ true)
    × (row.id ≡ id)
    × NoneAllowed allowed before
    × NoneAllowed allowed after

module _ (allowed : Task → Bool) where
  two_are_too_many :
      (rows : List Task) (id : Text) (n : ℕ) → 2 ≤ n → (auto_pick_from allowed rows id n).1 ≡ false
  unfolding auto_pick_from
  two_are_too_many [] id n h = ground arith
  two_are_too_many (row ∷ rest) id n h =
      two_are_too_many rest (if allowed row then row.id else id) (if allowed row then suc n else n)
        (ground arith)

  step :
      (row : Task) (rest : List Task) (id : Text) (n : ℕ) (b : Bool)
      → allowed row ≡ b
      → auto_pick_from allowed (row ∷ rest) id n
        ≡ auto_pick_from allowed rest (if b then row.id else id) (if b then suc n else n)
  unfolding auto_pick_from
  step row rest id n b e =
      ap (λ c. auto_pick_from allowed rest (if c then row.id else id) (if c then suc n else n)) e

  no_second :
      (rows : List Task) (id : Text)
      → (auto_pick_from allowed rows id 1).1 ≡ true
      → ((auto_pick_from allowed rows id 1).0 ≡ id) × NoneAllowed allowed rows
  unfolding auto_pick_from
  no_second [] id h = (refl, tt)
  no_second (row ∷ rest) id h = elim (Bool-cases (allowed row)) [
    | inl e ↦
        let again = step row rest id 1 true e in
        let no = two_are_too_many rest row.id 2 (omega arith) in absurd (cc)
    | inr e ↦
        let past = step row rest id 1 false e in
        let (same, none_left) = no_second rest id (cc) in
        (ap (λ p. p.0) past ∙ same, (e, none_left))
  ]

  first_found :
      (rows : List Task) (id : Text)
      → (auto_pick_from allowed rows id 0).1 ≡ true
      → OnlyAllowed allowed rows (auto_pick_from allowed rows id 0).0
  first_found [] id h = unfold auto_pick_from in absurd (cc)
  first_found (row ∷ rest) id h = elim (Bool-cases (allowed row)) [
    | inl e ↦
        let found = step row rest id 0 true e in
        let (same, none_left) = no_second rest row.id (cc) in
        ([], row, rest, refl, e, sym (ap (λ p. p.0) found ∙ same), tt, none_left)
    | inr e ↦
        let past = step row rest id 0 false e in
        let (before, it, after, split, ok_it, its_id, none_before, none_after) =
          first_found rest id (cc) in
        (
          row ∷ before,
          it,
          after,
          ap (λ ts. row ∷ ts) split,
          ok_it,
          its_id ∙ sym (ap (λ p. p.0) past),
          (e, none_before),
          none_after,
        )
  ]

  none_counted :
      (rows : List Task) (id : Text) (n : ℕ)
      → NoneAllowed allowed rows
      → auto_pick_from allowed rows id n ≡ (id, n == 1)
  unfolding auto_pick_from
  none_counted [] id n h = refl
  none_counted (row ∷ rest) id n h = step row rest id n false h.0 ∙ none_counted rest id n h.1

  only_counted :
      (before : List Task) (row : Task) (after : List Task) (id : Text)
      → allowed row ≡ true
      → NoneAllowed allowed before
      → NoneAllowed allowed after
      → auto_pick_from allowed (before ++ row ∷ after) id 0 ≡ (row.id, true)
  only_counted [] row after id e none_before none_after =
      step row after id 0 true e ∙ none_counted after row.id 1 none_after
  only_counted (t ∷ before) row after id e none_before none_after =
      step t (before ++ row ∷ after) id 0 false none_before.0
      ∙ only_counted before row after id e none_before.1 none_after

  -- autoPickAllowed answers with an id exactly if one row of the list is allowed, no more and no
  -- fewer, and it has that id.
  pub auto_pick_lem :
      (rows : List Task) (id : Text)
      → (auto_pick_allowed rows allowed ≡ (id, true)) ↔ OnlyAllowed allowed rows id
  unfolding auto_pick_allowed
  auto_pick_lem rows id = (
    (λ h.
        let (before, row, after, split, e, its_id, none_before, none_after) =
          first_found rows [] (ap (λ p. p.1) h) in
        (before, row, after, split, e, its_id ∙ ap (λ p. p.0) h, none_before, none_after)),
    (λ only.
        let (before, row, after, split, e, its_id, none_before, none_after) = only in
        ap (λ ts. auto_pick_from allowed ts [] 0) split
        ∙ only_counted before row after [] e none_before none_after
        ∙ ap (λ i. (i, true)) its_id),
  )

module _ {R : Type 0} (by_id : Text → Result ResolveError R) where
  chosen_ok : (x : Result ResolveError R) (r : R) → chosen x ≡ ok (some r) → x ≡ ok r
  unfolding chosen
  chosen_ok (ok q) r h = cc
  chosen_ok (err e) r h = absurd (cc)

  from_picker_ok :
      (answer : Picked) (r : R)
      → from_picker by_id answer ≡ ok (some r)
      → (i : Text) × (by_id i ≡ ok r) × (answer ≡ picked i)
  unfolding from_picker
  from_picker_ok (picked i) r h = (i, chosen_ok (by_id i) r h, refl)
  from_picker_ok left r h = absurd (cc)
  from_picker_ok broken r h = absurd (cc)

  from_auto_pick_ok :
      (answer : Picked) (p : Text × Bool) (r : R)
      → from_auto_pick by_id answer p ≡ ok (some r)
      → (i : Text) × (by_id i ≡ ok r) × ((p ≡ (i, true)) ⊎ ((p.1 ≡ false) × (answer ≡ picked i)))
  unfolding from_auto_pick
  from_auto_pick_ok answer (i, true) r h = (i, chosen_ok (by_id i) r h, inl refl)
  from_auto_pick_ok answer (i, false) r h =
      let (j, found, same) = from_picker_ok answer r h in (j, found, inr (refl, same))

-- How an id came to be worked on, where the command named none: it is the id of the only listed row
-- that is allowed, or there is no such row and the user picked it from the list.
abbrev pub FromList : (Task → Bool) → PickTask → Text → List Task → Text → Type 0
FromList allowed ui title rows id =
    OnlyAllowed allowed rows id
    ⊎ (((other : Text) → ¬ OnlyAllowed allowed rows other) × (ui title rows ≡ picked id))

from_rows_ok :
    {R : Type 0} (by_id : Text → Result ResolveError R) (allowed : Task → Bool) (ui : PickTask)
    (title : Text) (listed : Result StoreError (List Task)) (r : R)
    → from_rows by_id allowed ui title listed ≡ ok (some r)
    → (i : Text) × (by_id i ≡ ok r)
      × (rows : List Task) × (listed ≡ ok rows)
      × FromList allowed ui title rows i
unfolding from_rows
from_rows_ok by_id allowed ui title (err e) r h = absurd (cc)
from_rows_ok by_id allowed ui title (ok []) r h = absurd (cc)
from_rows_ok by_id allowed ui title (ok (t ∷ ts)) r h =
    let rows = t ∷ ts in
    let (i, found, how) =
      from_auto_pick_ok by_id (ui title rows) (auto_pick_allowed rows allowed) r h in
    (
      i,
      found,
      rows,
      refl,
      elim how [
        | inl one ↦ inl ((auto_pick_lem allowed rows i).0 one)
        | inr (none_alone, asked) ↦ inr (
          (λ other only. let one = (auto_pick_lem allowed rows other).1 only in absurd (cc)),
          asked,
        )
      ],
    )

module _ (toml : Toml) where
  open toml use {Bytes}

  verify_by_id :
      (files : Text → TaskFiles) (i : Text) (s : Store Bytes) (r : VerifyTask)
      → resolve_verify_by_task_id toml files i s ≡ ok r
      → (get_task toml i s ≡ ok r.task)
        × ((files i).plan_stat ≡ true)
        × (r.task_dir ≡ task_dir_for toml i s)
  unfolding resolve_verify_by_task_id task_by_id resolved_in
  verify_by_id files i s r h = ground arith

  -- A row that ResolveVerifyTask comes back with is stored under an id whose directory holds a plan,
  -- and comes with that directory. The id is the command's, where it names one. Where it names
  -- none, it is the id of the only listed row at `work-done`, `failed` or `help`; the user is asked
  -- only where there is no such row or there are several, and then it is the id that the user
  -- picked.
  pub resolve_verify_lem :
      (w : Faults) (files : Text → TaskFiles) (ui : PickTask) (id : Text) (s : Store Bytes)
      (r : VerifyTask)
      → resolve_verify_task toml w files ui id s ≡ ok (some r)
      → (i : Text) × (get_task toml i s ≡ ok r.task)
        × ((files i).plan_stat ≡ true)
        × (r.task_dir ≡ task_dir_for toml i s)
        × (((is_empty id ≡ false) × (i ≡ id))
            ⊎ ((is_empty id ≡ true)
                × (rows : List Task) × (list_resolvable_tasks toml w s ≡ ok rows)
                × FromList verify_allowed ui (codes "Select a task to verify") rows i))
  unfolding resolve_verify_task
  resolve_verify_lem w files ui id s r h = elim (Bool-cases (is_empty id)) [
    | inl e ↦
        let (i, found, rows, listing, how) =
          from_rows_ok (λ i. resolve_verify_by_task_id toml files i s) verify_allowed ui
            (codes "Select a task to verify") (list_resolvable_tasks toml w s) r (ground arith) in
        let (stored, plan, dir) = verify_by_id files i s r found in
        (i, stored, plan, dir, inr (e, rows, listing, how))
    | inr e ↦
        let found =
          chosen_ok (λ i. resolve_verify_by_task_id toml files i s)
            (resolve_verify_by_task_id toml files id s) r (ground arith) in
        let (stored, plan, dir) = verify_by_id files id s r found in
        (id, stored, plan, dir, inl (e, refl))
  ]
