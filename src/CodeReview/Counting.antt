-- ===== src/CodeReview/Counting.antt =====
-- The loops of ValidatePost as statements on how often an id occurs.
use j.Prelude.{
  ◌≡◌, ◌↔◌, inl, inr, refl, true, false, Text, List, [], ◌∷◌, none, text_eq_refl, text_eq_sound,
  arith, Bool-cases, if◌then◌else◌, ◌==◌,
}
use j.CodeReview.{Item, has_id, count_id, snapshot_source_ids, check_originals, check_invented}

check_originals_lem :
    (original : List Text) (items : List Item) (id : Text)
    → check_originals original items ≡ none
    → has_id id original ≡ true
    → count_id id items ≡ 1
unfolding check_originals has_id
check_originals_lem [] items id h g = absurd (ground arith)
check_originals_lem (x ∷ xs) items id h g =
    ground (arith, text_eq_sound x id, check_originals_lem xs items id)

originals_check :
    (original : List Text) (items : List Item)
    → ((id : Text) → has_id id original ≡ true → count_id id items ≡ 1)
    → check_originals original items ≡ none
unfolding check_originals has_id
originals_check [] items h = refl
originals_check (x ∷ xs) items h =
    let rest = originals_check xs items (λ id g. h id (ground (arith, g))) in
    let here = h x (ground (arith, text_eq_refl x)) in ground (arith, rest, here)

check_invented_lem :
    (original : List Text) (items : List Item) (id : Text)
    → check_invented original items ≡ none
    → has_id id original ≡ false
    → count_id id items ≡ 0
unfolding check_invented count_id
check_invented_lem original [] id h g = refl
check_invented_lem original (it ∷ its) id h g =
    ground (arith, text_eq_sound it.source_id id, check_invented_lem original its id)

invented_check :
    (original : List Text) (items : List Item)
    → ((id : Text) → has_id id original ≡ false → count_id id items ≡ 0)
    → check_invented original items ≡ none
unfolding check_invented count_id
invented_check original [] h = refl
invented_check original (it ∷ its) h =
    let rest = invented_check original its (λ id g. let all = h id g in ground (arith, all)) in
    let here = h it.source_id in ground (arith, rest, here, text_eq_refl it.source_id)

-- The snapshot has an id exactly if some item has it.
pub snapshot_lem :
    (items : List Item) (id : Text)
    → has_id id (snapshot_source_ids items) ≡ (if count_id id items == 0 then false else true)
unfolding snapshot_source_ids has_id count_id
snapshot_lem [] id = refl
snapshot_lem (it ∷ its) id =
    ground
      (arith, snapshot_lem its id, snapshot_lem its it.source_id, text_eq_sound it.source_id id)

-- How often each id must occur.
abbrev pub EachOnce : List Text → List Item → Type 0
EachOnce original items = (id : Text) → count_id id items ≡ (if has_id id original then 1 else 0)

pub counts_lem :
    (original : List Text) (items : List Item)
    → ((check_originals original items ≡ none) × (check_invented original items ≡ none))
      ↔ EachOnce original items
counts_lem original items = (
  λ (h : (check_originals original items ≡ none) × (check_invented original items ≡ none)) id.
      elim (Bool-cases (has_id id original)) [
        | inl y ↦ rw y (check_originals_lem original items id h.0 y)
        | inr n ↦ rw n (check_invented_lem original items id h.1 n)
      ],
  λ h. (
    originals_check original items (λ id y. let e = h id in rw y at e),
    invented_check original items (λ id n. let e = h id in rw n at e),
  ),
)
