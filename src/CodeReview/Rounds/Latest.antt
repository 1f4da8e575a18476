-- ===== src/CodeReview/Rounds/Latest.antt =====
-- The last element of a sorted list of numbers is the largest one.
use mathlib.Core.Path.{subst}
use native.Mathlib.Nat.{le_trans}
use j.Prelude.{
  ℕ, ◌≤◌, ◌≡◌, ◌≢◌, ◌⊎◌, inl, inr, refl, ap, ◌∙◌, List, [], ◌∷◌, none, some, Ordering, compare,
  sort, insert, sort-IsSorted, IsSorted, All, arith,
}
use j.CodeReview.Rounds.{last}

-- A number stands in a list.
abbrev pub Has : ℕ → List ℕ → Type 0
Has n [] = ⊥
Has n (m ∷ ms) = (m ≡ n) ⊎ Has n ms

pub Has-All : (P : ℕ → Type 0) (n : ℕ) (ns : List ℕ) → All P ns → Has n ns → P n
Has-All P n [] a h = absurd h
Has-All P n (m ∷ ms) a (inl e) = subst P e a.0
Has-All P n (m ∷ ms) a (inr h) = Has-All P n ms a.1 h

insert-Has : (n x : ℕ) (ys : List ℕ) → Has n (insert compare x ys) → (x ≡ n) ⊎ Has n ys
unfolding insert
insert-Has n x [] h = h
insert-Has n x (y ∷ ys) h = by_order (compare x y) (insert-Has n x ys) h
  where
    by_order :
        (o : Ordering)
        → (Has n (insert compare x ys) → (x ≡ n) ⊎ Has n ys)
        → Has n (elim o [ Ordering.gt ↦ y ∷ insert compare x ys | _ ↦ x ∷ y ∷ ys ])
        → (x ≡ n) ⊎ Has n (y ∷ ys)
    by_order Ordering.lt ih k = k
    by_order Ordering.eq ih k = k
    by_order Ordering.gt ih (inl e) = inr (inl e)
    by_order Ordering.gt ih (inr k) = elim (ih k) [ inl e ↦ inl e | inr l ↦ inr (inr l) ]

Has-insert : (n x : ℕ) (ys : List ℕ) → (x ≡ n) ⊎ Has n ys → Has n (insert compare x ys)
unfolding insert
Has-insert n x [] h = h
Has-insert n x (y ∷ ys) h = by_order (compare x y) (Has-insert n x ys) h
  where
    by_order :
        (o : Ordering)
        → ((x ≡ n) ⊎ Has n ys → Has n (insert compare x ys))
        → (x ≡ n) ⊎ Has n (y ∷ ys)
        → Has n (elim o [ Ordering.gt ↦ y ∷ insert compare x ys | _ ↦ x ∷ y ∷ ys ])
    by_order Ordering.lt ih k = k
    by_order Ordering.eq ih k = k
    by_order Ordering.gt ih (inl e) = inr (ih (inl e))
    by_order Ordering.gt ih (inr (inl e)) = inl e
    by_order Ordering.gt ih (inr (inr k)) = inr (ih (inr k))

sort-Has : (n : ℕ) (xs : List ℕ) → Has n (sort compare xs) → Has n xs
unfolding sort
sort-Has n [] h = h
sort-Has n (x ∷ xs) h = elim (insert-Has n x (sort compare xs) h) [
  | inl e ↦ inl e
  | inr k ↦ inr (sort-Has n xs k)
]

Has-sort : (n : ℕ) (xs : List ℕ) → Has n xs → Has n (sort compare xs)
unfolding sort
Has-sort n [] h = h
Has-sort n (x ∷ xs) (inl e) = Has-insert n x (sort compare xs) (inl e)
Has-sort n (x ∷ xs) (inr h) = Has-insert n x (sort compare xs) (inr (Has-sort n xs h))

compare_le : (a b : ℕ) → compare a b ≢ Ordering.gt → a ≤ b
compare_le a b h = ground arith

le_compare : (a b : ℕ) → a ≤ b → compare a b ≢ Ordering.gt
le_compare a b h = ground arith

-- In a sorted list the last number is there, and no other is larger.
last-sorted :
    (xs : List ℕ) (m : ℕ)
    → IsSorted compare xs
    → last xs ≡ some m
    → Has m xs × ((n : ℕ) → Has n xs → n ≤ m)
unfolding last
last-sorted [] m s h = absurd (cc)
last-sorted (x ∷ []) m s h =
    let same : x ≡ m = cc in (inl same, λ n k. elim k [ inl e ↦ omega arith | inr f ↦ absurd f ])
last-sorted (x ∷ y ∷ ys) m s h =
    let (there, most) = last-sorted (y ∷ ys) m s.1 h in
    let above : x ≤ m =
      compare_le x m (Has-All (λ z. compare x z ≢ Ordering.gt) m (y ∷ ys) s.0 there) in
    (inr there, λ n k. elim k [ inl e ↦ omega arith | inr l ↦ most n l ])

sorted : (ns : List ℕ) → IsSorted compare (sort compare ns)
sorted ns =
    sort-IsSorted compare (λ a b h. ground arith)
      (λ a b c h k. le_compare a c (le_trans (compare_le a b h) (compare_le b c k))) ns

-- The last of the sorted numbers is one of them, and the largest.
pub last-sort :
    (ns : List ℕ) (m : ℕ)
    → last (sort compare ns) ≡ some m
    → Has m ns × ((n : ℕ) → Has n ns → n ≤ m)
last-sort ns m h =
    let (there, most) = last-sorted (sort compare ns) m (sorted ns) h in
    (sort-Has m ns there, λ n k. most n (Has-sort n ns k))

last-some : (x : ℕ) (xs : List ℕ) → (m : ℕ) × (last (x ∷ xs) ≡ some m)
unfolding last
last-some x [] = (x, refl)
last-some x (y ∷ ys) = last-some y ys

last-of_Has : (n : ℕ) (xs : List ℕ) → Has n xs → (m : ℕ) × (last xs ≡ some m)
last-of_Has n [] h = absurd h
last-of_Has n (x ∷ xs) h = last-some x xs

-- A number that is there and that no other exceeds is the last of the sorted numbers.
pub last-sort-largest :
    (ns : List ℕ) (m : ℕ)
    → Has m ns
    → ((n : ℕ) → Has n ns → n ≤ m)
    → last (sort compare ns) ≡ some m
last-sort-largest ns m there most =
    let (k, e) = last-of_Has m (sort compare ns) (Has-sort m ns there) in
    let (k_there, k_most) = last-sort ns k e in
    let low = most k k_there in let high = k_most m there in e ∙ ap some (omega arith)

pub last-sort-none : (ns : List ℕ) (n : ℕ) → last (sort compare ns) ≡ none → ¬ Has n ns
last-sort-none ns n h k =
    let (m, e) = last-of_Has n (sort compare ns) (Has-sort n ns k) in absurd (cc)
