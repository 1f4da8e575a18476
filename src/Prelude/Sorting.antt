-- ===== src/Prelude/Sorting.antt =====
-- Go's stable sort: the one order-preserving rearrangement, written as an insertion sort.
use Prim.Native.Nat.{Ordering}
use mathlib.Core.Path.{◌≡◌, refl}
use mathlib.Core.Logic.{◌≢◌}
use mathlib.Core.List.{List, [], ◌∷◌, Perm}
use mathlib.Core.List.Perm
use j.Prelude.Lists.{All}

module _ {ℓ} {A : Type ℓ} (cmp : A → A → Ordering) where
  unfoldable pub insert : A → List A → List A
  insert x [] = x ∷ []
  insert x (y ∷ ys) =
      let rest = insert x ys in elim (cmp x y) [ Ordering.gt ↦ y ∷ rest | _ ↦ x ∷ y ∷ ys ]

  unfoldable pub sort : List A → List A
  unfolding insert
  sort [] = []
  sort (x ∷ xs) = insert x (sort xs)

  -- Each element compares as not greater than all that follow it.
  abbrev pub IsSorted : List A → Type ℓ
  IsSorted [] = Unit
  IsSorted (x ∷ xs) = All (λ y. cmp x y ≢ Ordering.gt) xs × IsSorted xs

  insert-perm : (x : A) (ys : List A) → Perm (insert x ys) (x ∷ ys)
  unfolding insert
  insert-perm x [] = Perm.refl (x ∷ [])
  insert-perm x (y ∷ ys) =
      elim (cmp x y)
        as (λ o. Perm (elim o [ Ordering.gt ↦ y ∷ insert x ys | _ ↦ x ∷ y ∷ ys ]) (x ∷ y ∷ ys)) [
          | Ordering.gt ↦ Perm.trans (Perm.cons y (insert-perm x ys)) (Perm.swap x y ys)
          | Ordering.lt ↦ Perm.refl (x ∷ y ∷ ys)
          | Ordering.eq ↦ Perm.refl (x ∷ y ∷ ys)
        ]

  pub sort-perm : (xs : List A) → Perm (sort xs) xs
  unfolding sort
  sort-perm [] = Perm.refl []
  sort-perm (x ∷ xs) = Perm.trans (insert-perm x (sort xs)) (Perm.cons x (sort-perm xs))

  module _ (total : (a b : A) → cmp a b ≡ Ordering.gt → cmp b a ≢ Ordering.gt)
      (trans : (a b c : A)
        → cmp a b ≢ Ordering.gt
        → cmp b c ≢ Ordering.gt
        → cmp a c ≢ Ordering.gt) where
    All-weaken :
        (x y : A) (ys : List A)
        → cmp x y ≢ Ordering.gt
        → All (λ z. cmp y z ≢ Ordering.gt) ys
        → All (λ z. cmp x z ≢ Ordering.gt) ys
    All-weaken x y [] h a = tt
    All-weaken x y (z ∷ zs) h a = (trans x y z h a.0, All-weaken x y zs h a.1)

    All-insert :
        (w x : A) (ys : List A)
        → cmp w x ≢ Ordering.gt
        → All (λ z. cmp w z ≢ Ordering.gt) ys
        → All (λ z. cmp w z ≢ Ordering.gt) (insert x ys)
    unfolding insert
    All-insert w x [] h a = (h, tt)
    All-insert w x (y ∷ ys) h a =
        elim (cmp x y)
          as (λ o.
            All (λ z. cmp w z ≢ Ordering.gt)
              (elim o [ Ordering.gt ↦ y ∷ insert x ys | _ ↦ x ∷ y ∷ ys ])) [
                | Ordering.gt ↦ (a.0, All-insert w x ys h a.1)
                | Ordering.lt ↦ (h, a)
                | Ordering.eq ↦ (h, a)
              ]

    insert-IsSorted : (x : A) (ys : List A) → IsSorted ys → IsSorted (insert x ys)
    unfolding insert
    insert-IsSorted x [] s = (tt, tt)
    insert-IsSorted x (y ∷ ys) s = go (insert-IsSorted x ys s.1) (cmp x y) refl
      where
        go :
            IsSorted (insert x ys)
            → (o : Ordering) → cmp x y ≡ o
            → IsSorted (elim o [ Ordering.gt ↦ y ∷ insert x ys | _ ↦ x ∷ y ∷ ys ])
        go ih Ordering.gt e = (All-insert y x ys (total x y e) s.0, ih)
        go ih Ordering.lt e = ((λ g. cc, All-weaken x y ys (λ g. cc) s.0), s)
        go ih Ordering.eq e = ((λ g. cc, All-weaken x y ys (λ g. cc) s.0), s)

    pub sort-IsSorted : (xs : List A) → IsSorted (sort xs)
    unfolding sort
    sort-IsSorted [] = tt
    sort-IsSorted (x ∷ xs) = insert-IsSorted x (sort xs) (sort-IsSorted xs)
