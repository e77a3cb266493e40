-- ===== src/Common/Sort.antt =====
-- `sort_by_key` of the standard library, which is stable, at a number for a key.
use Prim.Native.Nat.{ℕ, ◌+◌, ◌≤◌}
use mathlib.Core.List.{List, [], ◌∷◌}
use mathlib.Core.Logic.{inl, inr}
use mathlib.Core.Path.{◌≡◌, refl}
use native.Mathlib.Omega.{arith}
use replay_kit.Common.Lists.{length, In}
use replay_kit.Common.Tests.{leb, if◌then◌else◌, Bool-cases}

module _ {ℓ} {A : Type ℓ} (key : A → ℕ) where
  unfoldable pub insert_by_key : A → List A → List A
  insert_by_key x [] = x ∷ []
  insert_by_key x (y ∷ ys) =
      let rest = insert_by_key x ys in if leb (key x) (key y) then x ∷ y ∷ ys else y ∷ rest

  -- The elements are put in from the last, each before those of its key: equal keys keep their order.
  unfoldable pub sort_by_key : List A → List A
  unfolding insert_by_key
  sort_by_key [] = []
  sort_by_key (x ∷ xs) = insert_by_key x (sort_by_key xs)

  -- Every key is at most the next.
  abbrev pub IsSorted : List A → Type 0
  IsSorted [] = Unit
  IsSorted (x ∷ []) = Unit
  IsSorted (x ∷ y ∷ ys) = (key x ≤ key y) × IsSorted (y ∷ ys)

  insert-IsSorted : (x : A) (ys : List A) → IsSorted ys → IsSorted (insert_by_key x ys)
  unfolding insert_by_key
  insert-IsSorted x [] h = tt
  insert-IsSorted x (y ∷ []) h = ground arith
  insert-IsSorted x (y ∷ z ∷ ys) h = ground (arith, insert-IsSorted x (z ∷ ys))

  pub sort-IsSorted : (xs : List A) → IsSorted (sort_by_key xs)
  unfolding sort_by_key
  sort-IsSorted [] = tt
  sort-IsSorted (x ∷ xs) = insert-IsSorted x (sort_by_key xs) (sort-IsSorted xs)

  length-insert : (x : A) (ys : List A) → length (insert_by_key x ys) ≡ length ys + 1
  unfolding insert_by_key
  length-insert x [] = omega arith
  length-insert x (y ∷ ys) = ground (arith, length-insert x ys)

  pub length-sort : (xs : List A) → length (sort_by_key xs) ≡ length xs
  unfolding sort_by_key
  length-sort [] = refl
  length-sort (x ∷ xs) = omega (arith, length-insert x (sort_by_key xs), length-sort xs)

module _ {A : Type 0} (key : A → ℕ) where
  In-insert : (a x : A) (ys : List A) → In a (insert_by_key key x ys) → In a (x ∷ ys)
  unfolding insert_by_key
  In-insert a x [] h = h
  In-insert a x (y ∷ ys) h = elim (Bool-cases (leb (key x) (key y))) [
    | inl t ↦ rw t at h
    | inr f ↦ elim (rw f at h) [
      | inl e ↦ inr (inl e)
      | inr m ↦ elim (In-insert a x ys m) [ inl e ↦ inl e | inr n ↦ inr (inr n) ]
    ]
  ]

  insert-In : (a x : A) (ys : List A) → In a (x ∷ ys) → In a (insert_by_key key x ys)
  unfolding insert_by_key
  insert-In a x [] h = h
  insert-In a x (y ∷ ys) h = elim (Bool-cases (leb (key x) (key y))) [
    | inl t ↦ rw t h
    | inr f ↦ rw f (elim h [
      | inl e ↦ inr (insert-In a x ys (inl e))
      | inr m ↦ elim m [ inl e ↦ inl e | inr n ↦ inr (insert-In a x ys (inr n)) ]
    ])
  ]

  -- Sorting keeps the elements.
  pub In-sort : (a : A) (xs : List A) → In a (sort_by_key key xs) → In a xs
  unfolding sort_by_key
  In-sort a [] h = h
  In-sort a (x ∷ xs) h = elim (In-insert a x (sort_by_key key xs) h) [
    | inl e ↦ inl e
    | inr m ↦ inr (In-sort a xs m)
  ]

  pub sort-In : (a : A) (xs : List A) → In a xs → In a (sort_by_key key xs)
  unfolding sort_by_key
  sort-In a [] h = h
  sort-In a (x ∷ xs) (inl e) = insert-In a x (sort_by_key key xs) (inl e)
  sort-In a (x ∷ xs) (inr m) = insert-In a x (sort_by_key key xs) (inr (sort-In a xs m))
