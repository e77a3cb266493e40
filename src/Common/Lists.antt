-- ===== src/Common/Lists.antt =====
-- Lists measured by native numbers, and predicates on them by recursion.
use Prim.Native.Nat.{ℕ, suc, ◌+◌, ◌≤◌}
use mathlib.Core.Bool.{Bool, true, false, ◌||◌}
use mathlib.Core.List.{List, [], ◌∷◌, ◌++◌}
use mathlib.Core.Logic.{◌⊎◌, inl, inr}
use mathlib.Core.Option.{Option, none, some}
use mathlib.Core.Path.{◌≡◌}
use native.Mathlib.Omega.{arith}
use replay_kit.Common.Eq.{Eq}
use replay_kit.Common.Tests.{Bool-cases, if◌then◌else◌}

module _ {ℓ} {A : Type ℓ} where
  abbrev pub length : List A → ℕ
  length [] = 0
  length (x ∷ xs) = suc (length xs)

  pub length-append : (xs ys : List A) → length (xs ++ ys) ≡ length xs + length ys
  length-append [] ys = omega arith
  length-append (x ∷ xs) ys = omega (arith, length-append xs ys)

  -- `push` of a vector.
  abbrev pub push_back : List A → A → List A
  push_back xs x = xs ++ x ∷ []

  -- `iter().any(p)` and `iter().filter(p)`.
  abbrev pub any : (A → Bool) → List A → Bool
  any p [] = false
  any p (x ∷ xs) = p x || any p xs

  abbrev pub keep : (A → Bool) → List A → List A
  keep p [] = []
  keep p (x ∷ xs) = let rest = keep p xs in if p x then x ∷ rest else rest

  -- `iter().find(p)`.
  unfoldable pub find : (A → Bool) → List A → Option A
  find p [] = none
  find p (x ∷ xs) = elim (p x) [ true ↦ some x | false ↦ find p xs ]

  pub length-keep-le : (p : A → Bool) (xs : List A) → length (keep p xs) ≤ length xs
  length-keep-le p [] = omega arith
  length-keep-le p (x ∷ xs) = ground (arith, length-keep-le p xs)

module _ {A : Type 0} where
  -- `x` is an element of the list.
  abbrev pub In : A → List A → Type 0
  In x [] = ⊥
  In x (y ∷ ys) = (x ≡ y) ⊎ In x ys

  pub In-append_left : (x : A) (xs ys : List A) → In x xs → In x (xs ++ ys)
  In-append_left x [] ys h = absurd h
  In-append_left x (y ∷ xs) ys (inl e) = inl e
  In-append_left x (y ∷ xs) ys (inr h) = inr (In-append_left x xs ys h)

  pub In-append_right : (x : A) (xs ys : List A) → In x ys → In x (xs ++ ys)
  In-append_right x [] ys h = h
  In-append_right x (y ∷ xs) ys h = inr (In-append_right x xs ys h)

  pub In-append : (x : A) (xs ys : List A) → In x (xs ++ ys) → In x xs ⊎ In x ys
  In-append x [] ys h = inr h
  In-append x (y ∷ xs) ys (inl e) = inl (inl e)
  In-append x (y ∷ xs) ys (inr h) = elim (In-append x xs ys h) [
    | inl l ↦ inl (inr l)
    | inr r ↦ inr r
  ]

  pub any-true : (p : A → Bool) (x : A) (xs : List A) → In x xs → p x ≡ true → any p xs ≡ true
  any-true p x [] h t = absurd h
  any-true p x (y ∷ xs) (inl e) t = ground arith
  any-true p x (y ∷ xs) (inr h) t = ground (arith, any-true p x xs h t)

  pub any-false : (p : A → Bool) (x : A) (xs : List A) → any p xs ≡ false → In x xs → p x ≡ false
  any-false p x xs none_of h = elim (Bool-cases (p x)) [
    | inl t ↦ cc (any-true p x xs h t)
    | inr f ↦ f
  ]

  pub In-keep : (p : A → Bool) (x : A) (xs : List A) → In x (keep p xs) → In x xs × (p x ≡ true)
  In-keep p x [] h = absurd h
  In-keep p x (y ∷ xs) h = elim (Bool-cases (p y)) [
    | inl t ↦ elim (rw t at h) [
      | inl e ↦ (inl e, rw e t)
      | inr r ↦ let (m, q) = In-keep p x xs r in (inr m, q)
    ]
    | inr f ↦ let (m, q) = In-keep p x xs (rw f at h) in (inr m, q)
  ]

  pub keep-In : (p : A → Bool) (x : A) (xs : List A) → In x xs → p x ≡ true → In x (keep p xs)
  keep-In p x [] h t = absurd h
  keep-In p x (y ∷ xs) (inl e) t = rw (t_at e) (inl e)
    where
      t_at : x ≡ y → p y ≡ true
      t_at q = rw (← q) t
  keep-In p x (y ∷ xs) (inr h) t = elim (Bool-cases (p y)) [
    | inl here ↦ rw here (inr (keep-In p x xs h t))
    | inr gone ↦ rw gone (keep-In p x xs h t)
  ]

module _ {A : Type 0} ⦃e : Eq A⦄ where
  -- `contains`.
  abbrev pub member : A → List A → Bool
  member x [] = false
  member x (y ∷ ys) = e.equal y x || member x ys

  pub In-of_member : (x : A) (ys : List A) → member x ys ≡ true → In x ys
  In-of_member x [] h = cc
  In-of_member x (y ∷ ys) h = elim (Bool-cases (e.equal y x)) [
    | inl t ↦ inl (cc ((e.equal_iff y x).0 t))
    | inr f ↦ inr (In-of_member x ys (rw f at h))
  ]

  pub member_of_In : (x : A) (ys : List A) → In x ys → member x ys ≡ true
  member_of_In x [] h = absurd h
  member_of_In x (y ∷ ys) (inl p) = ground (arith, e.equal_iff y x)
  member_of_In x (y ∷ ys) (inr p) = ground (arith, member_of_In x ys p)
