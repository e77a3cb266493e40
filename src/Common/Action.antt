-- ===== src/Common/Action.antt =====
-- Methods that change an object and may fail, as functions from the object's state: what was
-- changed before a failure stays changed. The bind is that of `do` blocks.
use mathlib.Core.Path.{◌≡◌, refl, subst}
use native.Mathlib.Omega.{arith}
use replay_kit.Common.Result.{Result, ok, err}

abbrev pub Action : Type 0 → Type 0 → Type 0 → Type 0
Action S E A = S → Result E A × S

module _ {S E : Type 0} where
  abbrev pub continue_with : {A B : Type 0} → Result E A × S → (A → Action S E B) → Result E B × S
  continue_with (ok a, s) f = f a s
  continue_with (err e, s) f = (err e, s)

  abbrev pub pure : {A : Type 0} → A → Action S E A
  pure a s = (ok a, s)

  abbrev pub fail : {A : Type 0} → E → Action S E A
  fail e s = (err e, s)

  -- A result that leaves the state alone.
  abbrev pub lift : {A : Type 0} → Result E A → Action S E A
  lift r s = (r, s)

  -- A read of the state.
  abbrev pub ask : {A : Type 0} → (S → A) → Action S E A
  ask f s = (ok (f s), s)

  abbrev pub try_ask : {A : Type 0} → (S → Result E A) → Action S E A
  try_ask f s = (f s, s)

  -- The result of a write that leaves the state alone where it fails.
  abbrev pub after_write : Result E S → S → Result E (Unit {0}) × S
  after_write (ok s) old = (ok tt, s)
  after_write (err e) old = (err e, old)

  abbrev pub write : (S → Result E S) → Action S E (Unit {0})
  write f s = after_write (f s) s

  abbrev pub after_write_second : {A : Type 0} → Result E (A × S) → S → Result E A × S
  after_write_second (ok (a, s)) old = (ok a, s)
  after_write_second (err e) old = (err e, old)

  abbrev pub write_second : {A : Type 0} → (S → Result E (A × S)) → Action S E A
  write_second f s = after_write_second (f s) s

  -- A write that returns a value and cannot fail.
  abbrev pub update : {A : Type 0} → (S → A × S) → Action S E A
  update f s = let (a, t) = f s in (ok a, t)

infixl 5 ◌>>=◌ ◌>>◌
unfoldable pub ◌>>=◌ : {S E A B : Type 0} → Action S E A → (A → Action S E B) → Action S E B
◌>>=◌ m f s = continue_with (m s) f

unfoldable pub ◌>>◌ : {S E B : Type 0} → Action S E (Unit {0}) → Action S E B → Action S E B
m >> k = m >>= λ _. k

-- A method after which the state has a property if it had it before, whether it fails or not.
module _ {S : Type 0} (P : S → Type 0) {E : Type 0} where
  unfoldable pub Keeps : {A : Type 0} → Action S E A → Type 0
  Keeps m = (s : S) → P s → P (m s).1

  keeps-continue :
      {A B : Type 0} (r : Result E A × S) (f : A → Action S E B)
      → P r.1
      → ((a : A) → Keeps (f a))
      → P (continue_with r f).1
  unfolding Keeps
  keeps-continue (ok a, t) f p k = k a t p
  keeps-continue (err e, t) f p k = p

  pub keeps-bind :
      {A B : Type 0} (m : Action S E A) (f : A → Action S E B)
      → Keeps m
      → ((a : A) → Keeps (f a))
      → Keeps (m >>= f)
  unfolding Keeps ◌>>=◌
  keeps-bind m f k l s p = keeps-continue (m s) f (k s p) l

  pub keeps-then :
      {B : Type 0} (m : Action S E (Unit {0})) (k : Action S E B)
      → Keeps m
      → Keeps k
      → Keeps (m >> k)
  unfolding ◌>>◌
  keeps-then m k i j = keeps-bind m (λ _. k) i (λ _. j)

  -- What only reads the state keeps every property of it.
  pub keeps-read : {A : Type 0} (f : S → Result E A) → Keeps (λ s. (f s, s))
  unfolding Keeps
  keeps-read f s p = p

  -- What follows a result has to keep the property where the result is a success.
  pub keeps-lift :
      {A B : Type 0} (r : Result E A) (f : A → Action S E B)
      → ((a : A) → r ≡ ok a → Keeps (f a))
      → Keeps (lift r >>= f)
  unfolding Keeps ◌>>=◌
  keeps-lift (ok a) f k s p = k a refl s p
  keeps-lift (err e) f k s p = p

  continue_learned :
      {A B : Type 0} (r : Result E A × S) (f : A → Action S E B)
      → P r.1
      → ((a : A) (t : S) → r ≡ (ok a, t) → P (f a t).1)
      → P (continue_with r f).1
  continue_learned (ok a, t) f p k = k a t refl
  continue_learned (err e, t) f p k = p

  -- What follows a method may use what the method returned.
  pub keeps-learn :
      {A B : Type 0} (m : Action S E A) (f : A → Action S E B)
      → Keeps m
      → ((a : A) (s t : S) → P s → m s ≡ (ok a, t) → Keeps (f a))
      → Keeps (m >>= f)
  unfolding Keeps ◌>>=◌
  keeps-learn m f k l s p =
      continue_learned (m s) f (k s p) (λ a t e. l a s t p e t (subst (λ r. P r.1) e (k s p)))

-- What a method returns where it succeeds.
module _ {S E A : Type 0} (R : A → Type 0) where
  unfoldable pub Yields : Action S E A → Type 0
  Yields m = (s t : S) (a : A) → m s ≡ (ok a, t) → R a

  continue_yields :
      {B : Type 0} (r : Result E B × S) (f : B → Action S E A) (t : S) (a : A)
      → ((b : B) → Yields (f b))
      → continue_with r f ≡ (ok a, t)
      → R a
  unfolding Yields
  continue_yields (ok b, s) f t a k e = k b s t a e
  continue_yields (err x, s) f t a k e = cc

  pub Yields-bind :
      {B : Type 0} (m : Action S E B) (f : B → Action S E A)
      → ((b : B) → Yields (f b))
      → Yields (m >>= f)
  unfolding Yields ◌>>=◌
  Yields-bind m f k s t a e = continue_yields (m s) f t a k e

  pub Yields-pure : (m : Action S E A) (a : A) → ((s : S) → m s ≡ (ok a, s)) → R a → Yields m
  unfolding Yields
  Yields-pure m a is_pure h s t b e =
      let first : m s ≡ (ok a, s) = is_pure s in
      let same : a ≡ b = ground (arith, first, e) in subst R same h
