-- ===== src/Common/Order.antt =====
-- The order of texts, and maps whose keys ascend in it.
use Prim.Native.Char.{code}
use mathlib.Core.List.{[], ◌∷◌}
use mathlib.Core.Bool.{true, false}
use mathlib.Core.Logic.{inl, inr}
use mathlib.Core.Option.{some}
use mathlib.Core.Path.{◌≡◌, refl, ap}
use native.Mathlib.Omega.{arith}
use text.Mathlib.TextEquality.{Char-path}
use Prim.Native.String.{String}
use replay_kit.Common.Eq.{◌==◌, string_eq, string_ord, string_lt}
use replay_kit.Common.Lists.{In}
use replay_kit.Common.Map.{Map, get, insert}
use replay_kit.Common.Tests.{Bool-cases}

pub string_lt_irrefl : (s : String) → string_lt s s ≡ false
unfolding string_lt
string_lt_irrefl String.[] = refl
string_lt_irrefl (String.◌∷◌ c s) = ground (arith, string_lt_irrefl s)

pub string_lt_trans :
    (s t u : String) → string_lt s t ≡ true → string_lt t u ≡ true → string_lt s u ≡ true
unfolding string_lt
string_lt_trans String.[] String.[] u h k = ground arith
string_lt_trans String.[] (String.◌∷◌ d t) String.[] h k = ground arith
string_lt_trans String.[] (String.◌∷◌ d t) (String.◌∷◌ e u) h k = refl
string_lt_trans (String.◌∷◌ c s) String.[] u h k = ground arith
string_lt_trans (String.◌∷◌ c s) (String.◌∷◌ d t) String.[] h k = ground arith
string_lt_trans (String.◌∷◌ c s) (String.◌∷◌ d t) (String.◌∷◌ e u) h k =
    ground (arith, string_lt_trans s t u)

-- Two texts that neither precede the other are one.
pub string_lt_total : (s t : String) → string_lt s t ≡ false → string_lt t s ≡ false → s ≡ t
unfolding string_lt
string_lt_total String.[] String.[] h k = refl
string_lt_total String.[] (String.◌∷◌ d t) h k = ground arith
string_lt_total (String.◌∷◌ c s) String.[] h k = ground arith
string_lt_total (String.◌∷◌ c s) (String.◌∷◌ d t) h k =
    let same : code c ≡ code d = ground arith in
    let below : string_lt s t ≡ false = ground arith in
    let above : string_lt t s ≡ false = ground arith in
    cc (Char-path c d same, string_lt_total s t below above)

module _ {V : Type 0} where
  -- The key stands before every key of the map.
  abbrev pub Below : String → Map String V → Type 0
  Below k [] = Unit
  Below k ((j, v) ∷ m) = (string_lt k j ≡ true) × Below k m

  abbrev pub IsAscending : Map String V → Type 0
  IsAscending [] = Unit
  IsAscending ((k, v) ∷ m) = Below k m × IsAscending m

  Below-trans : (i k : String) (m : Map String V) → string_lt i k ≡ true → Below k m → Below i m
  Below-trans i k [] h b = tt
  Below-trans i k ((j, v) ∷ m) h b = (string_lt_trans i k j h b.0, Below-trans i k m h b.1)

  Below-insert :
      (i k : String) (v : V) (m : Map String V)
      → string_lt i k ≡ true
      → Below i m
      → Below i (insert k v m)
  unfolding insert
  Below-insert i k v [] h b = (h, tt)
  Below-insert i k v ((j, w) ∷ m) h b = elim (Bool-cases (j == k)) [
    | inl t ↦ rw t (h, b.1)
    | inr f ↦ elim (Bool-cases (string_lt k j)) [
      | inl less ↦ rw (f, less) (h, b)
      | inr more ↦ rw (f, more) (b.0, Below-insert i k v m h b.1)
    ]
  ]

  pub insert-IsAscending :
      (k : String) (v : V) (m : Map String V) → IsAscending m → IsAscending (insert k v m)
  unfolding insert
  insert-IsAscending k v [] a = (tt, tt)
  insert-IsAscending k v ((j, w) ∷ m) a = elim (Bool-cases (j == k)) [
    | inl t ↦ rw t (rw (← (string_eq.equal_iff j k).0 t) a.0, a.1)
    | inr f ↦ elim (Bool-cases (string_lt k j)) [
      | inl less ↦ rw (f, less) ((less, Below-trans k j m less a.0), a)
      | inr more ↦
          rw (f, more)
            (Below-insert j k v m (precedes j k f more) a.0, insert-IsAscending k v m a.1)
    ]
  ]
    where
      precedes : (i l : String) → (i == l) ≡ false → string_lt l i ≡ false → string_lt i l ≡ true
      precedes i l f more = elim (Bool-cases (string_lt i l)) [
        | inl t ↦ t
        | inr same ↦ cc ((string_eq.equal_iff i l).1 (string_lt_total i l same more))
      ]

  get-Below : (k : String) (v : V) (m : Map String V) → Below k m → In (k, v) m → ⊥
  get-Below k v [] b h = h
  get-Below k v ((j, w) ∷ m) b (inl e) = cc (string_lt_irrefl k, b.0, ap (λ p. p.0) e)
  get-Below k v ((j, w) ∷ m) b (inr h) = get-Below k v m b.1 h

  pub get-In : (k : String) (v : V) (m : Map String V) → get k m ≡ some v → In (k, v) m
  unfolding get
  get-In k v [] h = cc
  get-In k v ((j, w) ∷ m) h = elim (Bool-cases (j == k)) [
    | inl t ↦ inl (cc ((string_eq.equal_iff j k).0 t, rw t at h))
    | inr f ↦ inr (get-In k v m (rw f at h))
  ]

  pub In-get :
      (k : String) (v : V) (m : Map String V) → IsAscending m → In (k, v) m → get k m ≡ some v
  unfolding get
  In-get k v [] a h = absurd h
  In-get k v ((j, w) ∷ m) a (inl e) =
      ground (arith, string_eq.equal_iff j k, ap (λ p. p.0) e, ap (λ p. p.1) e)
  In-get k v ((j, w) ∷ m) a (inr h) = elim (Bool-cases (j == k)) [
    | inl t ↦ absurd (get-Below j v m a.0 (rw ((string_eq.equal_iff j k).0 t) h))
    | inr f ↦ rw f (In-get k v m a.1 h)
  ]

  pub In-Below :
      (i k : String) (v : V) (m : Map String V) → Below i m → In (k, v) m → string_lt i k ≡ true
  In-Below i k v [] b h = absurd h
  In-Below i k v ((j, w) ∷ m) b (inl e) = rw (ap (λ p. p.0) e) b.0
  In-Below i k v ((j, w) ∷ m) b (inr h) = In-Below i k v m b.1 h
