-- ===== src/Common/Table.antt =====
-- Maps of maps, `BTreeMap<K, BTreeMap<J, V>>`, and maps of vectors.
use mathlib.Core.Bool.{true, ◌&&◌}
use mathlib.Core.List.{List, [], ◌∷◌, ◌++◌}
use mathlib.Core.Logic.{◌⊎◌, inl, inr}
use mathlib.Core.Option.{Option, none, some}
use native.Mathlib.Omega.{arith}
use mathlib.Core.Path.{◌≡◌, refl, sym, ap, ◌∙◌}
use replay_kit.Common.Eq.{Eq, Ord, ◌==◌}
use replay_kit.Common.Lists.{In, In-append, In-append_left, In-append_right}
use replay_kit.Common.Map.{Map, is_some, get, insert, remove, get-insert, get-remove, get-nil}
use replay_kit.Common.Tests.{if◌then◌else◌, Bool-cases, Option-cases}

-- `unwrap_or_default`, for a map or a vector.
abbrev pub or_empty {ℓ} : {A : Type ℓ} → Option (List A) → List A
or_empty none = []
or_empty (some l) = l

module _ {ℓ κ μ} {K : Type ℓ} {J : Type κ} {V : Type μ} ⦃e : Eq K⦄ ⦃f : Eq J⦄ where
  -- `m.get(k).and_then(|inner| inner.get(j))`.
  unfoldable pub get2 : K → J → Map K (Map J V) → Option V
  get2 k j m = elim (get k m) [ none ↦ none | some inner ↦ get j inner ]

  pub get2-nil : (k : K) (j : J) → get2 k j [] ≡ none
  unfolding get2
  get2-nil k j = rw (get-nil {V = Map J V} k, get2)

  pub get2-or_empty :
      (k : K) (j : J) (m : Map K (Map J V)) → get2 k j m ≡ get j (or_empty (get k m))
  unfolding get2
  get2-or_empty k j m = elim (Option-cases (get k m)) [
    | inl miss ↦ rw (miss, get2, get-nil)
    | inr (inner, hit) ↦ rw (hit, get2)
  ]

  pub get2-remove :
      (k i : K) (j : J) (m : Map K (Map J V))
      → get2 i j (remove k m) ≡ (if k == i then none else get2 i j m)
  unfolding get2
  get2-remove k i j m =
      rw (get-remove k i m, get2) (elim (Bool-cases (k == i)) [ inl t ↦ rw t | inr t ↦ rw t ])

module _ {ℓ κ μ} {K : Type ℓ} {J : Type κ} {V : Type μ} ⦃e : Eq K⦄ ⦃o : Ord K⦄ ⦃f : Eq J⦄
    ⦃p : Ord J⦄ where
  -- `m.entry(k).or_default().insert(j, v)`.
  unfoldable pub insert2 : K → J → V → Map K (Map J V) → Map K (Map J V)
  insert2 k j v m = insert k (insert j v (or_empty (get k m))) m

  pub get2-insert2 :
      (k i : K) (j l : J) (v : V) (m : Map K (Map J V))
      → get2 i l (insert2 k j v m) ≡ (if k == i && j == l then some v else get2 i l m)
  unfolding insert2
  get2-insert2 k i j l v m =
      rw
        (
          get2-or_empty i l (insert2 k j v m),
          insert2,
          get-insert k i (insert j v (or_empty (get k m))) m,
        )
        (elim (Bool-cases (k == i)) [
          | inl t ↦ rw t (
              rw (get-insert j l v (or_empty (get k m))) (elim (Bool-cases (j == l)) [
                | inl s ↦ rw s
                | inr s ↦
                    rw s (sym (get2-or_empty k l m) ∙ ap (λ x. get2 x l m) ((e.equal_iff k i).0 t))
              ]))
          | inr t ↦ rw t (sym (get2-or_empty i l m))
        ])

module _ {ℓ κ} {K : Type ℓ} {V : Type κ} ⦃e : Eq K⦄ ⦃o : Ord K⦄ where
  -- `m.entry(k).or_default().push(v)`.
  unfoldable pub push : K → V → Map K (List V) → Map K (List V)
  push k v m = insert k (or_empty (get k m) ++ v ∷ []) m

  pub list-push :
      (k i : K) (v : V) (m : Map K (List V))
      → or_empty (get i (push k v m))
        ≡ (if k == i then or_empty (get k m) ++ v ∷ [] else or_empty (get i m))
  unfolding push
  list-push k i v m = rw get-insert (elim (Bool-cases (k == i)) [ inl t ↦ rw t | inr t ↦ rw t ])

-- What is read after an insertion is what was inserted, or was there before.
module _ {K J V : Type 0} ⦃e : Eq K⦄ ⦃o : Ord K⦄ ⦃f : Eq J⦄ ⦃p : Ord J⦄ where
  pub insert2_cases :
      (k i : K) (j l : J) (v : V) (m : Map K (Map J V)) {x : V}
      → get2 i l (insert2 k j v m) ≡ some x
      → ((i ≡ k) × (l ≡ j) × (x ≡ v)) ⊎ (get2 i l m ≡ some x)
  insert2_cases k i j l v m h =
      ground (arith, get2-insert2 k i j l v m, e.equal_iff k i, f.equal_iff j l)

  pub insert2_keeps :
      (k i : K) (j l : J) (v : V) (m : Map K (Map J V))
      → is_some (get2 i l m) ≡ true
      → is_some (get2 i l (insert2 k j v m)) ≡ true
  insert2_keeps k i j l v m h = ground (arith, get2-insert2 k i j l v m)

module _ {K V : Type 0} ⦃e : Eq K⦄ ⦃o : Ord K⦄ where
  pub push_cases :
      (k i : K) (v : V) (m : Map K (List V)) (x : V)
      → In x (or_empty (get i (push k v m)))
      → ((i ≡ k) × (x ≡ v)) ⊎ In x (or_empty (get i m))
  push_cases k i v m x h = elim (Bool-cases (k == i)) [
    | inl t ↦
        let same : k ≡ i = (e.equal_iff k i).0 t in
        elim (In-append x (or_empty (get k m)) (v ∷ []) (rw (list-push k i v m, t) at h)) [
          | inl old ↦ inr (rw (← same) old)
          | inr new ↦ elim new [ inl q ↦ inl (sym same, q) | inr none_left ↦ absurd none_left ]
        ]
    | inr f ↦ inr (rw (list-push k i v m, f) at h)
  ]

  pub push_keeps :
      (k i : K) (v : V) (m : Map K (List V)) (x : V)
      → In x (or_empty (get i m))
      → In x (or_empty (get i (push k v m)))
  push_keeps k i v m x h = elim (Bool-cases (k == i)) [
    | inl t ↦
        let same : k ≡ i = (e.equal_iff k i).0 t in
        rw (list-push k i v m, t) (In-append_left x (or_empty (get k m)) (v ∷ []) (rw same h))
    | inr f ↦ rw (list-push k i v m, f) h
  ]

  pub push_new : (k : K) (v : V) (m : Map K (List V)) → In v (or_empty (get k (push k v m)))
  push_new k v m =
      rw (list-push k k v m, (e.equal_iff k k).1 refl)
        (In-append_right v (or_empty (get k m)) (v ∷ []) (inl refl))
