-- ===== src/Workspace/Restore/Ordered.antt =====
-- The changes from one archive to the next stand in the order of their paths, with no path twice.
use replay_kit.Common.{
  String, Bool, true, false, Option, none, some, List, [], ◌∷◌, ◌++◌, ◌≡◌, refl, In, inl, inr, ◌↔◌,
  In-append, Bool-cases,
}
use replay_kit.Common.Eq.{◌==◌, string_eq, string_lt, string_ord}
use replay_kit.Common.Map.{Map, get, is_some}
use replay_kit.Common.Order.{
  IsAscending, string_lt_irrefl, string_lt_trans, string_lt_total, In-get, In-Below,
}
use replay_kit.Workspace.Archive.{WorkspaceArchive, WorkspaceEntry}
use replay_kit.Workspace.Restore.{
  WorkspaceChange, by_path, changed_entry, written_changes, removed_entry, removed_changes,
  insert_change, sort_changes, changes_to, same_content,
}
use replay_kit.Workspace.Restore.Changes.{
  Reported, In-written, In-removed, In-insert, In-sort, In-due, due-In, by_path-IsAscending,
  In-changed, In-gone,
}

-- The path stands before those of the changes.
abbrev pub Precedes : String → List WorkspaceChange → Type 0
Precedes path changes = (c : WorkspaceChange) → In c changes → string_lt path c.path ≡ true

abbrev pub Ascends : List WorkspaceChange → Type 0
Ascends [] = Unit
Ascends (c ∷ changes) = Precedes c.path changes × Ascends changes

-- No path of the changes stands twice.
abbrev Apart : String → List WorkspaceChange → Type 0
Apart path changes = (c : WorkspaceChange) → In c changes → path == c.path ≡ false

abbrev Distinct : List WorkspaceChange → Type 0
Distinct [] = Unit
Distinct (c ∷ changes) = Apart c.path changes × Distinct changes

less_apart : (s t : String) → string_lt s t ≡ true → s == t ≡ false
less_apart s t h = elim (Bool-cases (s == t)) [
  | inl e ↦ cc ((string_eq.equal_iff s t).0 e, string_lt_irrefl s)
  | inr f ↦ f
]

insert-Ascends :
    (c : WorkspaceChange) (changes : List WorkspaceChange)
    → Apart c.path changes
    → Ascends changes
    → Ascends (insert_change c changes)
unfolding insert_change
insert-Ascends c [] apart a = (λ d m. absurd m, tt)
insert-Ascends c (d ∷ changes) apart a = elim (Bool-cases (string_lt d.path c.path)) [
  | inl t ↦ rw t (
    λ x m. elim (In-insert x c changes m) [ inl e ↦ rw e t | inr n ↦ a.0 x n ],
    insert-Ascends c changes (λ x m. apart x (inr m)) a.1,
  )
  | inr f ↦ rw f (
    λ x m. elim m [
      | inl e ↦ rw e (first f)
      | inr n ↦ string_lt_trans c.path d.path x.path (first f) (a.0 x n)
    ],
    a,
  )
]
  where
    first : string_lt d.path c.path ≡ false → string_lt c.path d.path ≡ true
    first f = elim (Bool-cases (string_lt c.path d.path)) [
      | inl t ↦ t
      | inr g ↦ cc (
        apart d (inl refl),
        (string_eq.equal_iff c.path d.path).1 (string_lt_total c.path d.path g f),
      )
    ]

sort-Ascends : (changes : List WorkspaceChange) → Distinct changes → Ascends (sort_changes changes)
unfolding sort_changes
sort-Ascends [] d = tt
sort-Ascends (c ∷ changes) d =
    insert-Ascends c (sort_changes changes) (λ x m. d.0 x (In-sort x changes m))
      (sort-Ascends changes d.1)

append-Distinct :
    (xs ys : List WorkspaceChange)
    → Distinct xs
    → Distinct ys
    → ((x y : WorkspaceChange) → In x xs → In y ys → x.path == y.path ≡ false)
    → Distinct (xs ++ ys)
append-Distinct [] ys d e apart = e
append-Distinct (x ∷ xs) ys d e apart = (
  λ c m. elim (In-append c xs ys m) [ inl l ↦ d.0 c l | inr r ↦ apart x c (inl refl) r ],
  append-Distinct xs ys d.1 e (λ a b m n. apart a b (inr m) n),
)

changed-Distinct :
    (path : String) (entry : WorkspaceEntry) (found : Option WorkspaceEntry)
    → Distinct (changed_entry path entry found)
changed-Distinct path entry none = (λ c m. absurd m, tt)
changed-Distinct path entry (some old) = elim (Bool-cases (same_content old entry)) [
  | inl t ↦ rw t tt
  | inr f ↦ rw f (λ c m. absurd m, tt)
]

gone-Distinct :
    (path : String) (old : WorkspaceEntry) (there : Bool) → Distinct (removed_entry path old there)
gone-Distinct path old true = tt
gone-Distinct path old false = (λ c m. absurd m, tt)

written-Distinct :
    (before after : Map String WorkspaceEntry)
    → IsAscending after
    → Distinct (written_changes before after)
unfolding written_changes
written-Distinct before [] a = tt
written-Distinct before ((path, entry) ∷ after) a =
    append-Distinct (changed_entry path entry (get path before)) (written_changes before after)
      (changed-Distinct path entry (get path before)) (written-Distinct before after a.1)
      (λ x y m n.
        let (p, r) = In-changed x path entry (get path before) m in
        let (e, k, s) = In-written y before after n in
        rw p (less_apart path y.path (In-Below path y.path e after a.0 k)))

removed-Distinct :
    (after before : Map String WorkspaceEntry)
    → IsAscending before
    → Distinct (removed_changes after before)
unfolding removed_changes
removed-Distinct after [] a = tt
removed-Distinct after ((path, old) ∷ before) a =
    append-Distinct (removed_entry path old (is_some (get path after)))
      (removed_changes after before) (gone-Distinct path old (is_some (get path after)))
      (removed-Distinct after before a.1)
      (λ x y m n.
        let (p, gone, r) = In-gone x path old (get path after) m in
        let (o, k, g, s) = In-removed y after before n in
        rw p (less_apart path y.path (In-Below path y.path o before a.0 k)))

-- A written path is in the later archive, and a removed one is not.
written_removed :
    (earlier later : WorkspaceArchive) (x y : WorkspaceChange)
    → In x (written_changes (by_path earlier) (by_path later))
    → In y (removed_changes (by_path later) (by_path earlier))
    → x.path == y.path ≡ false
written_removed earlier later x y m n =
    let (e, k, r) = In-written x (by_path earlier) (by_path later) m in
    let (o, l, gone, s) = In-removed y (by_path later) (by_path earlier) n in
    let there : get x.path (by_path later) ≡ some e =
      In-get x.path e (by_path later) (by_path-IsAscending later) k in
    elim (Bool-cases (x.path == y.path)) [
      | inl t ↦ cc ((string_eq.equal_iff x.path y.path).0 t)
      | inr f ↦ f
    ]

changes-Ascends : (earlier later : WorkspaceArchive) → Ascends (changes_to earlier later)
unfolding changes_to
changes-Ascends earlier later = sort-Ascends _ (
    append-Distinct (written_changes (by_path earlier) (by_path later))
      (removed_changes (by_path later) (by_path earlier))
      (written-Distinct (by_path earlier) (by_path later) (by_path-IsAscending later))
      (removed-Distinct (by_path later) (by_path earlier) (by_path-IsAscending earlier))
      (written_removed earlier later))

-- The changes from one archive to another list a path exactly if its last entries in the two differ,
-- as added, modified or removed and with the kind of its entry, the later one if there is one; and
-- they stand in the order of their paths, with no path twice.
pub changes_to-Reported :
    (earlier later : WorkspaceArchive)
    → Ascends (changes_to earlier later)
      × ((change : WorkspaceChange)
          → In change (changes_to earlier later)
            ↔ Reported
                (get change.path (by_path earlier))
                (get change.path (by_path later))
                change.kind
                change.entry_kind)
changes_to-Reported earlier later = (
  changes-Ascends earlier later,
  λ change. (In-due change earlier later, due-In change earlier later),
)
