-- ===== src/Workspace/Restore/Changes.antt =====
-- The changes from one archive to the next: each path whose entry differs, once, in order.
use mathlib.Core.Path.{subst}
use replay_kit.Common.{
  String, false, Option, none, some, List, [], ◌∷◌, ◌≡◌, refl, ap, ◌∙◌, In, inl, inr, In-append,
  In-append_left, In-append_right, Bool-cases,
}
use replay_kit.Common.Eq.{string_eq, string_lt, string_ord}
use replay_kit.Common.Map.{Map, get, insert, is_some}
use replay_kit.Common.Order.{IsAscending, insert-IsAscending, get-In, In-get}
use replay_kit.Workspace.Archive.{WorkspaceArchive, WorkspaceEntry, EntryKind}
use replay_kit.Workspace.Restore.{
  WorkspaceChange, ChangeKind, same_content, entries_from, by_path, changed_entry, written_changes,
  removed_entry, removed_changes, insert_change, sort_changes, changes_to,
}

-- What is to be reported of a path, from its entries in the earlier and in the later archive.
abbrev pub Reported :
    Option WorkspaceEntry → Option WorkspaceEntry → ChangeKind → EntryKind → Type 0
Reported none none kind entry_kind = ⊥
Reported none (some entry) kind entry_kind = (kind ≡ ChangeKind.added) × (entry_kind ≡ entry.kind)
Reported (some old) none kind entry_kind = (kind ≡ ChangeKind.removed) × (entry_kind ≡ old.kind)
Reported (some old) (some entry) kind entry_kind =
    (same_content old entry ≡ false) × (kind ≡ ChangeKind.modified) × (entry_kind ≡ entry.kind)

entries_from-IsAscending :
    (acc : Map String WorkspaceEntry) (entries : List WorkspaceEntry)
    → IsAscending acc
    → IsAscending (entries_from acc entries)
unfolding entries_from
entries_from-IsAscending acc [] a = a
entries_from-IsAscending acc (entry ∷ entries) a =
    entries_from-IsAscending (insert entry.path entry acc) entries
      (insert-IsAscending entry.path entry acc a)

pub by_path-IsAscending : (a : WorkspaceArchive) → IsAscending (by_path a)
unfolding by_path
by_path-IsAscending a = entries_from-IsAscending [] a.entries tt

same_change :
    {a b : WorkspaceChange}
    → a.path ≡ b.path
    → a.kind ≡ b.kind
    → a.entry_kind ≡ b.entry_kind
    → a ≡ b
same_change p k e = λ i. record { path = p i; kind = k i; entry_kind = e i }

module _ (change : WorkspaceChange) where
  pub In-changed :
      (path : String) (entry : WorkspaceEntry) (found : Option WorkspaceEntry)
      → In change (changed_entry path entry found)
      → (change.path ≡ path) × Reported found (some entry) change.kind change.entry_kind
  In-changed path entry none (inl e) =
      (ap (λ c. c.path) e, (ap (λ c. c.kind) e, ap (λ c. c.entry_kind) e))
  In-changed path entry none (inr h) = absurd h
  In-changed path entry (some old) h = elim (Bool-cases (same_content old entry)) [
    | inl t ↦ absurd (rw t at h)
    | inr f ↦ elim (rw f at h) [
      | inl e ↦ (ap (λ c. c.path) e, (f, ap (λ c. c.kind) e, ap (λ c. c.entry_kind) e))
      | inr n ↦ absurd n
    ]
  ]

  changed-In :
      (path : String) (entry : WorkspaceEntry) (found : Option WorkspaceEntry)
      → change.path ≡ path
      → Reported found (some entry) change.kind change.entry_kind
      → In change (changed_entry path entry found)
  changed-In path entry none p (k, e) = inl (same_change p k e)
  changed-In path entry (some old) p (f, k, e) = rw f (inl (same_change p k e))

  pub In-written :
      (before after : Map String WorkspaceEntry)
      → In change (written_changes before after)
      → (entry : WorkspaceEntry) × In (change.path, entry) after
        × Reported (get change.path before) (some entry) change.kind change.entry_kind
  unfolding written_changes
  In-written before [] h = absurd h
  In-written before ((path, entry) ∷ after) h =
      elim (In-append change (changed_entry path entry (get path before)) _ h) [
        | inl here ↦
            let (p, r) = In-changed path entry (get path before) here in
            (entry, inl (ap (λ q. (q, entry)) p), rw p r)
        | inr later ↦ let (e, m, r) = In-written before after later in (e, inr m, r)
      ]

  written-In :
      (before after : Map String WorkspaceEntry) (entry : WorkspaceEntry)
      → In (change.path, entry) after
      → Reported (get change.path before) (some entry) change.kind change.entry_kind
      → In change (written_changes before after)
  unfolding written_changes
  written-In before [] entry m r = absurd m
  written-In before ((path, other) ∷ after) entry (inl e) r =
      In-append_left change (changed_entry path other (get path before)) _ (
        changed-In path other (get path before) (ap (λ q. q.0) e)
          (subst (λ q. Reported (get q.0 before) (some q.1) change.kind change.entry_kind) e r))
  written-In before ((path, other) ∷ after) entry (inr m) r =
      In-append_right change (changed_entry path other (get path before)) _
        (written-In before after entry m r)

  pub In-gone :
      (path : String) (old : WorkspaceEntry) (found : Option WorkspaceEntry)
      → In change (removed_entry path old (is_some found))
      → (change.path ≡ path)
        × (found ≡ none)
        × Reported (some old) none change.kind change.entry_kind
  In-gone path old none (inl e) =
      (ap (λ c. c.path) e, refl, (ap (λ c. c.kind) e, ap (λ c. c.entry_kind) e))
  In-gone path old none (inr h) = absurd h
  In-gone path old (some entry) h = absurd h

  pub In-removed :
      (after before : Map String WorkspaceEntry)
      → In change (removed_changes after before)
      → (old : WorkspaceEntry) × In (change.path, old) before
        × (get change.path after ≡ none)
        × Reported (some old) none change.kind change.entry_kind
  unfolding removed_changes
  In-removed after [] h = absurd h
  In-removed after ((path, old) ∷ before) h =
      elim (In-append change (removed_entry path old (is_some (get path after))) _ h) [
        | inl here ↦
            let (p, gone, r) = In-gone path old (get path after) here in
            (old, inl (ap (λ q. (q, old)) p), rw p gone, r)
        | inr later ↦ let (o, m, gone, r) = In-removed after before later in (o, inr m, gone, r)
      ]

  removed-In :
      (after before : Map String WorkspaceEntry) (old : WorkspaceEntry)
      → In (change.path, old) before
      → get change.path after ≡ none
      → Reported (some old) none change.kind change.entry_kind
      → In change (removed_changes after before)
  unfolding removed_changes
  removed-In after [] old m gone r = absurd m
  removed-In after ((path, other) ∷ before) old (inl e) gone r =
      In-append_left change (removed_entry path other (is_some (get path after))) _
        (rw (← ap (λ q. q.0) e, gone) (inl (same_change refl r.0 (r.1 ∙ ap (λ q. q.1.kind) e))))
  removed-In after ((path, other) ∷ before) old (inr m) gone r =
      In-append_right change (removed_entry path other (is_some (get path after))) _
        (removed-In after before old m gone r)

  pub In-insert :
      (other : WorkspaceChange) (rest : List WorkspaceChange)
      → In change (insert_change other rest)
      → In change (other ∷ rest)
  unfolding insert_change
  In-insert other [] h = h
  In-insert other (c ∷ rest) h = elim (Bool-cases (string_lt c.path other.path)) [
    | inl t ↦ elim (rw t at h) [
      | inl e ↦ inr (inl e)
      | inr m ↦ elim (In-insert other rest m) [ inl e ↦ inl e | inr n ↦ inr (inr n) ]
    ]
    | inr f ↦ rw f at h
  ]

  insert-In :
      (other : WorkspaceChange) (rest : List WorkspaceChange)
      → In change (other ∷ rest)
      → In change (insert_change other rest)
  unfolding insert_change
  insert-In other [] h = h
  insert-In other (c ∷ rest) h = elim (Bool-cases (string_lt c.path other.path)) [
    | inl t ↦ rw t (elim h [
      | inl e ↦ inr (insert-In other rest (inl e))
      | inr m ↦ elim m [ inl e ↦ inl e | inr n ↦ inr (insert-In other rest (inr n)) ]
    ])
    | inr f ↦ rw f h
  ]

  pub In-sort :
      (changes : List WorkspaceChange) → In change (sort_changes changes) → In change changes
  unfolding sort_changes
  In-sort [] h = h
  In-sort (c ∷ rest) h = elim (In-insert c (sort_changes rest) h) [
    | inl e ↦ inl e
    | inr m ↦ inr (In-sort rest m)
  ]

  sort-In : (changes : List WorkspaceChange) → In change changes → In change (sort_changes changes)
  unfolding sort_changes
  sort-In [] h = h
  sort-In (c ∷ rest) (inl e) = insert-In c (sort_changes rest) (inl e)
  sort-In (c ∷ rest) (inr m) = insert-In c (sort_changes rest) (inr (sort-In rest m))

  module _ (earlier later : WorkspaceArchive) where
    abbrev Due : Type 0
    Due =
        Reported (get change.path (by_path earlier)) (get change.path (by_path later)) change.kind
          change.entry_kind

    pub In-due : In change (changes_to earlier later) → Due
    unfolding changes_to
    In-due h =
        elim (In-append change (written_changes (by_path earlier) (by_path later)) _
          (In-sort _ h)) [
            | inl w ↦
                let (entry, m, r) = In-written (by_path earlier) (by_path later) w in
                rw (In-get change.path entry (by_path later) (by_path-IsAscending later) m) r
            | inr d ↦
                let (old, m, gone, r) = In-removed (by_path later) (by_path earlier) d in
                rw (gone, In-get change.path old (by_path earlier) (by_path-IsAscending earlier) m)
                  r
          ]

    pub due-In : Due → In change (changes_to earlier later)
    unfolding changes_to
    due-In due =
        listed (get change.path (by_path earlier)) (get change.path (by_path later)) refl refl due
      where
        listed :
            (old new : Option WorkspaceEntry)
            → get change.path (by_path earlier) ≡ old
            → get change.path (by_path later) ≡ new
            → Reported old new change.kind change.entry_kind
            → In change (changes_to earlier later)
        listed none none b a r = absurd r
        listed (some old) none b a r = sort-In _ (
            In-append_right change (written_changes (by_path earlier) (by_path later)) _ (
              removed-In (by_path later) (by_path earlier) old
                (get-In change.path old (by_path earlier) b) a r))
        listed old (some entry) b a r = sort-In _ (
            In-append_left change (written_changes (by_path earlier) (by_path later)) _ (
              written-In (by_path earlier) (by_path later) entry
                (get-In change.path entry (by_path later) a) (rw b r)))
