-- ===== src/Storage/Integrity/Forget.antt =====
-- Taking a whole run out keeps the store's integrity.
use replay_kit.Common.{◌≡◌, ◌≢◌, String, some, List, In, inl, inr, arith}
use replay_kit.Common.Eq.{◌==◌, string_eq, pair_eq}
use replay_kit.Common.Map.{Map, get, remove, get-remove, get-retain}
use replay_kit.Common.Table.{get2, get2-remove, or_empty}
use replay_kit.Common.Tests.{Bool-cases}
use replay_kit.Model.Records.{RunId, BranchId, ReplayJobId, RunDiffRecord}
use replay_kit.Storage.Cleanup.{forget_run, spares}
use replay_kit.Storage.State.{MemoryState}
use replay_kit.Storage.Integrity.{
  IsWellFormed, ExtendsAt, SpanValid-extend, ArtifactValid-extend, SnapshotValid-extend,
  EventValid-extend, EdgeValid-extend,
}

-- Reading from a map with one key taken out.
module _ {V : Type 0} (target r : String) (m : Map String V) where
  get_removed_some : {x : V} → get r (remove target m) ≡ some x → (target ≢ r) × (get r m ≡ some x)
  get_removed_some h = ground (arith, get-remove target r m, string_eq.equal_iff target r)

  get_removed_ne : target ≢ r → get r (remove target m) ≡ get r m
  get_removed_ne h = ground (arith, get-remove target r m, string_eq.equal_iff target r)

module _ {V : Type 0} (target r i : String) (m : Map String (Map String V)) where
  get2_removed_some :
      {x : V} → get2 r i (remove target m) ≡ some x → (target ≢ r) × (get2 r i m ≡ some x)
  get2_removed_some h = ground (arith, get2-remove target r i m, string_eq.equal_iff target r)

  get2_removed_ne : target ≢ r → get2 r i (remove target m) ≡ get2 r i m
  get2_removed_ne h = ground (arith, get2-remove target r i m, string_eq.equal_iff target r)

module _ {V : Type 0} (target r : String) (m : Map String (List V)) where
  In-removed :
      (x : V) → In x (or_empty (get r (remove target m))) → (target ≢ r) × In x (or_empty (get r m))
  In-removed x h = elim (Bool-cases (target == r)) [
    | inl t ↦ absurd (rw (get-remove target r m, t) at h)
    | inr f ↦ (λ e. cc (f, (string_eq.equal_iff target r).1 e), rw (get-remove target r m, f) at h)
  ]

module _ (target : RunId) (branch_id : BranchId) (job_id : ReplayJobId) (s : MemoryState) where
  abbrev forgotten : MemoryState
  forgotten = forget_run target branch_id job_id s

  -- The other runs keep what they had.
  pub forget_run-ExtendsAt : (r : RunId) → target ≢ r → ExtendsAt s forgotten r
  unfolding forget_run
  forget_run-ExtendsAt r other = record {
    run = λ h. ground (arith, get_removed_ne target r s.runs);
    spans = λ i h. ground (arith, get2_removed_ne target r i s.spans);
    artifacts = λ i x h. ground (arith, get2_removed_ne target r i s.artifacts);
  }

  spared :
      (p q : RunId) {x : RunDiffRecord}
      → get (p, q) forgotten.diffs ≡ some x
      → (target ≢ p) × (target ≢ q) × (get (p, q) s.diffs ≡ some x)
  unfolding forget_run
  spared p q h = ground (
    arith,
    get-retain (spares target) (p, q) s.diffs,
    string_eq.equal_iff p target,
    string_eq.equal_iff q target,
  )

  pub forget_run-IsWellFormed : IsWellFormed s → IsWellFormed forgotten
  unfolding forget_run
  forget_run-IsWellFormed w = record {
    runs = λ r x h. w.runs r x (get_removed_some target r s.runs h).1;
    spans = λ r i x h.
        let (other, old) = get2_removed_some target r i s.spans h in
        SpanValid-extend (forget_run-ExtendsAt r other) (w.spans r i x old);
    artifacts = λ r i x h.
        let (other, old) = get2_removed_some target r i s.artifacts h in
        ArtifactValid-extend (forget_run-ExtendsAt r other) (w.artifacts r i x old);
    snapshots = λ r i x h.
        let (other, old) = get2_removed_some target r i s.snapshots h in
        SnapshotValid-extend (forget_run-ExtendsAt r other) (w.snapshots r i x old);
    events = λ r x h.
        let (other, old) = In-removed target r s.events x h in
        EventValid-extend (forget_run-ExtendsAt r other) (w.events r x old);
    distinct_events = λ r x y p q e.
        w.distinct_events r x y (In-removed target r s.events x p).1
          (In-removed target r s.events y q).1 e;
    edges = λ r x h.
        let (other, old) = In-removed target r s.edges x h in
        EdgeValid-extend (forget_run-ExtendsAt r other) (w.edges r x old);
    diffs = λ p q x h.
        let (apart_p, apart_q, old) = spared p q h in
        let (at_p, at_q) = w.diffs p q x old in
        ((forget_run-ExtendsAt p apart_p).run at_p, (forget_run-ExtendsAt q apart_q).run at_q);
  }
