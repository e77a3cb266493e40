-- ===== src/Storage/Retention.antt =====
-- What `cleanup_branch_execution` takes away, and what it leaves.
use replay_kit.Common.{
  String, Bool, true, ◌&&◌, ◌≡◌, ap, inl, inr, none, some, List, [], ◌∷◌, In, In-append_left,
  In-append_right, member, member_of_In, map, any, arith,
}
use replay_kit.Common.Eq.{Eq, ◌==◌, string_eq, negate}
use replay_kit.Common.Map.{Map, get, remove, get-remove, values}
use replay_kit.Common.Table.{get2, or_empty}
use replay_kit.Common.Tests.{if◌then◌else◌, Bool-cases, Option-cases}
use replay_kit.Model.Records.{RunId, ArtifactId, BranchId, ReplayJobId, ArtifactRecord}
use replay_kit.Storage.Blob.{Blobs, remove_blob}
use replay_kit.Storage.Cleanup.{forget_run, referenced_hashes, drop_blobs, cleanup_branch_execution}
use replay_kit.Storage.State.{MemoryState, InMemoryStorage, artifact_at}

-- What is read under a key is among the values.
module _ {K V : Type 0} ⦃e : Eq K⦄ where
  In-values : (k : K) (m : Map K V) {v : V} → get k m ≡ some v → In v (values m)
  unfolding get
  In-values k [] h = cc
  In-values k ((j, w) ∷ m) h = elim (Bool-cases (j == k)) [
    | inl t ↦ inl (ground arith)
    | inr f ↦ inr (In-values k m (rw (f, get) at h))
  ]

In-map : {A B : Type 0} (f : A → B) (x : A) (xs : List A) → In x xs → In (f x) (map f xs)
In-map f x [] h = h
In-map f x (y ∷ xs) (inl e) = inl (ap f e)
In-map f x (y ∷ xs) (inr h) = inr (In-map f x xs h)

In-referenced :
    (artifacts : Map ArtifactId ArtifactRecord) (all : List (Map ArtifactId ArtifactRecord))
    (x : ArtifactRecord)
    → In artifacts all
    → In x (values artifacts)
    → In x.sha256 (referenced_hashes all)
unfolding referenced_hashes
In-referenced artifacts [] x h k = absurd h
In-referenced artifacts (one ∷ all) x (inl e) k =
    In-append_left x.sha256 (map (λ a. a.sha256) (values one)) (referenced_hashes all)
      (In-map (λ a. a.sha256) x (values one) (rw (← e) k))
In-referenced artifacts (one ∷ all) x (inr h) k =
    In-append_right x.sha256 (map (λ a. a.sha256) (values one)) (referenced_hashes all)
      (In-referenced artifacts all x h k)

-- The digest of a recorded artifact is among those referred to.
artifact-referenced :
    (s : MemoryState) (r : RunId) (i : ArtifactId) (x : ArtifactRecord)
    → artifact_at s r i ≡ some x
    → member x.sha256 (referenced_hashes (values s.artifacts)) ≡ true
unfolding get2
artifact-referenced s r i x h = elim (Option-cases (get r s.artifacts)) [
  | inl miss ↦ cc (rw (miss, get2) at h)
  | inr (inner, hit) ↦ member_of_In x.sha256 (referenced_hashes (values s.artifacts)) (
      In-referenced inner (values s.artifacts) x (In-values r s.artifacts hit)
        (In-values i inner (rw (hit, get2) at h)))
]

abbrev pub has_hash : String → ArtifactRecord → Bool
has_hash hash artifact = artifact.sha256 == hash

get-drop_blobs :
    (hash : String) (referenced : List String) (artifacts : List ArtifactRecord) (blobs : Blobs)
    → get hash (drop_blobs referenced artifacts blobs) ≡ (
        if any (has_hash hash) artifacts && negate (member hash referenced)
        then none
        else get hash blobs)
unfolding drop_blobs remove_blob
get-drop_blobs hash referenced [] blobs = ground arith
get-drop_blobs hash referenced (a ∷ artifacts) blobs =
    elim (Bool-cases (member a.sha256 referenced)) [
      | inl t ↦
          rw (t, drop_blobs)
            (ground (
              arith,
              get-drop_blobs hash referenced artifacts blobs,
              string_eq.equal_iff a.sha256 hash,
            ))
      | inr f ↦
          rw (f, drop_blobs)
            (ground (
              arith,
              get-drop_blobs hash referenced artifacts (remove a.sha256 blobs),
              get-remove a.sha256 hash blobs,
              string_eq.equal_iff a.sha256 hash,
            ))
    ]

module _ (target : RunId) (branch_id : BranchId) (job_id : ReplayJobId) (st : InMemoryStorage) where
  abbrev pub cleaned : InMemoryStorage
  cleaned = cleanup_branch_execution target branch_id job_id st

  -- The artifacts that the target run had.
  abbrev pub target_artifacts : List ArtifactRecord
  target_artifacts = values (or_empty (get target st.state.artifacts))

  -- The artifacts of the runs that are left, by their digests.
  abbrev pub still_referenced : List String
  still_referenced = referenced_hashes (values cleaned.state.artifacts)

  -- After a cleanup a digest has no blob if an artifact of the target run had it and no artifact that
  -- is left has it; under any other digest the blob store is as it was.
  pub blobs-cleanup :
      (hash : String)
      → get hash cleaned.blobs ≡ (
          if any (has_hash hash) target_artifacts && negate (member hash still_referenced)
          then none
          else get hash st.blobs)
  unfolding cleanup_branch_execution
  blobs-cleanup hash =
      get-drop_blobs hash
        (referenced_hashes (values (forget_run target branch_id job_id st.state).artifacts))
        target_artifacts st.blobs

  -- After a cleanup the content of an artifact that is left is as it was.
  pub content-cleanup :
      (r : RunId) (i : ArtifactId) (x : ArtifactRecord)
      → artifact_at cleaned.state r i ≡ some x
      → get x.sha256 cleaned.blobs ≡ get x.sha256 st.blobs
  content-cleanup r i x h =
      ground (arith, blobs-cleanup x.sha256, artifact-referenced cleaned.state r i x h)
