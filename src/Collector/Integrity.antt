-- ===== src/Collector/Integrity.antt =====
-- The methods of the collector keep the store well formed, as they change it by calls of it only.
pub mod Capture
pub mod Checks
pub mod Runs
pub mod Spans
pub mod Records
pub mod Methods
use replay_kit.Common.{ℕ, String, Bool, true, false, Option, none, some, List, [], ◌∷◌, ◌≡◌, refl}
use replay_kit.Common.Action.{Keeps, write, after_write}
use replay_kit.Common.Result.{Result, ok, err, map_err, map_ok}
use replay_kit.Collector.Checks.{
  Recording, via, reading, writing, writing_result, updating, updating_result, refuse_unless,
}
use replay_kit.Collector.Requests.{CollectorError, Refusal}
use replay_kit.Collector.Spans.{sequence}
use replay_kit.Model.Enums.{IdKind}
use replay_kit.Model.Records.{RunId, ArtifactRecord}
use replay_kit.Storage.Artifacts.{store_artifact_with_content}
use replay_kit.Storage.Blob.{Env, Bytes}
use replay_kit.Storage.Calls.{after}
use replay_kit.Storage.Calls as Calls
use replay_kit.Storage.Error.{StorageError, Checked}
use replay_kit.Storage.Integrity.{IsWellFormed}
use replay_kit.Storage.Integrity.Aside.{allocate_id-IsWellFormed, next_sequence-IsWellFormed}
use replay_kit.Storage.Integrity.Calls.{after-IsWellFormed}
use replay_kit.Storage.Runs.{next_sequence}
use replay_kit.Storage.State.{MemoryState, InMemoryStorage}
use replay_kit.Workspace.Points.{Service, new_id, on_state}

abbrev pub Sound : InMemoryStorage → Type 0
Sound st = IsWellFormed st.state

pub reading-Keeps :
    {A : Type 0} (f : MemoryState → Checked A) → Keeps Sound {E = CollectorError} (reading f)
unfolding Keeps
reading-Keeps f st w = w

pub via-Keeps : {A : Type 0} (m : Service A) → Keeps Sound m → Keeps Sound (via m)
unfolding Keeps
via-Keeps m k st w = k st w

pub refuse_unless-Keeps :
    (test : Bool) (refusal : Refusal) → Keeps Sound (refuse_unless test refusal)
unfolding Keeps
refuse_unless-Keeps test refusal st w = w

pub new_id-Keeps : (kind : IdKind) → Keeps Sound (new_id kind)
unfolding Keeps
new_id-Keeps kind st w = allocate_id-IsWellFormed st.state w kind

pub store-Keeps :
    (env : Env) (artifact : ArtifactRecord) (content : Bytes)
    → Keeps Sound (store_artifact_with_content env artifact content)
unfolding Keeps after
store-Keeps env artifact content st w =
    after-IsWellFormed env st w (Calls.store_artifact_with_content artifact content)

-- A write keeps the store well formed where its success does.
abbrev pub Safe : (MemoryState → Checked MemoryState) → Type 0
Safe f = (s t : MemoryState) → f s ≡ ok t → IsWellFormed s → IsWellFormed t

writing_result-Keeps :
    (r : Checked MemoryState) (st : InMemoryStorage)
    → ((t : MemoryState) → r ≡ ok t → IsWellFormed t)
    → Sound st
    → Sound (writing_result (map_ok (λ s. record st { state = s }) r) st).1
writing_result-Keeps (ok t) st k w = k t refl
writing_result-Keeps (err e) st k w = w

pub writing-Keeps : (f : MemoryState → Checked MemoryState) → Safe f → Keeps Sound (writing f)
unfolding Keeps
writing-Keeps f k st w = writing_result-Keeps (f st.state) st (λ t h. k st.state t h w) w

write_result-Keeps :
    (r : Checked MemoryState) (st : InMemoryStorage)
    → ((t : MemoryState) → r ≡ ok t → IsWellFormed t)
    → Sound st
    → Sound (after_write (map_ok (λ s. record st { state = s }) r) st).1
write_result-Keeps (ok t) st k w = k t refl
write_result-Keeps (err e) st k w = w

pub write-Keeps :
    (f : MemoryState → Checked MemoryState) → Safe f → Keeps Sound (write (on_state f))
unfolding Keeps
write-Keeps f k st w = write_result-Keeps (f st.state) st (λ t h. k st.state t h w) w

updating_result-Keeps :
    {A : Type 0} (r : Checked (A × MemoryState)) (st : InMemoryStorage)
    → ((a : A) (t : MemoryState) → r ≡ ok (a, t) → IsWellFormed t)
    → Sound st
    → Sound (updating_result r st).1
updating_result-Keeps (ok (a, t)) st k w = k a t refl
updating_result-Keeps (err e) st k w = w

pub sequence-Keeps : (run_id : RunId) → Keeps Sound (sequence run_id)
unfolding Keeps
sequence-Keeps run_id st w =
    updating_result-Keeps (next_sequence run_id st.state) st
      (λ n t h. next_sequence-IsWellFormed st.state w run_id n t h) w
