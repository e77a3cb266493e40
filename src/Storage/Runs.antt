-- ===== src/Storage/Runs.antt =====
-- Ids, sequence numbers and runs: `allocate_id` to `list_runs` of `InMemoryStorage`.
use Prim.Native.String.{◌++◌}
use replay_kit.Common.{ℕ, ◌+◌, ◌%◌, ◌^◌, String, List}
use replay_kit.Common.Eq.{string_eq, string_ord, negate}
use replay_kit.Common.Hex.{hex16}
use replay_kit.Common.Map.{insert, entry_or, values}
use replay_kit.Common.Result.{ok, guard, ◌>>◌}
use replay_kit.Common.Sort.{sort_by_key}
use replay_kit.Model.Enums.{IdKind, id_kind_eq, id_kind_ord, prefix}
use replay_kit.Model.Records.{RunId, RunRecord}
use replay_kit.Storage.Error.{Checked, conflict, run_exists}
use replay_kit.Storage.State.{MemoryState, has_run, ensure_run_exists}

-- `*next += 1`, in a `u64` that wraps round.
abbrev pub next_u64 : ℕ → ℕ
next_u64 n = (n + 1) % 2 ^ 64

unfoldable pub allocate_id : IdKind → MemoryState → String × MemoryState
allocate_id kind s =
    let next = next_u64 (entry_or kind 0 s.id_counters) in
    (prefix kind ++ "-" ++ hex16 next, record s { id_counters = insert kind next s.id_counters })

unfoldable pub next_sequence : RunId → MemoryState → Checked (ℕ × MemoryState)
next_sequence run_id s = do
  ensure_run_exists s run_id
  let next = next_u64 (entry_or run_id 0 s.sequences)
  ok (next, record s { sequences = insert run_id next s.sequences })

unfoldable pub insert_run : RunRecord → MemoryState → Checked MemoryState
insert_run run s = do
  guard (negate (has_run s run.run_id)) (conflict (run_exists run.run_id))
  ok (record s { sequences = insert run.run_id 0 s.sequences; runs = insert run.run_id run s.runs })

unfoldable pub update_run : RunRecord → MemoryState → Checked MemoryState
update_run run s = do
  ensure_run_exists s run.run_id
  ok (record s { runs = insert run.run_id run s.runs })

unfoldable pub list_runs : MemoryState → List RunRecord
list_runs s = sort_by_key (λ run. run.started_at) (values s.runs)
