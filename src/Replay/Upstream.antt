-- ===== src/Replay/Upstream.antt =====
-- `upstream_unchanged`: whether a dirty span can keep its recorded outcome, as everything that made it
-- dirty was replayed to what was recorded.
use mathlib.Core.Path.{subst}
use replay_kit.Common.{
  String, Bool, true, false, ◌||◌, Option, none, some, List, [], ◌∷◌, member, In, ◌≡◌, refl, sym,
  ◌↔◌, inl, inr, arith,
}
use replay_kit.Common.Eq.{◌!=◌, string_eq, option_eq, negate}
use replay_kit.Common.Map.{Map, get, is_some}
use replay_kit.Common.Result.{ok, err, ◌>>=◌}
use replay_kit.Common.Tests.{Bool-cases, Option-cases}
use replay_kit.Model.Enums.{span_status_eq, dirty_reason_eq, patched_input}
use replay_kit.Model.Records.{RunId, SpanId, SpanRecord, DirtySpanRecord}
use replay_kit.Replay.Rules.{is_container}
use replay_kit.Storage.Error.{Checked}
use replay_kit.Storage.State.{MemoryState, span_at, get_span}

pub data Outcome : Type 0 where
  executed satisfied reused blocked : Outcome

-- The replayed span has not the recorded status, or no output, or another.
unfoldable pub replayed_otherwise : SpanRecord → SpanRecord → Bool
replayed_otherwise source replayed =
    replayed.status != source.status
    || negate (is_some replayed.output_fingerprint)
    || replayed.output_fingerprint != source.output_fingerprint

abbrev pub unless_changed : Checked Bool → Bool → Checked Bool
unless_changed rest true = rest
unless_changed rest false = ok false

abbrev pub is_empty : List SpanId → Bool
is_empty [] = true
is_empty (x ∷ xs) = false

replayed_as_recorded :
    (source replayed : SpanRecord)
    → (negate (replayed_otherwise source replayed) ≡ true) ↔ (
        (replayed.status ≡ source.status)
        × (is_some replayed.output_fingerprint ≡ true)
        × (replayed.output_fingerprint ≡ source.output_fingerprint))
unfolding replayed_otherwise
replayed_as_recorded source replayed = ground (
  arith,
  span_status_eq.equal_iff replayed.status source.status,
  (option_eq {A = String}).equal_iff replayed.output_fingerprint source.output_fingerprint,
)

rest_unchanged :
    (step rest : Checked Bool)
    → (step >>= unless_changed rest ≡ ok true) ↔ ((step ≡ ok true) × (rest ≡ ok true))
rest_unchanged (ok true) rest = (λ h. (refl, h), λ h. h.1)
rest_unchanged (ok false) rest = ground arith
rest_unchanged (err e) rest = ground arith

module _ (outcomes : Map SpanId Outcome) (span_map : Map SpanId SpanRecord) (s : MemoryState)
    (target_run_id : RunId) where
  -- The outcome of one trigger: whether the loop goes on.
  unfoldable pub outcome_unchanged : SpanId → SpanRecord → Option Outcome → Checked Bool
  outcome_unchanged trigger source none = ok false
  outcome_unchanged trigger source (some Outcome.reused) = ok true
  outcome_unchanged trigger source (some Outcome.executed) =
      get_span target_run_id trigger s >>= λ replayed.
      ok (negate (replayed_otherwise source replayed))
  outcome_unchanged trigger source (some Outcome.satisfied) =
      get_span target_run_id trigger s >>= λ replayed.
      ok (negate (replayed_otherwise source replayed))
  outcome_unchanged trigger source (some Outcome.blocked) = ok false

  unfoldable pub source_unchanged : SpanId → Option SpanRecord → Checked Bool
  source_unchanged trigger none = ok false
  source_unchanged trigger (some source) = elim (is_container source.kind) [
    | true ↦ ok false
    | false ↦ outcome_unchanged trigger source (get trigger outcomes)
  ]

  unfoldable pub triggers_unchanged : List SpanId → Checked Bool
  triggers_unchanged [] = ok true
  triggers_unchanged (trigger ∷ rest) =
      source_unchanged trigger (get trigger span_map) >>= unless_changed (triggers_unchanged rest)

  unfoldable pub upstream_unchanged : DirtySpanRecord → Checked Bool
  upstream_unchanged dirty_record =
      elim (is_empty dirty_record.triggered_by || member patched_input dirty_record.reasons) [
        | true ↦ ok false
        | false ↦ triggers_unchanged dirty_record.triggered_by
      ]

  -- A span was run again, and ended as recorded.
  pub record Repeated (trigger : SpanId) (source : SpanRecord) : Type 0 where
    pub replayed : SpanRecord
    pub kept : span_at s target_run_id trigger ≡ some replayed
    pub status : replayed.status ≡ source.status
    pub has_output : is_some replayed.output_fingerprint ≡ true
    pub output : replayed.output_fingerprint ≡ source.output_fingerprint

  -- A span that was reused, or run again or patched to what was recorded.
  pub data IsAsRecorded (trigger : SpanId) (source : SpanRecord) : Type 0 where
    reused : get trigger outcomes ≡ some Outcome.reused → IsAsRecorded trigger source
    executed :
        get trigger outcomes ≡ some Outcome.executed
        → Repeated trigger source
        → IsAsRecorded trigger source
    satisfied :
        get trigger outcomes ≡ some Outcome.satisfied
        → Repeated trigger source
        → IsAsRecorded trigger source

  -- A trigger of the run, no container, that is as it was recorded.
  pub record IsUnchanged (trigger : SpanId) : Type 0 where
    pub source : SpanRecord
    pub found : get trigger span_map ≡ some source
    pub no_container : is_container source.kind ≡ false
    pub as_recorded : IsAsRecorded trigger source

  module _ (trigger : SpanId) (source : SpanRecord) where
    compared : SpanRecord → Checked Bool
    compared replayed = ok (negate (replayed_otherwise source replayed))

    Repeated-compared :
        Repeated trigger source → get_span target_run_id trigger s >>= compared ≡ ok true
    unfolding get_span compared
    Repeated-compared r =
        rw (r.kept, (replayed_as_recorded source r.replayed).1 (r.status, r.has_output, r.output))
          refl

    compared-Repeated :
        get_span target_run_id trigger s >>= compared ≡ ok true → Repeated trigger source
    unfolding get_span compared
    compared-Repeated h = elim (Option-cases (span_at s target_run_id trigger)) [
      | inl e ↦ cc (rw (e, get_span) at h)
      | inr (replayed, e) ↦
          let (status, has_output, output) =
            (replayed_as_recorded source replayed).0 (ground (arith, e, h)) in
          record {
            replayed = replayed;
            kept = e;
            status = status;
            has_output = has_output;
            output = output;
          }
    ]

    outcome-IsAsRecorded :
        (outcome : Option Outcome)
        → get trigger outcomes ≡ outcome
        → outcome_unchanged trigger source outcome ≡ ok true
        → IsAsRecorded trigger source
    unfolding outcome_unchanged compared
    outcome-IsAsRecorded none e = cc
    outcome-IsAsRecorded (some Outcome.reused) e = λ h. reused e
    outcome-IsAsRecorded (some Outcome.executed) e = λ h. executed e (compared-Repeated h)
    outcome-IsAsRecorded (some Outcome.satisfied) e = λ h. satisfied e (compared-Repeated h)
    outcome-IsAsRecorded (some Outcome.blocked) e = cc

    IsAsRecorded-outcome :
        IsAsRecorded trigger source
        → outcome_unchanged trigger source (get trigger outcomes) ≡ ok true
    unfolding outcome_unchanged compared
    IsAsRecorded-outcome (reused e) = rw e refl
    IsAsRecorded-outcome (executed e r) = rw e (Repeated-compared r)
    IsAsRecorded-outcome (satisfied e r) = rw e (Repeated-compared r)

  source-IsUnchanged :
      (trigger : SpanId)
      → source_unchanged trigger (get trigger span_map) ≡ ok true
      → IsUnchanged trigger
  unfolding source_unchanged
  source-IsUnchanged trigger h = elim (Option-cases (get trigger span_map)) [
    | inl e ↦ cc (rw (e, source_unchanged) at h)
    | inr (source, e) ↦ elim (Bool-cases (is_container source.kind)) [
      | inl t ↦ cc (rw (e, source_unchanged, t) at h)
      | inr f ↦ record {
        source = source;
        found = e;
        no_container = f;
        as_recorded =
            outcome-IsAsRecorded trigger source (get trigger outcomes) refl
              (rw (e, source_unchanged, f) at h);
      }
    ]
  ]

  IsUnchanged-source :
      (trigger : SpanId)
      → IsUnchanged trigger
      → source_unchanged trigger (get trigger span_map) ≡ ok true
  unfolding source_unchanged
  IsUnchanged-source trigger u =
      rw (u.found, source_unchanged, u.no_container)
        (IsAsRecorded-outcome trigger u.source u.as_recorded)

  triggers-IsUnchanged :
      (triggers : List SpanId)
      → triggers_unchanged triggers ≡ ok true
      → (trigger : SpanId) → In trigger triggers
      → IsUnchanged trigger
  unfolding triggers_unchanged
  triggers-IsUnchanged [] h trigger i = absurd i
  triggers-IsUnchanged (first ∷ rest) h trigger (inl e) =
      subst IsUnchanged (sym e)
        (source-IsUnchanged first ((rest_unchanged _ (triggers_unchanged rest)).0 h).0)
  triggers-IsUnchanged (first ∷ rest) h trigger (inr i) =
      triggers-IsUnchanged rest
        ((rest_unchanged (source_unchanged first (get first span_map)) _).0 h).1 trigger i

  IsUnchanged-triggers :
      (triggers : List SpanId)
      → ((trigger : SpanId) → In trigger triggers → IsUnchanged trigger)
      → triggers_unchanged triggers ≡ ok true
  unfolding triggers_unchanged
  IsUnchanged-triggers [] u = refl
  IsUnchanged-triggers (first ∷ rest) u =
      rw (IsUnchanged-source first (u first (inl refl)))
        (IsUnchanged-triggers rest (λ trigger i. u trigger (inr i)))

  -- A dirty span keeps its recorded outcome exactly if it was made dirty by other spans, not by the
  -- patch itself, and each of those is a span of the run and no container that was reused, or that was
  -- run again or patched and ended with the recorded status and the recorded output.
  pub upstream_unchanged-IsUnchanged :
      (dirty_record : DirtySpanRecord)
      → (upstream_unchanged dirty_record ≡ ok true) ↔ (
          (is_empty dirty_record.triggered_by ≡ false)
          × (member patched_input dirty_record.reasons ≡ false)
          × ((trigger : SpanId) → In trigger dirty_record.triggered_by → IsUnchanged trigger))
  unfolding upstream_unchanged
  upstream_unchanged-IsUnchanged dirty_record =
      elim (Bool-cases (is_empty dirty_record.triggered_by)) [
        | inl t ↦ (λ h. cc (rw (upstream_unchanged, t) at h), λ h. cc (t, h.0))
        | inr f ↦ elim (Bool-cases (member patched_input dirty_record.reasons)) [
          | inl t ↦ (λ h. cc (rw (upstream_unchanged, f, t) at h), λ h. cc (t, h.1))
          | inr g ↦ (
            λ h.
                let kept = rw (upstream_unchanged, f, g) at h in
                (f, g, triggers-IsUnchanged dirty_record.triggered_by kept),
            λ h. rw (upstream_unchanged, f, g) (IsUnchanged-triggers dirty_record.triggered_by h.2),
          )
        ]
      ]
