-- ===== src/Api/Events.antt =====
-- crates/api/src/routes/events.rs: the handler that takes batches of counter increments. The key that
-- comes with a request is given by its environment, and the metrics are left out.
pub mod Taken
use flagforge.Prelude.{
  ℕ, ◌||◌, Option, List, [], ◌∷◌, ◌++◌, ltb, length, unwrap_or, Result, ok, err, and_then,
  if◌then◌else◌,
}
use flagforge.Text.{Text, text, is_empty, len}
use flagforge.Text.Decimal.{show}
use flagforge.Extern.{Extern}
use flagforge.Storage.Models.{CounterKind}
use flagforge.Storage.Exec.{Exec, pure, lift, ◌>>=◌, ◌>>◌}
use flagforge.Storage.Experiments.Counters.{CounterDelta, ingest_counters}
use flagforge.Api.Error.{ApiError, bad_request}
use flagforge.Api.Flags.{stored}

abbrev pub max_events : ℕ
max_events = 1000

pub record EventDelta : Type 0 where
  pub experiment_key : Text
  pub variant : Text
  pub kind : CounterKind
  pub count : ℕ
  pub at : Option ℕ

pub record EventsResponse : Type 0 where
  pub accepted : ℕ
  pub received : ℕ

abbrev pub check_size : List EventDelta → Result (Unit {0}) ApiError
check_size events =
    if ltb max_events (length events)
    then err (
        bad_request (
          text "at most "
          ++ show max_events
          ++ text " events per batch; aggregate client-side and flush more often"))
    else ok tt

abbrev pub delta : ℕ → EventDelta → CounterDelta
delta now event = record {
  experiment_key = event.experiment_key;
  variant = event.variant;
  kind = event.kind;
  at = unwrap_or event.at now;
  count = event.count;
}

-- The loop over the events.
unfoldable pub deltas_of : ℕ → List EventDelta → Result (List CounterDelta) ApiError
unfolding is_empty len text
deltas_of now [] = ok []
deltas_of now (event ∷ events) =
    let rest = deltas_of now events in
    if is_empty event.variant || ltb 128 (len event.variant)
    then err (bad_request (text "variant must be between 1 and 128 characters"))
    else and_then rest (λ deltas. ok (delta now event ∷ deltas))

module _ ⦃x : Extern⦄ (truncated : ℕ → Option ℕ) where
  unfoldable pub ingest : ℕ → ℕ → List EventDelta → Exec ApiError EventsResponse
  unfolding deltas_of ingest_counters stored lift pure text show ◌>>=◌
  ingest environment_id now events = do
    lift (check_size events)
    deltas ← lift (deltas_of now events)
    accepted ← stored (ingest_counters truncated environment_id deltas)
    pure (record { accepted = accepted; received = length events })
