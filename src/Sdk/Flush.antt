-- ===== src/Sdk/Flush.antt =====
-- `Inner::flush_events` of crates/sdk/src/client.rs: the counters are drained, sent in batches, and
-- restored from the first batch that fails on. Sending is given by a function from the batch and the
-- recorder to the outcome and to the recorder as other threads leave it meanwhile.
pub mod Ledger
use flagforge.Prelude.{
  ℕ, zero, suc, ◌+◌, ◌/◌, ◌-◌, ◌^◌, List, [], ◌∷◌, map, ltb, if◌then◌else◌, length, take, drop,
  Result, ok, err,
}
use flagforge.Text.{Text}
use flagforge.Sdk.Error.{Error}
use flagforge.Sdk.Events.{EventKind, Cell, Counts, State, drain, restore}

abbrev pub max_events_per_batch : ℕ
max_events_per_batch = 1000

pub record EventPayload : Type 0 where
  pub experiment_key : Text
  pub variant : Text
  pub kind : EventKind
  pub count : ℕ

-- The count saturates at `u32::MAX`.
unfoldable pub payload : Cell × ℕ → EventPayload
payload (cell, n) = record {
  experiment_key = cell.experiment_key;
  variant = cell.variant;
  kind = cell.kind;
  count = if ltb n (2 ^ 32) then n else 2 ^ 32 - 1;
}

-- The number of rounds of the loop over the starts of the batches.
unfoldable pub rounds : ℕ → ℕ
rounds n = (n + (max_events_per_batch - 1)) / max_events_per_batch

-- What a flush comes to: its result, the batches that were sent, the recorder, and every batch that
-- was posted, the last of which may have failed.
abbrev pub Flushed : Type 0
Flushed = Result (Unit {0}) Error × List (List EventPayload) × State × List (List EventPayload)

-- Goes on after a batch that was sent, and restores what is left if one was not.
abbrev pub settle : Result (Unit {0}) Error → List EventPayload → Counts → State → Flushed → Flushed
settle (ok _) batch cells meanwhile (result, sent, after, posted) =
    (result, batch ∷ sent, after, batch ∷ posted)
settle (err e) batch cells meanwhile later = (err e, [], restore meanwhile cells, batch ∷ [])

module _ (post : List EventPayload → State → Result (Unit {0}) Error × State) where
  -- The loop, with the cells from the current start on.
  unfoldable pub flush_from : ℕ → Counts → State → Flushed
  unfolding payload
  flush_from zero cells s = (ok tt, [], s, [])
  flush_from (suc k) cells s =
      let batch = map payload (take max_events_per_batch cells) in
      let (outcome, meanwhile) = post batch s in
      settle outcome batch cells meanwhile
        (flush_from k (drop max_events_per_batch cells) meanwhile)

  unfoldable pub flush_events : State → Flushed
  unfolding flush_from rounds
  flush_events s =
      let ((counts, dropped), drained) = drain s in
      flush_from (rounds (length counts)) counts drained
