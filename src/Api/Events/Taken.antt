-- ===== src/Api/Events/Taken.antt =====
-- A flush of crates/sdk/src/client.rs against the handler of crates/api/src/routes/events.rs: what the
-- client posts, the server takes.
use flagforge.Prelude.{
  ℕ, zero, suc, ◌+◌, ◌-◌, ◌*◌, ◌<◌, ◌≤◌, ◌≡◌, refl, ap, true, Option, none, List, [], ◌∷◌, map,
  arith, All, length, take, drop, Result, ok, err,
}
use flagforge.Extern.{Extern}
use flagforge.Core.Checks.{is_valid_key}
use flagforge.Storage.Models.{CounterKind}
use flagforge.Storage.Exec.{World, pure, lift, ◌>>=◌}
use flagforge.Storage.Experiments.Counters.{ingest_counters}
use flagforge.Sdk.Error.{Error}
use flagforge.Sdk.Events.{EventKind, exposure, conversion, Counts, State, drain}
use flagforge.Sdk.Flush.{
  max_events_per_batch, EventPayload, payload, Flushed, settle, flush_from, flush_events,
}
use flagforge.Api.Flags.{stored}
use flagforge.Api.Events.{EventDelta, max_events, check_size, delta, deltas_of, ingest}

-- What the server reads of a batch: the fields that the two ends spell alike, and no `at`.
abbrev pub kind_received : EventKind → CounterKind
kind_received exposure = CounterKind.exposure
kind_received conversion = CounterKind.conversion

abbrev pub received : EventPayload → EventDelta
received p = record {
  experiment_key = p.experiment_key;
  variant = p.variant;
  kind = kind_received p.kind;
  count = p.count;
  at = none;
}

-- The variants are keys, as they are in a snapshot whose flags the validator accepts.
abbrev pub Named : Counts → Type 0
Named = All (λ entry. is_valid_key entry.0.variant ≡ true)

abbrev Nameable : EventPayload → Type 0
Nameable p = is_valid_key p.variant ≡ true

-- A batch that is neither empty nor too large, with variants that are keys.
abbrev IsBatch : List EventPayload → Type 0
IsBatch batch = (0 < length batch) × (length batch ≤ max_events) × All Nameable batch

-- The tables are written as for the batch's increments, at the time of its arrival: no check refuses it.
pub record Taken ⦃x : Extern⦄ (truncated : ℕ → Option ℕ) (environment_id now : ℕ)
    (batch : List EventPayload) : Type 0 where
  pub filled : 0 < length batch
  pub writes :
      (w : World)
      → ingest truncated environment_id now (map received batch) w
        ≡ (do
          accepted ←
              stored
                (ingest_counters truncated environment_id (map (λ p. delta now (received p)) batch))
          pure (record { accepted = accepted; received = length batch }))
            w

length-map : {A B : Type 0} (f : A → B) (as' : List A) → length (map f as') ≡ length as'
length-map f [] = refl
length-map f (a ∷ as') = ap suc (length-map f as')

deltas_of-received :
    (now : ℕ) (batch : List EventPayload)
    → All Nameable batch
    → deltas_of now (map received batch) ≡ ok (map (λ p. delta now (received p)) batch)
unfolding deltas_of is_valid_key
deltas_of-received now [] n = refl
deltas_of-received now (p ∷ batch) n = ground (arith, n.0, deltas_of-received now batch n.1)

Named-take : (n : ℕ) (cells : Counts) → Named cells → All Nameable (map payload (take n cells))
unfolding payload
Named-take zero cells h = tt
Named-take (suc n) [] h = tt
Named-take (suc n) (entry ∷ cells) h = (h.0, Named-take n cells h.1)

Named-drop : (n : ℕ) (cells : Counts) → Named cells → Named (drop n cells)
Named-drop zero cells h = h
Named-drop (suc n) [] h = tt
Named-drop (suc n) (entry ∷ cells) h = Named-drop n cells h.1

length-take : (n : ℕ) (cells : Counts) → length (take n cells) ≤ n
length-take zero cells = omega arith
length-take (suc n) [] = omega arith
length-take (suc n) (c ∷ cells) = omega (arith, length-take n cells)

length-take_pos : (n : ℕ) (cells : Counts) → 0 < n → 0 < length cells → 0 < length (take n cells)
length-take_pos zero cells p q = absurd (omega arith)
length-take_pos (suc n) [] p q = absurd (omega arith)
length-take_pos (suc n) (c ∷ cells) p q = omega arith

length-drop : (n : ℕ) (cells : Counts) → length cells ≤ length (drop n cells) + n
length-drop zero cells = omega arith
length-drop (suc n) [] = omega arith
length-drop (suc n) (c ∷ cells) = omega (arith, length-drop n cells)

settle-posted :
    (P : List EventPayload → Type 0) (outcome : Result (Unit {0}) Error) (batch : List EventPayload)
    (cells : Counts) (s : State) (later : Flushed)
    → P batch
    → All P later.3
    → All P (settle outcome batch cells s later).3
settle-posted P (ok _) batch cells s later b h = (b, h)
settle-posted P (err e) batch cells s later b h = (b, tt)

module _ (post : List EventPayload → State → Result (Unit {0}) Error × State) where
  -- While `k` rounds are left, the last of them has a cell.
  flush_from-posted :
      (k : ℕ) (cells : Counts) (s : State)
      → k * max_events_per_batch ≤ length cells + (max_events_per_batch - 1)
      → Named cells
      → All IsBatch (flush_from post k cells s).3
  unfolding flush_from
  flush_from-posted zero cells s l h = tt
  flush_from-posted (suc k) cells s l h =
      let n = max_events_per_batch in
      let batch = map payload (take n cells) in
      let size = length-map payload (take n cells) in
      let (outcome, meanwhile) = post batch s in
      settle-posted IsBatch outcome batch cells meanwhile _
        (
          omega (arith, size, length-take_pos n cells (omega arith) (omega arith)),
          omega (arith, size, length-take n cells),
          Named-take n cells h,
        )
        (flush_from-posted k (drop n cells) meanwhile (omega (arith, length-drop n cells))
          (Named-drop n cells h))

  flush_events-posted : (s : State) → Named s.counts → All IsBatch (flush_events post s).3
  unfolding flush_events drain flagforge.Sdk.Flush.rounds
  flush_events-posted s h = flush_from-posted _ s.counts _ (omega arith) h

module _ ⦃x : Extern⦄ (truncated : ℕ → Option ℕ) (environment_id now : ℕ) where
  check_size-ok :
      (events : List EventDelta) → length events ≤ max_events → check_size events ≡ ok tt
  check_size-ok events h = ground (arith, h)

  IsBatch-Taken :
      (batch : List EventPayload) → IsBatch batch → Taken truncated environment_id now batch
  unfolding ingest lift ◌>>=◌
  IsBatch-Taken batch h =
      let size = length-map received batch in
      record {
        filled = h.0;
        writes = λ w.
            rw
              (
                check_size-ok (map received batch) (rw (size) h.1),
                deltas_of-received now batch h.2,
                size,
              )
              refl;
      }

  All-Taken :
      (batches : List (List EventPayload))
      → All IsBatch batches
      → All (Taken truncated environment_id now) batches
  All-Taken [] h = tt
  All-Taken (batch ∷ batches) h = (IsBatch-Taken batch h.0, All-Taken batches h.1)

  -- If the variants in the recorder are valid keys, then whichever requests of a flush fail, each
  -- batch that it posts has an event, and no check of the server refuses the batch: the handler
  -- writes its increments, dated by the arrival, and responds with their number.
  pub flush_events-Taken :
      (post : List EventPayload → State → Result (Unit {0}) Error × State) (s : State)
      → Named s.counts
      → let (result, sent, after, posted) = flush_events post s in
        All (Taken truncated environment_id now) posted
  flush_events-Taken post s h = All-Taken (flush_events post s).3 (flush_events-posted post s h)
