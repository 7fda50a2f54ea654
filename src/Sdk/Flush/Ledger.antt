-- ===== src/Sdk/Flush/Ledger.antt =====
-- The counts that a flush in crates/sdk/src/client.rs sends, and those that it keeps.
use flagforge.Prelude.{
  ℕ, zero, suc, ◌+◌, ◌*◌, ◌^◌, ◌<◌, ◌≤◌, ◌≡◌, ◌∙◌, ap, sym, refl, List, [], ◌∷◌, ◌++◌, map, arith,
  All, length, take, drop, Result, ok, err, take-append-drop,
}
use flagforge.Sdk.Error.{Error}
use flagforge.Sdk.Events.{Counts, State, drain, empty}
use flagforge.Sdk.Events.Conservation.{total, accounted, accounted-restore}
use flagforge.Sdk.Flush.{
  max_events_per_batch, EventPayload, payload, rounds, Flushed, settle, flush_from, flush_events,
}

-- The events that batches report.
unfoldable pub reported : List EventPayload → ℕ
reported [] = 0
reported (p ∷ ps) = p.count + reported ps

unfoldable pub reported_all : List (List EventPayload) → ℕ
unfolding reported
reported_all [] = 0
reported_all (b ∷ bs) = reported b + reported_all bs

-- Counts that fit the `u32` of a payload.
abbrev pub Fits : Counts → Type 0
Fits = All (λ entry. entry.1 < 2 ^ 32)

reported-payloads : (cells : Counts) → Fits cells → reported (map payload cells) ≡ total cells
unfolding reported payload total
reported-payloads [] f = refl
reported-payloads (entry ∷ cells) f = ground (arith, reported-payloads cells f.1, f.0)

total-append : (as' bs : Counts) → total (as' ++ bs) ≡ total as' + total bs
unfolding total
total-append [] bs = omega arith
total-append (a ∷ as') bs = omega (arith, total-append as' bs)

Fits-take : (n : ℕ) (cells : Counts) → Fits cells → Fits (take n cells)
Fits-take zero cells f = tt
Fits-take (suc n) [] f = tt
Fits-take (suc n) (entry ∷ cells) f = (f.0, Fits-take n cells f.1)

Fits-drop : (n : ℕ) (cells : Counts) → Fits cells → Fits (drop n cells)
Fits-drop zero cells f = f
Fits-drop (suc n) [] f = tt
Fits-drop (suc n) (entry ∷ cells) f = Fits-drop n cells f.1

length-drop-le : (n m : ℕ) (cells : Counts) → length cells ≤ m + n → length (drop n cells) ≤ m
length-drop-le zero m cells h = omega arith
length-drop-le (suc n) m [] h = omega arith
length-drop-le (suc n) m (c ∷ cells) h = length-drop-le n m cells (omega arith)

-- The events reported and those that the recorder accounts for.
abbrev ledger : Flushed → ℕ
ledger (result, sent, after, posted) = reported_all sent + accounted after

settle-ledger :
    (outcome : Result (Unit {0}) Error) (batch : List EventPayload) (cells : Counts) (s : State)
    (later : Flushed)
    → accounted s + total cells < 2 ^ 64
    → reported batch + ledger later ≡ accounted s + total cells
    → ledger (settle outcome batch cells s later) ≡ accounted s + total cells
settle-ledger (ok _) batch cells s later b h = unfold reported_all in omega (arith, h)
settle-ledger (err e) batch cells s later b h =
    unfold reported_all in omega (arith, accounted-restore s cells b)

module _ (post : List EventPayload → State → Result (Unit {0}) Error × State) where
  -- No other thread touches the recorder while a request is under way.
  abbrev pub Quiet : Type 0
  Quiet = (batch : List EventPayload) (s : State) → (post batch s).1 ≡ s

  module _ (quiet : Quiet) where
    flush_from-ledger :
        (k : ℕ) (cells : Counts) (s : State)
        → length cells ≤ k * max_events_per_batch
        → Fits cells
        → accounted s + total cells < 2 ^ 64
        → ledger (flush_from post k cells s) ≡ accounted s + total cells
    unfolding flush_from
    flush_from-ledger zero [] s l f b = unfold reported_all total in omega arith
    flush_from-ledger zero (c ∷ cells) s l f b = absurd (omega arith)
    flush_from-ledger (suc k) cells s l f b =
        let n = max_events_per_batch in
        let batch = map payload (take n cells) in
        let same = quiet batch s in
        let split : total cells ≡ total (take n cells) + total (drop n cells) =
          sym (ap total (take-append-drop n cells)) ∙ total-append (take n cells) (drop n cells) in
        let told = reported-payloads (take n cells) (Fits-take n cells f) in
        let rest =
          flush_from-ledger k (drop n cells) s (length-drop-le n (k * n) cells (omega arith))
            (Fits-drop n cells f) (omega (arith, split)) in
        rw same (
          settle-ledger (post batch s).0 batch cells s (flush_from post k (drop n cells) s) b
            (omega (arith, split, told, rest)))

    -- If no other thread touches the recorder meanwhile, the counts fit a `u32` and their sum is
    -- below 2^64, then a flush reports each counted event in a batch that was sent or leaves it
    -- accounted for by the recorder, whichever requests fail.
    pub flush_events-ledger :
        (s : State)
        → Fits s.counts
        → total s.counts < 2 ^ 64
        → let (result, sent, after, posted) = flush_events post s in
          reported_all sent + accounted after ≡ total s.counts
    unfolding flush_events drain rounds total
    flush_events-ledger s f b =
        let whole =
          flush_from-ledger (rounds (length s.counts)) s.counts empty (omega arith) f
            (omega arith) in
        omega (arith, whole)
