-- ===== src/Sdk/Refresher.antt =====
-- `spawn_refresher` of crates/sdk/src/client.rs: the loop that fetches and waits. Durations are in
-- nanoseconds. A round is given by the outcome of its fetch.
use flagforge.Prelude.{
  ℕ, ◌*◌, ◌≤◌, ◌≡◌, refl, Option, some, List, [], ◌∷◌, arith, if◌then◌else◌, min, max, Result, ok,
  err,
}
use flagforge.Extern.{Extern}
use flagforge.Core.Snapshot.{EnvironmentSnapshot}
use flagforge.Sdk.Error.{Error, is_transient}
use flagforge.Sdk.Client.{Client}

abbrev pub max_backoff : ℕ
max_backoff = 60 * 1000000000

unfoldable pub next_backoff : ℕ → Error → ℕ
next_backoff backoff e = if is_transient e then min (backoff * 2) max_backoff else max_backoff

module _ ⦃x : Extern⦄ where
  abbrev pub Outcome : Type 0
  Outcome = Result EnvironmentSnapshot Error

  -- One round of the loop, which starts with the wait `backoff` over.
  unfoldable pub refresher_round : ℕ → Outcome → ℕ × Client → ℕ × Client
  unfolding next_backoff
  refresher_round interval (ok snapshot) (backoff, client) =
      (interval, record client { current = some snapshot })
  refresher_round interval (err e) (backoff, client) = (next_backoff backoff e, client)

  -- The first rounds, with these outcomes.
  unfoldable pub refresher_run : ℕ → List Outcome → ℕ × Client → ℕ × Client
  refresher_run interval [] state = state
  refresher_run interval (o ∷ os) state =
      refresher_run interval os (refresher_round interval o state)

  -- The snapshot that was fetched last, the given one if none was.
  unfoldable pub latest : Option EnvironmentSnapshot → List Outcome → Option EnvironmentSnapshot
  latest current [] = current
  latest current (ok snapshot ∷ os) = latest (some snapshot) os
  latest current (err e ∷ os) = latest current os

  refresher_run-from :
      (interval : ℕ) (os : List Outcome) (backoff : ℕ) (client : Client)
      → backoff ≤ max interval max_backoff
      → let (backoff', client') = refresher_run interval os (backoff, client) in
        (backoff' ≤ max interval max_backoff)
        × (client'.current ≡ latest client.current os)
        × (client'.recorder ≡ client.recorder)
  unfolding refresher_run refresher_round next_backoff latest
  refresher_run-from interval [] backoff client h = (h, refl, refl)
  refresher_run-from interval (ok snapshot ∷ os) backoff client h =
      refresher_run-from interval os interval (record client { current = some snapshot })
        (omega arith)
  refresher_run-from interval (err e ∷ os) backoff client h =
      refresher_run-from interval os (next_backoff backoff e) client (ground arith)

  -- After any outcomes of fetches, the client has the snapshot that was fetched last, the one from
  -- the start if none was, its recorder is untouched, and it waits no longer than its interval or
  -- the cap on the wait, whichever is longer.
  pub refresher_run-latest :
      (interval : ℕ) (os : List Outcome) (client : Client)
      → let (backoff, client') = refresher_run interval os (interval, client) in
        (backoff ≤ max interval max_backoff)
        × (client'.current ≡ latest client.current os)
        × (client'.recorder ≡ client.recorder)
  refresher_run-latest interval os client =
      refresher_run-from interval os interval client (omega arith)
