-- ===== src/Tests/Sending.antt =====
-- Flushing, fetching and refreshing at concrete inputs.
use flagforge.Prelude.{
  ◌+◌, ◌/◌, ◌≡◌, ◌≤◌, refl, arith, All, Option, none, some, List, [], ◌∷◌, max, Result, ok, err,
}
use flagforge.Text.{Text, text}
use flagforge.Sdk.Error.{Error, api, transport, Response}
use flagforge.Sdk.Events.{State, exposure, conversion}
use flagforge.Sdk.Events.Conservation.{total, accounted}
use flagforge.Sdk.Flush.{EventPayload, flush_events}
use flagforge.Sdk.Flush.Ledger.{reported_all, flush_events-ledger}
use flagforge.Api.Events.Taken.{Taken, flush_events-Taken}
use flagforge.Sdk.Client.{Client}
use flagforge.Sdk.Refresher.{Outcome, max_backoff, refresher_run, latest, refresher_run-latest}
use flagforge.Sdk.Events.{empty}
use flagforge.Tests.Toy.{toy, snapshot}

-- A server that is down, and one that takes everything.
abbrev down : List EventPayload → State → Result (Unit {0}) Error × State
down batch s = (err (api 503 []), s)

abbrev two_cells : State
two_cells = record {
  counts =
      (record { experiment_key = text "cta"; variant = text "on"; kind = exposure }, 5)
      ∷ (record { experiment_key = text "cta"; variant = text "on"; kind = conversion }, 2)
      ∷ [];
  dropped = 1;
}

flush_events-Taken_example :
    let (result, sent, after, posted) = flush_events down two_cells in
    All (Taken (λ at. some (at / 3600)) 2 7200) posted
unfolding flagforge.Core.Checks.is_valid_key text
flush_events-Taken_example =
    flush_events-Taken (λ at. some (at / 3600)) 2 7200 down two_cells (refl, (refl, tt))

flush_events-ledger_example :
    let (result, sent, after, posted) = flush_events down two_cells in
    reported_all sent + accounted after ≡ total two_cells.counts
unfolding total
flush_events-ledger_example =
    flush_events-ledger down (λ batch s. refl) two_cells (omega arith, (omega arith, tt))
      (omega arith)

abbrev title : Text → Option Text
title body = none

abbrev whole : Text → Result Text Text
whole body = ok body

abbrev reply : Result Response Text
reply = ok (record { status = 200; body = ok (text "{}") })

abbrev rounds_of_two : List Outcome
rounds_of_two = ok snapshot ∷ err (transport []) ∷ []

abbrev lazy' : Client
lazy' = record { current = none; recorder = empty }

refresher_run-latest_example :
    let (backoff, client) = refresher_run 30 rounds_of_two (30, lazy') in
    (backoff ≤ max 30 max_backoff)
    × (client.current ≡ latest none rounds_of_two)
    × (client.recorder ≡ empty)
refresher_run-latest_example = refresher_run-latest 30 rounds_of_two lazy'
