-- ===== src/Tests/Client.antt =====
-- The client and its counters at concrete inputs.
use flagforge.Prelude.{◌+◌, ◌≡◌, arith, false, some, [], ◌∷◌, ◌&&◌, if◌then◌else◌}
use flagforge.Text.{text}
use flagforge.Core.Value.{VariantValue}
use flagforge.Core.Snapshot
use flagforge.Sdk.Events.{
  Cell, Counts, State, exposure, conversion, cell_eq, record_event, restore, empty,
}
use flagforge.Sdk.Events.Conservation.{
  accounted, total, accounted-restore, IsValid, start, next, recorded, Reach-IsValid,
}
use flagforge.Sdk.Events.Cells.{count_of, takes, count_of-record_event}
use flagforge.Sdk.Client.{evaluate}
use flagforge.Sdk.Client.Exposures.{counted_of, count_of-evaluate}
use flagforge.Tests.Toy.{toy, ada, snapshot, opened}

abbrev shown : Cell
shown = record { experiment_key = text "cta"; variant = text "on"; kind = exposure }

abbrev paid : Cell
paid = record { experiment_key = text "cta"; variant = text "on"; kind = conversion }

abbrev one_shown : State
one_shown = record { counts = (shown, 1) ∷ []; dropped = 0 }

Reach-IsValid_example : IsValid (record_event empty (text "cta") (text "on") exposure)
Reach-IsValid_example =
    Reach-IsValid (next start (recorded empty (text "cta") (text "on") exposure))

count_of-record_event_example :
    count_of shown (record_event one_shown shown.experiment_key shown.variant shown.kind).counts ≡ (
      if cell_eq shown shown && takes shown one_shown
      then count_of shown one_shown.counts + 1
      else count_of shown one_shown.counts)
unfolding opened
count_of-record_event_example = count_of-record_event one_shown shown shown (omega arith)

abbrev drained_before : Counts
drained_before = (shown, 2) ∷ (paid, 1) ∷ []

accounted-restore_example :
    accounted (restore one_shown drained_before) ≡ accounted one_shown + total drained_before
unfolding opened
accounted-restore_example = accounted-restore one_shown drained_before (omega arith)

abbrev fallback : VariantValue
fallback = VariantValue.bool false

count_of-evaluate_example :
    let decision = Snapshot.evaluate snapshot (text "checkout") ada fallback in
    let (served, client) =
      evaluate
        (record { current = some snapshot; recorder = one_shown })
        (text "checkout")
        ada
        fallback in
    (served ≡ decision)
    × (client.current ≡ some snapshot)
    × (count_of shown client.recorder.counts
        ≡ count_of shown one_shown.counts
          + counted_of (text "checkout") decision.variant shown snapshot.experiments)
    × (client.recorder.dropped ≡ one_shown.dropped)
unfolding opened
count_of-evaluate_example =
    count_of-evaluate snapshot one_shown (text "checkout") ada fallback shown (omega arith)
      (omega arith)
