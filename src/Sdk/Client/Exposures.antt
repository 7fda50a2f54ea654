-- ===== src/Sdk/Client/Exposures.antt =====
-- Which counts the evaluation of a flag in crates/sdk/src/client.rs changes.
use flagforge.Prelude.{
  ℕ, ◌+◌, ◌^◌, ◌<◌, ◌≤◌, ◌≡◌, refl, ◌∙◌, ◌&&◌, true, Option, none, some, List, [], ◌∷◌, arith,
  if◌then◌else◌, length, inl, inr, Bool-cases,
}
use flagforge.Text.{Text, text_eq}
use flagforge.Extern.{Extern}
use flagforge.Core.Value.{VariantValue}
use flagforge.Core.Context.{EvaluationContext}
use flagforge.Core.Snapshot.{ExperimentSpec, EnvironmentSnapshot}
use flagforge.Core.Snapshot
use flagforge.Sdk.Events.{Cell, Counts, State, exposure, record_event, cell_eq, absorb, max_cells}
use flagforge.Sdk.Events.Conservation.{total, accounted, accounted-record_event, length-add_to}
use flagforge.Sdk.Events.Cells.{count_of, takes, count_of-record_event}
use flagforge.Sdk.Client.{record_exposures, expose, evaluate}

-- The cell that counts the exposures of an experiment to a variant.
abbrev pub exposed : Text → Text → Cell
exposed key variant = record { experiment_key = key; variant = variant; kind = exposure }

count_of-total : (cell : Cell) (counts : Counts) → count_of cell counts ≤ total counts
unfolding count_of total
count_of-total cell [] = omega arith
count_of-total cell ((c, n) ∷ counts) = ground (arith, count_of-total cell counts)

-- An event takes up at most one more cell, and is dropped only if all are taken.
length-record_event :
    (s : State) (cell : Cell)
    → length (record_event s cell.experiment_key cell.variant cell.kind).counts
      ≤ length s.counts + 1
unfolding record_event absorb
length-record_event s cell = ground (arith, length-add_to cell 1 s.counts)

dropped-record_event :
    (s : State) (cell : Cell)
    → length s.counts < max_cells
    → (record_event s cell.experiment_key cell.variant cell.kind).dropped ≡ s.dropped
unfolding record_event absorb
dropped-record_event s cell h = ground (arith, h)

takes_room : (cell : Cell) (s : State) → length s.counts < max_cells → takes cell s ≡ true
takes_room cell s h = ground (arith, h)

count_of-accounted : (cell : Cell) (s : State) → count_of cell s.counts ≤ accounted s
count_of-accounted cell s = omega (arith, count_of-total cell s.counts)

module _ ⦃x : Extern⦄ where
  -- The experiments that run on a flag.
  unfoldable pub running_on : Text → List ExperimentSpec → ℕ
  running_on flag [] = 0
  running_on flag (e ∷ es) = (if text_eq e.flag_key flag then 1 else 0) + running_on flag es

  -- How many of the experiments run on the flag and count the exposure to the variant in the cell.
  unfoldable pub counted : Text → Text → Cell → List ExperimentSpec → ℕ
  counted flag variant d [] = 0
  counted flag variant d (e ∷ es) =
      (if text_eq e.flag_key flag && cell_eq d (exposed e.key variant) then 1 else 0)
      + counted flag variant d es

  -- The same for a decision, which counts in no cell if no variant was served.
  abbrev pub counted_of : Text → Option Text → Cell → List ExperimentSpec → ℕ
  counted_of flag none d es = 0
  counted_of flag (some variant) d es = counted flag variant d es

  count_of-record_exposures :
      (flag variant : Text) (es : List ExperimentSpec) (s : State) (d : Cell)
      → length s.counts + running_on flag es ≤ max_cells
      → accounted s + running_on flag es < 2 ^ 64
      → (count_of d (record_exposures flag variant es s).counts
          ≡ count_of d s.counts + counted flag variant d es)
        × ((record_exposures flag variant es s).dropped ≡ s.dropped)
  unfolding record_exposures running_on counted
  count_of-record_exposures flag variant [] s d room b = (omega arith, refl)
  count_of-record_exposures flag variant (e ∷ es) s d room b =
      elim (Bool-cases (text_eq e.flag_key flag)) [
        | inl here ↦
            let cell = exposed e.key variant in
            let s' : State = record_event s e.key variant exposure in
            let room' = rw here at room in
            let b' = rw here at b in
            let free : length s.counts < max_cells = omega (arith, room') in
            let below = count_of-accounted cell s in
            let one = count_of-record_event s cell d (omega (arith, b', below)) in
            let sum = accounted-record_event s e.key variant exposure (omega (arith, b')) in
            let (rest, kept) =
              count_of-record_exposures flag variant es s' d
                (omega (arith, length-record_event s cell, room')) (omega (arith, sum, b')) in
            rw (here, record_exposures)
              (
                ground (arith, rest, one, takes_room cell s free),
                kept ∙ dropped-record_event s cell free,
              )
        | inr other ↦
            let room' = rw other at room in
            let b' = rw other at b in
            let (rest, kept) =
              count_of-record_exposures flag variant es s d (omega (arith, room'))
                (omega (arith, b')) in
            rw (other, record_exposures) (omega (arith, rest), kept)
      ]

  count_of-expose :
      (flag : Text) (variant : Option Text) (es : List ExperimentSpec) (s : State) (d : Cell)
      → length s.counts + running_on flag es ≤ max_cells
      → accounted s + running_on flag es < 2 ^ 64
      → (count_of d (expose flag variant es s).counts
          ≡ count_of d s.counts + counted_of flag variant d es)
        × ((expose flag variant es s).dropped ≡ s.dropped)
  unfolding expose
  count_of-expose flag none es s d room b = (omega arith, refl)
  count_of-expose flag (some variant) es s d room b =
      count_of-record_exposures flag variant es s d room b

  -- With a configuration loaded, a free cell in the recorder for each experiment on the flag, and
  -- a sum of the counts that stays below 2^64, the client decides as the snapshot does and keeps
  -- its configuration; the count of each cell grows by the number of experiments on the flag whose
  -- exposure to the served variant it counts, by 0 if no variant was served; and nothing is
  -- dropped.
  pub count_of-evaluate :
      (snapshot : EnvironmentSnapshot) (s : State) (flag : Text) (ctx : EvaluationContext)
      (fallback : VariantValue) (d : Cell)
      → length s.counts + running_on flag snapshot.experiments ≤ max_cells
      → accounted s + running_on flag snapshot.experiments < 2 ^ 64
      → let decision = Snapshot.evaluate snapshot flag ctx fallback in
        let (served, client) =
          evaluate (record { current = some snapshot; recorder = s }) flag ctx fallback in
        (served ≡ decision)
        × (client.current ≡ some snapshot)
        × (count_of d client.recorder.counts
            ≡ count_of d s.counts + counted_of flag decision.variant d snapshot.experiments)
        × (client.recorder.dropped ≡ s.dropped)
  unfolding evaluate
  count_of-evaluate snapshot s flag ctx fallback d room b =
      let (count, kept) =
        count_of-expose flag (Snapshot.evaluate snapshot flag ctx fallback).variant
          snapshot.experiments s d room b in
      (refl, refl, count, kept)
