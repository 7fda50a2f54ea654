-- ===== src/Storage/Experiments/Counters.antt =====
-- crates/storage/src/experiments.rs: the counters of experiments. A batch of increments is collapsed to
-- cells and added to the table in one statement; the results view reads them back per variant. The
-- map that collapses them is a list in the order of its first entries, where the source's `HashMap`
-- has any order. Sums are natural numbers: an `i64` holds a batch of fewer than 2^31 increments.
pub mod Cells
pub mod Conservation
use flagforge.Prelude.{
  ℕ, ◌+◌, Bool, true, false, ◌&&◌, Option, none, some, List, [], ◌∷◌, ◌++◌, map, ltb, leb, ◌==◌,
  if◌then◌else◌, is_some, Result, ok, err, and_then, length,
}
use flagforge.Text.{Text, text, text_eq}
use flagforge.Extern.{Extern}
use flagforge.Core.Experiment.{VariantCounts}
use flagforge.Storage.Models.{CounterKind, exposure, conversion, kind_as_str}
use flagforge.Storage.Error.{SqlError, other_failure, StorageError, invalid}
use flagforge.Storage.Version.{max_i64}
use flagforge.Storage.Tables.{Tables, ExperimentRow, CounterRow}
use flagforge.Storage.Rows.{rows_where, first_where, order_by}
use flagforge.Storage.Experiments.{is_experiment}
use flagforge.Storage.Exec.{Exec, Statement, lift, ◌>>=◌, select, execute}

pub record CounterDelta : Type 0 where
  pub experiment_key : Text
  pub variant : Text
  pub kind : CounterKind
  pub at : ℕ
  pub count : ℕ

pub record SeriesPoint : Type 0 where
  pub hour : ℕ
  pub exposures : ℕ
  pub conversions : ℕ

pub record VariantSeries : Type 0 where
  pub variant : Text
  pub points : List SeriesPoint

pub record Cell : Type 0 where
  pub key : Text
  pub variant : Text
  pub kind : CounterKind
  pub hour : ℕ

abbrev pub kind_eq : CounterKind → CounterKind → Bool
kind_eq exposure exposure = true
kind_eq conversion conversion = true
kind_eq _ _ = false

unfoldable pub cell_eq : Cell → Cell → Bool
cell_eq c d =
    text_eq c.key d.key && text_eq c.variant d.variant && kind_eq c.kind d.kind && c.hour == d.hour

-- `*cells.entry(cell).or_default() += count`.
unfoldable pub add_to : Cell → ℕ → List (Cell × ℕ) → List (Cell × ℕ)
unfolding cell_eq
add_to cell count [] = (cell, count) ∷ []
add_to cell count ((c, n) ∷ cells) =
    if cell_eq c cell then (c, n + count) ∷ cells else (c, n) ∷ add_to cell count cells

-- `truncated` is `duration_trunc(TimeDelta::hours(1))` of the crate `chrono`.
module _ (truncated : ℕ → Option ℕ) where
  unfoldable pub collapse :
      List (Cell × ℕ) → List CounterDelta → Result (List (Cell × ℕ)) StorageError
  unfolding add_to text
  collapse cells [] = ok cells
  collapse cells (d ∷ ds) = elim (truncated d.at) [
    | none ↦ err (invalid (text "counter timestamp"))
    | some hour ↦
        collapse
          (add_to
            (record { key = d.experiment_key; variant = d.variant; kind = d.kind; hour = hour })
            d.count cells)
          ds
  ]

-- The primary key of a counter.
unfoldable pub is_counter : ℕ → Text → Text → ℕ → CounterRow → Bool
is_counter experiment_id variant kind hour c =
    c.experiment_id == experiment_id
    && text_eq c.variant variant
    && text_eq c.kind kind
    && c.hour == hour

-- A sum of BIGINTs, which fails where it is out of range.
unfoldable pub checked_sum : ℕ → ℕ → Result ℕ SqlError
checked_sum a b = if leb (a + b) max_i64 then ok (a + b) else err other_failure

abbrev pub new_counter : ℕ → Cell → ℕ → CounterRow
new_counter id cell total = record {
  experiment_id = id;
  variant = cell.variant;
  kind = kind_as_str cell.kind;
  hour = cell.hour;
  count = total;
}

-- `INSERT .. ON CONFLICT DO UPDATE SET count = experiment_counters.count + EXCLUDED.count`.
unfoldable pub upsert_counter : ℕ → Cell → ℕ → List CounterRow → Result (List CounterRow) SqlError
unfolding is_counter checked_sum kind_as_str
upsert_counter id cell count [] =
    and_then (checked_sum 0 count) (λ total. ok (new_counter id cell total ∷ []))
upsert_counter id cell count (c ∷ cs) =
    let rest = upsert_counter id cell count cs in
    if is_counter id cell.variant (kind_as_str cell.kind) cell.hour c
    then and_then (checked_sum c.count count) (λ total. ok (record c { count = total } ∷ cs))
    else and_then rest (λ cs'. ok (c ∷ cs'))

-- The experiment that a cell counts for: the running one with its key.
unfoldable pub running_experiment : ℕ → Text → List ExperimentRow → Option ExperimentRow
unfolding first_where is_experiment text
running_experiment environment_id key es =
    first_where (λ e. is_experiment environment_id key e && text_eq e.state (text "running")) es

module _ ⦃x : Extern⦄ where
  -- The rows that the join with `experiments` keeps are written, and counted.
  unfoldable pub write_cells :
      ℕ
      → List ExperimentRow
      → List (Cell × ℕ)
      → List CounterRow
      → Result (ℕ × List CounterRow) SqlError
  unfolding running_experiment upsert_counter
  write_cells environment_id es [] cs = ok (0, cs)
  write_cells environment_id es ((cell, count) ∷ cells) cs =
      elim (running_experiment environment_id cell.key es) [
        | none ↦ write_cells environment_id es cells cs
        | some e ↦
            and_then (upsert_counter e.id cell count cs) λ cs'.
              and_then (write_cells environment_id es cells cs') λ (n, cs''). ok (n + 1, cs'')
      ]

  unfoldable pub insert_counters : ℕ → List (Cell × ℕ) → Statement ℕ
  unfolding write_cells
  insert_counters environment_id cells now t =
      and_then (write_cells environment_id t.experiments cells t.experiment_counters)
        λ (n, cs). ok (n, record t { experiment_counters = cs })

  unfoldable pub ingest_counters : (ℕ → Option ℕ) → ℕ → List CounterDelta → Exec StorageError ℕ
  unfolding collapse insert_counters lift execute ◌>>=◌
  ingest_counters truncated environment_id deltas = do
    cells ← lift (collapse truncated [] deltas)
    execute (insert_counters environment_id cells)
