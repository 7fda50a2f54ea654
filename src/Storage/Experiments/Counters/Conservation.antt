-- ===== src/Storage/Experiments/Counters/Conservation.antt =====
-- What a batch of increments does to the counters: the sums that a counter and a batch hold for one
-- experiment, variant, kind and hour.
use mathlib.Core.List.{Memᴰ}
use flagforge.Prelude.{
  ℕ, ◌+◌, ◌≡◌, refl, sym, ap, ◌∙◌, false, Option, none, some, List, [], ◌∷◌, arith, ◌==◌, ==_iff,
  Result, ok, err, and_then, and_then-ok, Bool-cases, Option-cases, Result-cases, inl, inr,
}
use flagforge.Text.{Text, text_eq, text_eq_iff}
use flagforge.Extern.{Extern}
use flagforge.Storage.Error.{StorageError}
use flagforge.Storage.Tables.{ExperimentRow, CounterRow}
use flagforge.Storage.Rows.{first_where-some}
use flagforge.Storage.Experiments.{is_experiment}
use flagforge.Storage.Experiments.Counters.{
  CounterDelta, Cell, cell_eq, collapse, upsert_counter, running_experiment, write_cells,
  insert_counters, ingest_counters,
}
use flagforge.Storage.Exec.{
  World, execute, statement, map_err, map_err_of, settle, next_outage, lift, ◌>>=◌, bind_of,
}
use flagforge.Storage.Experiments.Counters.Cells.{
  tally, delta_total, cells_total, same_row, collapse-total, upsert-tally,
}

module _ ⦃x : Extern⦄ (environment_id : ℕ) (es : List ExperimentRow)
    (keyed : (a b : ExperimentRow) → Memᴰ a es → Memᴰ b es → a.id ≡ b.id → a ≡ b) (cell : Cell)
    (e : ExperimentRow) (runs : running_experiment environment_id cell.key es ≡ some e) where
  running_key :
      (key : Text) (a : ExperimentRow)
      → running_experiment environment_id key es ≡ some a
      → Memᴰ a es × (a.key ≡ key)
  unfolding running_experiment is_experiment
  running_key key a h =
      let (m, p) = first_where-some _ es a h in (m, (text_eq_iff a.key key).0 (ground (arith, p)))

  cell_row :
      (c : Cell) (a : ExperimentRow)
      → running_experiment environment_id c.key es ≡ some a
      → same_row a.id c e.id cell ≡ cell_eq c cell
  unfolding cell_eq
  cell_row c a h =
      let (ma, ka) = running_key c.key a h in
      let (me, ke) = running_key cell.key e runs in
      elim (Bool-cases (text_eq c.key cell.key)) [
        | inl yes' ↦
            let same_key : c.key ≡ cell.key = (text_eq_iff c.key cell.key).0 yes' in
            let same : a ≡ e = cc (h, runs, same_key) in
            rw (yes', same) (ground (arith, ==_iff e.id e.id))
        | inr no' ↦
            let other : (a.id == e.id) ≡ false = elim (Bool-cases (a.id == e.id)) [
              | inl equal ↦
                  let same : a ≡ e = keyed a e ma me ((==_iff a.id e.id).0 equal) in
                  let same_key : c.key ≡ cell.key = sym ka ∙ ap (λ r. r.key) same ∙ ke in
                  absurd (ground (arith, no', (text_eq_iff c.key cell.key).1 same_key))
              | inr apart ↦ apart
            ] in
            rw (no', other) refl
      ]

  no_row : (c : Cell) → running_experiment environment_id c.key es ≡ none → cell_eq c cell ≡ false
  unfolding cell_eq
  no_row c h = elim (Bool-cases (text_eq c.key cell.key)) [
    | inl yes' ↦
        let same_key : c.key ≡ cell.key = (text_eq_iff c.key cell.key).0 yes' in
        absurd (cc (h, runs, same_key))
    | inr no' ↦ rw (no') refl
  ]

  write_cells-tally :
      (cells : List (Cell × ℕ)) (n : ℕ) (cs cs' : List CounterRow)
      → write_cells environment_id es cells cs ≡ ok (n, cs')
      → tally e.id cell cs' ≡ tally e.id cell cs + cells_total cell cells
  unfolding write_cells cells_total
  write_cells-tally [] n cs cs' h = let same : cs' ≡ cs = cc in rw (same) (omega arith)
  write_cells-tally ((c, k) ∷ cells) n cs cs' h =
      elim (Option-cases (running_experiment environment_id c.key es)) [
        | inl none' ↦
            let ih = write_cells-tally cells n cs cs' (rw (none', write_cells) at h) in
            ground (arith, ih, no_row c none')
        | inr (a, some') ↦
            let (mid, put, rest) =
              and_then-ok (upsert_counter a.id c k cs)
                (λ mid.
                  and_then (write_cells environment_id es cells mid) λ (m, out). ok (m + 1, out))
                (n, cs') (rw (some', write_cells) at h) in
            let ((m, out), tail', last) =
              and_then-ok (write_cells environment_id es cells mid) (λ (m, out). ok (m + 1, out))
                (n, cs') rest in
            let same : cs' ≡ out = cc in
            let ih = write_cells-tally cells m mid out tail' in
            rw (same)
              (ground (arith, ih, upsert-tally e.id a.id cell c k cs mid put, cell_row c a some'))
      ]

-- How a batch ends: what it holds for the cell is added, or nothing is written.
pub data Counted ⦃x : Extern⦄ (id : ℕ) (cell : Cell) (total : ℕ) (w : World)
    : Result ℕ StorageError × World → Type 0 where
  added :
      {n : ℕ} {w' : World}
      → tally id cell w'.tables.experiment_counters
        ≡ tally id cell w.tables.experiment_counters + total
      → Counted id cell total w (ok n, w')
  nothing :
      {s : StorageError} {w' : World} → w'.tables ≡ w.tables → Counted id cell total w (err s, w')

module _ ⦃x : Extern⦄ where
  insert_counters-Counted :
      (environment_id : ℕ) (cell : Cell) (e : ExperimentRow) (w : World) (cells : List (Cell × ℕ))
      → ((a b : ExperimentRow)
          → Memᴰ a w.tables.experiments
          → Memᴰ b w.tables.experiments
          → a.id ≡ b.id
          → a ≡ b)
      → running_experiment environment_id cell.key w.tables.experiments ≡ some e
      → Counted e.id cell
          (cells_total cell cells)
          w
          (execute (insert_counters environment_id cells) w)
  unfolding execute statement map_err insert_counters
  insert_counters-Counted environment_id cell e w cells keyed runs =
      let t = w.tables in
      elim (Bool-cases (next_outage w.outages)) [
        | inl out ↦ rw (out) (nothing refl)
        | inr up ↦
            rw (up)
              (elim (Result-cases
                (write_cells environment_id t.experiments cells t.experiment_counters)) [
                  | inl ((n, cs), done) ↦
                      rw (done, settle, map_err_of)
                        (added (
                          write_cells-tally environment_id t.experiments keyed cell e runs cells n
                            t.experiment_counters cs done))
                  | inr (s, refused) ↦ rw (refused, settle, map_err_of) (nothing refl)
                ])
      ]

  -- If experiments are told apart by their ids, what a batch holds for a running experiment's
  -- variant, kind and hour is added to that counter, or the call fails and the tables are as they
  -- were.
  pub ingest_counters-Counted :
      (truncated : ℕ → Option ℕ) (environment_id : ℕ) (deltas : List CounterDelta) (cell : Cell)
      (e : ExperimentRow) (w : World)
      → ((a b : ExperimentRow)
          → Memᴰ a w.tables.experiments
          → Memᴰ b w.tables.experiments
          → a.id ≡ b.id
          → a ≡ b)
      → running_experiment environment_id cell.key w.tables.experiments ≡ some e
      → Counted e.id cell
          (delta_total truncated cell deltas)
          w
          (ingest_counters truncated environment_id deltas w)
  unfolding ingest_counters lift ◌>>=◌ cells_total
  ingest_counters-Counted truncated environment_id deltas cell e w keyed runs =
      elim (Result-cases (collapse truncated [] deltas)) [
        | inl (cells, done) ↦
            let total : cells_total cell cells ≡ delta_total truncated cell deltas =
              ground (arith, collapse-total truncated cell [] cells deltas done) in
            rw (done, bind_of, ← total)
              (insert_counters-Counted environment_id cell e w cells keyed runs)
        | inr (s, refused) ↦ rw (refused, bind_of) (nothing refl)
      ]
