-- ===== src/Sdk/Events/Cells.antt =====
-- The counts of single cells in crates/sdk/src/events.rs.
use flagforge.Prelude.{
  ℕ, ◌+◌, ◌^◌, ◌<◌, ◌≡◌, refl, Bool, true, false, [], ◌∷◌, arith, ltb, if◌then◌else◌, length, ◌↔◌,
  ◌&&◌, ◌||◌,
}
use flagforge.Text.{text_eq_iff}
use flagforge.Sdk.Events.{
  Cell, Counts, State, EventKind, exposure, conversion, kind_eq, max_cells, cell_eq, has_cell,
  add_to, absorb, record_event,
}

kind_eq_iff : (a b : EventKind) → (kind_eq a b ≡ true) ↔ (a ≡ b)
kind_eq_iff exposure exposure = ground arith
kind_eq_iff exposure conversion = ground arith
kind_eq_iff conversion exposure = ground arith
kind_eq_iff conversion conversion = ground arith

pub cell_eq_iff : (a b : Cell) → (cell_eq a b ≡ true) ↔ (a ≡ b)
unfolding cell_eq
cell_eq_iff a b = ground (
  arith,
  text_eq_iff a.experiment_key b.experiment_key,
  text_eq_iff a.variant b.variant,
  kind_eq_iff a.kind b.kind,
)

-- The count of a cell, 0 if it has none.
unfoldable pub count_of : Cell → Counts → ℕ
count_of cell [] = 0
count_of cell ((c, n) ∷ counts) = if cell_eq cell c then n else count_of cell counts

count_of-add_to :
    (cell d : Cell) (n : ℕ) (counts : Counts)
    → has_cell cell counts ≡ true
    → count_of cell counts + n < 2 ^ 64
    → count_of d (add_to cell n counts)
      ≡ (if cell_eq d cell then count_of cell counts + n else count_of d counts)
unfolding count_of add_to has_cell
count_of-add_to cell d n [] h b = cc
count_of-add_to cell d n ((c, m) ∷ counts) h b = ground (
  arith,
  cell_eq_iff cell c,
  cell_eq_iff d c,
  cell_eq_iff d cell,
  count_of-add_to cell d n counts,
)

count_of-missing :
    (cell : Cell) (counts : Counts) → has_cell cell counts ≡ false → count_of cell counts ≡ 0
unfolding count_of has_cell
count_of-missing cell [] h = refl
count_of-missing cell ((c, m) ∷ counts) h = ground (arith, count_of-missing cell counts)

count_of-cons :
    (cell d : Cell) (n : ℕ) (counts : Counts)
    → count_of d ((cell, n) ∷ counts) ≡ (if cell_eq d cell then n else count_of d counts)
unfolding count_of
count_of-cons cell d n counts = refl

-- Whether the recorder takes an increment of a cell.
abbrev pub takes : Cell → State → Bool
takes cell s = has_cell cell s.counts || ltb (length s.counts) max_cells

-- Recording an event adds one to the count of its own cell, unless the cap refuses the cell, and
-- leaves all other counts as they are, if that count stays below 2^64.
pub count_of-record_event :
    (s : State) (cell d : Cell)
    → count_of cell s.counts + 1 < 2 ^ 64
    → count_of d (record_event s cell.experiment_key cell.variant cell.kind).counts
      ≡ (if cell_eq d cell && takes cell s then count_of d s.counts + 1 else count_of d s.counts)
unfolding record_event absorb
count_of-record_event s cell d b = ground (
  arith,
  cell_eq_iff d cell,
  count_of-add_to cell d 1 s.counts,
  count_of-missing cell s.counts,
  count_of-cons cell d 1 s.counts,
)
