-- ===== src/Sdk/Events.antt =====
-- crates/sdk/src/events.rs: the counters of experiment events. The mutex makes each operation a step
-- of its own. The map is an association list, in whatever order.
pub mod Conservation
pub mod Cells
use flagforge.Prelude.{
  ℕ, ◌+◌, ◌%◌, ◌^◌, Bool, true, false, ◌&&◌, ◌||◌, List, [], ◌∷◌, ltb, if◌then◌else◌, length,
}
use flagforge.Text.{Text, text_eq}

abbrev pub max_cells : ℕ
max_cells = 4096

pub data EventKind : Type 0 where
  exposure conversion : EventKind

pub record Cell : Type 0 where
  pub experiment_key : Text
  pub variant : Text
  pub kind : EventKind

abbrev pub kind_eq : EventKind → EventKind → Bool
kind_eq exposure exposure = true
kind_eq conversion conversion = true
kind_eq _ _ = false

unfoldable pub cell_eq : Cell → Cell → Bool
cell_eq a b =
    text_eq a.experiment_key b.experiment_key
    && text_eq a.variant b.variant
    && kind_eq a.kind b.kind

abbrev pub Counts : Type 0
Counts = List (Cell × ℕ)

pub record State : Type 0 where
  pub counts : Counts
  pub dropped : ℕ

-- `+=` on a `u64`.
abbrev pub add64 : ℕ → ℕ → ℕ
add64 a b = (a + b) % 2 ^ 64

unfoldable pub has_cell : Cell → Counts → Bool
has_cell cell [] = false
has_cell cell ((c, n) ∷ counts) = cell_eq cell c || has_cell cell counts

-- `*counts.get_mut(&cell) += n`.
unfoldable pub add_to : Cell → ℕ → Counts → Counts
add_to cell n [] = []
add_to cell n ((c, m) ∷ counts) =
    if cell_eq cell c then (c, add64 m n) ∷ counts else (c, m) ∷ add_to cell n counts

-- The body that `record` and `restore` share: an existing cell grows, and the cap refuses a new one.
unfoldable pub absorb : Cell → ℕ → State → State
absorb cell n s =
    if has_cell cell s.counts
    then record s { counts = add_to cell n s.counts }
    else if ltb (length s.counts) max_cells
    then record s { counts = (cell, n) ∷ s.counts }
    else record s { dropped = add64 s.dropped n }

unfoldable pub record_event : State → Text → Text → EventKind → State
record_event s experiment_key variant kind =
    absorb (record { experiment_key = experiment_key; variant = variant; kind = kind }) 1 s

abbrev pub empty : State
empty = record { counts = []; dropped = 0 }

-- What was recorded, and the state that is left.
unfoldable pub drain : State → (Counts × ℕ) × State
drain s = ((s.counts, s.dropped), empty)

unfoldable pub restore : State → Counts → State
restore s [] = s
restore s ((cell, n) ∷ counts) = restore (absorb cell n s) counts
