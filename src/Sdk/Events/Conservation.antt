-- ===== src/Sdk/Events/Conservation.antt =====
-- What the counters of crates/sdk/src/events.rs account for, and the form that they keep.
use flagforge.Prelude.{ℕ, ◌+◌, ◌^◌, ◌<◌, ◌≤◌, ◌≡◌, refl, true, false, [], ◌∷◌, arith, length}
use flagforge.Text.{Text}
use flagforge.Sdk.Events.{
  Cell, Counts, State, EventKind, max_cells, has_cell, add_to, absorb, record_event, empty, drain,
  restore,
}

unfoldable pub total : Counts → ℕ
total [] = 0
total ((c, n) ∷ counts) = n + total counts

-- Everything that the state accounts for, refused increments included.
abbrev pub accounted : State → ℕ
accounted s = total s.counts + s.dropped

total-add_to :
    (cell : Cell) (n : ℕ) (counts : Counts)
    → has_cell cell counts ≡ true
    → total counts + n < 2 ^ 64
    → total (add_to cell n counts) ≡ total counts + n
unfolding total add_to has_cell
total-add_to cell n [] h b = cc
total-add_to cell n ((c, m) ∷ counts) h b = ground (arith, total-add_to cell n counts)

total-cons : (cell : Cell) (n : ℕ) (counts : Counts) → total ((cell, n) ∷ counts) ≡ n + total counts
unfolding total
total-cons cell n counts = refl

pub accounted-absorb :
    (cell : Cell) (n : ℕ) (s : State)
    → accounted s + n < 2 ^ 64
    → accounted (absorb cell n s) ≡ accounted s + n
unfolding absorb
accounted-absorb cell n s b =
    ground (arith, total-add_to cell n s.counts, total-cons cell n s.counts)

-- Restoring counts accounts for all of them, as counted or as dropped, if the sum stays below
-- 2^64.
pub accounted-restore :
    (s : State) (counts : Counts)
    → accounted s + total counts < 2 ^ 64
    → accounted (restore s counts) ≡ accounted s + total counts
unfolding restore total
accounted-restore s [] b = omega arith
accounted-restore s ((cell, n) ∷ counts) b =
    let here = accounted-absorb cell n s (omega arith) in
    let rest = accounted-restore (absorb cell n s) counts (omega (arith, here)) in
    omega (arith, here, rest)

pub length-add_to :
    (cell : Cell) (n : ℕ) (counts : Counts) → length (add_to cell n counts) ≡ length counts
unfolding add_to
length-add_to cell n [] = refl
length-add_to cell n ((c, m) ∷ counts) = ground (arith, length-add_to cell n counts)

-- No cell stands twice, and there are at most as many as the cap allows.
abbrev pub NoTwin : Counts → Type 0
NoTwin [] = Unit
NoTwin ((c, n) ∷ counts) = (has_cell c counts ≡ false) × NoTwin counts

pub record IsValid (s : State) : Type 0 where
  pub bounded : length s.counts ≤ max_cells
  pub no_twin : NoTwin s.counts

has_cell-add_to :
    (c cell : Cell) (n : ℕ) (counts : Counts)
    → has_cell c (add_to cell n counts) ≡ has_cell c counts
unfolding has_cell add_to
has_cell-add_to c cell n [] = refl
has_cell-add_to c cell n ((d, m) ∷ counts) = ground (arith, has_cell-add_to c cell n counts)

add_to-NoTwin :
    (cell : Cell) (n : ℕ) (counts : Counts) → NoTwin counts → NoTwin (add_to cell n counts)
unfolding add_to
add_to-NoTwin cell n [] t = tt
add_to-NoTwin cell n ((d, m) ∷ counts) t =
    ground (arith, has_cell-add_to d cell n counts, add_to-NoTwin cell n counts)

pub absorb-IsValid : (cell : Cell) (n : ℕ) (s : State) → IsValid s → IsValid (absorb cell n s)
unfolding absorb
absorb-IsValid cell n s v =
    ground (arith, length-add_to cell n s.counts, add_to-NoTwin cell n s.counts)

restore-IsValid : (s : State) (counts : Counts) → IsValid s → IsValid (restore s counts)
unfolding restore
restore-IsValid s [] v = v
restore-IsValid s ((cell, n) ∷ counts) v =
    restore-IsValid (absorb cell n s) counts (absorb-IsValid cell n s v)

-- What other threads do while a request is awaited.
pub data Step : State → State → Type 0 where
  recorded :
      (s : State) (experiment_key variant : Text) (kind : EventKind)
      → Step s (record_event s experiment_key variant kind)
  drained : (s : State) → Step s (drain s).1
  restored : (s : State) (counts : Counts) → Step s (restore s counts)

pub data Reach : State → Type 0 where
  start : Reach empty
  next : {s t : State} → Reach s → Step s t → Reach t

-- However recording, draining and restoring interleave from the empty recorder, no cell is counted
-- in two places and the cap on cells holds.
pub Reach-IsValid : {s : State} → Reach s → IsValid s
unfolding record_event drain
Reach-IsValid start = record { bounded = omega arith; no_twin = tt }
Reach-IsValid (next r (recorded s k v kind)) = absorb-IsValid _ 1 s (Reach-IsValid r)
Reach-IsValid (next r (drained s)) = record { bounded = omega arith; no_twin = tt }
Reach-IsValid (next r (restored s counts)) = restore-IsValid s counts (Reach-IsValid r)

-- An event is counted, or refused and counted as dropped, and nothing else changes in the sum.
pub accounted-record_event :
    (s : State) (experiment_key variant : Text) (kind : EventKind)
    → accounted s + 1 < 2 ^ 64
    → accounted (record_event s experiment_key variant kind) ≡ accounted s + 1
unfolding record_event
accounted-record_event s experiment_key variant kind b = accounted-absorb _ 1 s b
