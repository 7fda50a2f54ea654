-- ===== src/Storage/Experiments/Counters/Cells.antt =====
-- The sums that the table of counters and a batch hold for one cell of an experiment: collapsing a
-- batch and writing one cell.
use flagforge.Prelude.{
  ℕ, ◌+◌, ◌≡◌, refl, ◌↔◌, Bool, true, ◌&&◌, Option, none, some, List, [], ◌∷◌, arith, ◌==◌, ==_iff,
  if◌then◌else◌, ok, and_then-ok, Bool-cases, Option-cases, inl, inr,
}
use flagforge.Text.{text, text_eq, text_eq_iff, text_eq_refl}
use flagforge.Storage.Models.{CounterKind, exposure, conversion, kind_as_str}
use flagforge.Storage.Tables.{CounterRow}
use flagforge.Storage.Experiments.Counters.{
  CounterDelta, Cell, cell_eq, kind_eq, add_to, collapse, is_counter, checked_sum, upsert_counter,
  new_counter,
}

abbrev pub when : Bool → ℕ → ℕ
when b n = if b then n else 0

-- What the table holds for an experiment in a cell.
unfoldable pub tally : ℕ → Cell → List CounterRow → ℕ
tally id cell [] = 0
tally id cell (c ∷ cs) =
    when (is_counter id cell.variant (kind_as_str cell.kind) cell.hour c) c.count + tally id cell cs

-- What a batch holds for a cell.
unfoldable pub delta_total : (ℕ → Option ℕ) → Cell → List CounterDelta → ℕ
delta_total truncated cell [] = 0
delta_total truncated cell (d ∷ ds) =
    elim (truncated d.at) [
      | none ↦ 0
      | some hour ↦
          when
            (cell_eq
              (record { key = d.experiment_key; variant = d.variant; kind = d.kind; hour = hour })
              cell)
            d.count
    ]
    + delta_total truncated cell ds

unfoldable pub cells_total : Cell → List (Cell × ℕ) → ℕ
cells_total cell [] = 0
cells_total cell ((c, n) ∷ cells) = when (cell_eq c cell) n + cells_total cell cells

kind_eq_iff : (a b : CounterKind) → (kind_eq a b ≡ true) ↔ (a ≡ b)
kind_eq_iff exposure exposure = ground arith
kind_eq_iff exposure conversion = ground arith
kind_eq_iff conversion exposure = ground arith
kind_eq_iff conversion conversion = ground arith

pub cell_eq_iff : (c d : Cell) → (cell_eq c d ≡ true) ↔ (c ≡ d)
unfolding cell_eq
cell_eq_iff c d = ground (
  arith,
  text_eq_iff c.key d.key,
  text_eq_iff c.variant d.variant,
  kind_eq_iff c.kind d.kind,
  ==_iff c.hour d.hour,
)

pub add_to-total :
    (cell c : Cell) (n : ℕ) (cells : List (Cell × ℕ))
    → cells_total cell (add_to c n cells) ≡ cells_total cell cells + when (cell_eq c cell) n
unfolding cells_total add_to
add_to-total cell c n [] = ground arith
add_to-total cell c n ((d, m) ∷ cells) =
    ground
      (arith, add_to-total cell c n cells, cell_eq_iff d c, cell_eq_iff d cell, cell_eq_iff c cell)

pub collapse-total :
    (truncated : ℕ → Option ℕ) (cell : Cell) (cells out : List (Cell × ℕ)) (ds : List CounterDelta)
    → collapse truncated cells ds ≡ ok out
    → cells_total cell out ≡ cells_total cell cells + delta_total truncated cell ds
unfolding collapse delta_total
collapse-total truncated cell cells out [] h = ground arith
collapse-total truncated cell cells out (d ∷ ds) h = elim (Option-cases (truncated d.at)) [
  | inl none' ↦ absurd (ground (arith, none'))
  | inr (hour, some') ↦
      let c : Cell = record {
        key = d.experiment_key;
        variant = d.variant;
        kind = d.kind;
        hour = hour;
      } in
      let ih =
        collapse-total truncated cell (add_to c d.count cells) out ds (rw (some', collapse) at h) in
      ground (arith, ih, some', add_to-total cell c d.count cells)
]

kind_text : (a b : CounterKind) → text_eq (kind_as_str a) (kind_as_str b) ≡ kind_eq a b
unfolding kind_as_str text text_eq
kind_text exposure exposure = refl
kind_text exposure conversion = refl
kind_text conversion exposure = refl
kind_text conversion conversion = refl

-- Whether the cells of two experiments are one row.
abbrev pub same_row : ℕ → Cell → ℕ → Cell → Bool
same_row id c id' d =
    id == id' && text_eq c.variant d.variant && kind_eq c.kind d.kind && c.hour == d.hour

pub checked_sum-ok : (a b n : ℕ) → checked_sum a b ≡ ok n → n ≡ a + b
unfolding checked_sum
checked_sum-ok a b n h = ground arith

-- Which row of an experiment a counter is, once it is known to be the row of `c`.
row_of :
    (id id' : ℕ) (cell c : Cell) (r : CounterRow)
    → is_counter id' c.variant (kind_as_str c.kind) c.hour r ≡ true
    → is_counter id cell.variant (kind_as_str cell.kind) cell.hour r ≡ same_row id' c id cell
unfolding is_counter
row_of id id' cell c r h =
    let same_id : r.experiment_id ≡ id' = ground arith in
    let same_variant : r.variant ≡ c.variant = (text_eq_iff r.variant c.variant).0 (ground arith) in
    let same_kind : r.kind ≡ kind_as_str c.kind =
      (text_eq_iff r.kind (kind_as_str c.kind)).0 (ground arith) in
    let same_hour : r.hour ≡ c.hour = ground arith in
    rw (same_id, same_variant, same_kind, same_hour, kind_text c.kind cell.kind) refl

is_counter-new :
    (id : ℕ) (c : Cell) (total : ℕ)
    → is_counter id c.variant (kind_as_str c.kind) c.hour (new_counter id c total) ≡ true
unfolding is_counter
is_counter-new id c total =
    ground (arith, text_eq_refl c.variant, text_eq_refl (kind_as_str c.kind))

pub upsert-tally :
    (id id' : ℕ) (cell c : Cell) (n : ℕ) (cs cs' : List CounterRow)
    → upsert_counter id' c n cs ≡ ok cs'
    → tally id cell cs' ≡ tally id cell cs + when (same_row id' c id cell) n
unfolding upsert_counter tally
upsert-tally id id' cell c n [] cs' h =
    let (total, sum, rest) =
      and_then-ok (checked_sum 0 n) (λ total. ok (new_counter id' c total ∷ [])) cs' h in
    let same : cs' ≡ new_counter id' c total ∷ [] = cc in
    rw (same) (
      rw
        (
          row_of id id' cell c (new_counter id' c total) (is_counter-new id' c total),
          checked_sum-ok 0 n total sum,
          tally,
        )
        (ground arith))
upsert-tally id id' cell c n (r ∷ cs) cs' h =
    elim (Bool-cases (is_counter id' c.variant (kind_as_str c.kind) c.hour r)) [
      | inl yes' ↦
          let (total, sum, rest) =
            and_then-ok (checked_sum r.count n) (λ total. ok (record r { count = total } ∷ cs)) cs'
              (rw yes' at h) in
          let same : cs' ≡ record r { count = total } ∷ cs = cc in
          rw (same)
            (ground (arith, row_of id id' cell c r yes', checked_sum-ok r.count n total sum))
      | inr no' ↦
          let (out, rest, put) =
            and_then-ok (upsert_counter id' c n cs) (λ out. ok (r ∷ out)) cs' (rw no' at h) in
          let same : cs' ≡ r ∷ out = cc in
          rw (same) (ground (arith, upsert-tally id id' cell c n cs out rest))
    ]
