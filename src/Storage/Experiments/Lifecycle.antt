-- ===== src/Storage/Experiments/Lifecycle.antt =====
-- The life of an experiment: what the statements on the table `experiments` do to the state and the
-- version of a row.
use mathlib.Core.List.{Memᴰ}
use flagforge.Prelude.{
  ℕ, ◌≡◌, ◌⊎◌, Bool, true, ◌&&◌, some, arith, is_nil, ok, Result-cases, ap, Bool-cases, inl, inr,
  Option-cases,
}
use flagforge.Prelude.Int.{ℤ}
use flagforge.Text.{Text, text_eq, text_eq_iff}
use flagforge.Extern.{Extern}
use flagforge.Storage.Models.{ExperimentState, draft, running, stopped, state_as_str}
use flagforge.Storage.Version.{next_version, Above, next_version-Above}
use flagforge.Storage.Tables.{Tables, ExperimentRow}
use flagforge.Storage.Rows.{rows_where, update_where, update_where-Memᴰ}
use flagforge.Storage.Experiments.{
  is_experiment, moved, written, touched, checked, update_experiments, move_experiment,
}

-- The edges: a draft starts, and a running experiment stops.
pub data Follows : ExperimentState → ExperimentState → Type 0 where
  starts : Follows draft running
  stops : Follows running stopped

-- The id of a row, its state and its version, from before a statement to after it.
pub record Moves (from to : ExperimentState) (e e' : ExperimentRow) : Type 0 where
  pub id : e'.id ≡ e.id
  pub was : e.state ≡ state_as_str from
  pub is : e'.state ≡ state_as_str to
  pub rises : Above e.version e'.version

-- A row after an update is the row that the statement made, with the next version.
pub written-ok :
    (e e' : ExperimentRow)
    → written e ≡ ok e'
    → (v : ℤ) × (next_version e.version ≡ some v) × (e' ≡ record e { version = v })
unfolding written touched checked
written-ok e e' h = elim (Option-cases (next_version e.version)) [
  | inl none' ↦ absurd (ground (arith, none'))
  | inr (v, some') ↦ (v, some', ground (arith, some'))
]

module _ ⦃x : Extern⦄ where
  updated :
      (p : ExperimentRow → Bool) (f : ℕ → ExperimentRow → ExperimentRow) (now : ℕ) (t t' : Tables)
      (unchanged : Bool)
      → update_experiments p f now t ≡ ok (unchanged, t')
      → (update_where p (λ e. written (f now e)) t.experiments ≡ ok t'.experiments)
        × (unchanged ≡ is_nil (rows_where p t.experiments))
  unfolding update_experiments
  updated p f now t t' unchanged h =
      elim (Result-cases (update_where p (λ e. written (f now e)) t.experiments)) [
        | inl (es, e) ↦ ground (arith, e)
        | inr (m, e) ↦ absurd (ground (arith, e))
      ]

  pub update_experiments-Memᴰ :
      (p : ExperimentRow → Bool) (f : ℕ → ExperimentRow → ExperimentRow) (now : ℕ) (t t' : Tables)
      (unchanged : Bool) (e' : ExperimentRow)
      → update_experiments p f now t ≡ ok (unchanged, t')
      → Memᴰ e' t'.experiments
      → Memᴰ e' t.experiments
        ⊎ ((e : ExperimentRow) × Memᴰ e t.experiments × (p e ≡ true) × (written (f now e) ≡ ok e'))
  update_experiments-Memᴰ p f now t t' unchanged e' h m =
      let (e, k, came) =
        update_where-Memᴰ p (λ e. written (f now e)) t.experiments t'.experiments e'
          (updated p f now t t' unchanged h).0 m in
      elim (Bool-cases (p e)) [
        | inl yes' ↦ inr (e, k, yes', rw yes' at came)
        | inr no' ↦ let same : e' ≡ e = ground (arith, rw no' at came) in inl (rw (same) k)
      ]

  -- A transition takes each row that it changes along its edge, and raises the version.
  pub move_experiment-Moves :
      (environment_id : ℕ) (key : Text) (from to : ExperimentState) (now : ℕ) (t t' : Tables)
      (unmoved : Bool) (e' : ExperimentRow)
      → move_experiment environment_id key from to now t ≡ ok (unmoved, t')
      → Memᴰ e' t'.experiments
      → Memᴰ e' t.experiments ⊎ ((e : ExperimentRow) × Memᴰ e t.experiments × Moves from to e e')
  unfolding move_experiment moved
  move_experiment-Moves environment_id key from to now t t' unmoved e' h m =
      elim (update_experiments-Memᴰ
        (λ e. is_experiment environment_id key e && text_eq e.state (state_as_str from))
        (λ now e. moved now to e) now t t' unmoved e' h m) [
          | inl k ↦ inl k
          | inr (e, k, p, w) ↦
              let (v, next, is') = written-ok (moved now to e) e' w in
              inr (
                e,
                k,
                record {
                  id = ap (λ r. r.id) is';
                  was = (text_eq_iff e.state (state_as_str from)).0 (ground (arith, p));
                  is = ap (λ r. r.state) is';
                  rises = rw (ap (λ r. r.version) is') (next_version-Above e.version v next);
                },
              )
        ]
