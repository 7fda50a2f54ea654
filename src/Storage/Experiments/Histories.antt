-- ===== src/Storage/Experiments/Histories.antt =====
-- The life of experiments over any sequence of the statements that write them. Each statement takes
-- effect at once, so that the requests of several callers, however they interleave, are one sequence.
use mathlib.Core.List.{Memᴰ}
use flagforge.Prelude.{
  ℕ, ◌≤◌, ◌≡◌, refl, ◌⊎◌, Bool, true, ◌&&◌, Option, some, List, [], ◌∷◌, arith, Result, ok, err,
  Result-cases, ap, inl, inr, Option-cases, unwrap_or,
}
use flagforge.Text.{Text, text, text_eq, text_eq_iff}
use flagforge.Extern.{Extern}
use flagforge.Storage.Models.{ExperimentState, draft, running, stopped, state_as_str}
use flagforge.Storage.Error.{SqlError}
use flagforge.Storage.Tables.{Tables, ExperimentRow}
use flagforge.Storage.Rows.{update_where, rows_where-Memᴰ}
use flagforge.Storage.Experiments.{
  is_experiment, moved, written, patched, update_experiments, experiment_violation,
  insert_experiment, draft_row, rename_experiment, move_experiment,
}
use flagforge.Storage.Experiments.Lifecycle.{starts, stops, update_experiments-Memᴰ}
use flagforge.Storage.Experiments.Removal.{remove_experiment, backdate_experiment}
use flagforge.Storage.Experiments.Lives.{
  Reaches, stays, Reaches-trans, Lives, Lives-refl, Lives-trans, rename-Lives, moved-Lives,
  backdate-Lives,
}

-- The statements that write experiments.
pub data Write : Type 0 where
  create :
      (environment_id flag_id : ℕ) (key name : Text) (description : Option Text)
      (metric_key control_variant : Text)
      → Write
  rename :
      (environment_id : ℕ) (key : Text) (name : Option Text) (description : Option (Option Text))
      → Write
  start stop remove : (environment_id : ℕ) (key : Text) → Write
  backdate : (environment_id : ℕ) (key : Text) (started_at : ℕ) → Write

module _ ⦃x : Extern⦄ where
  -- The tables after a statement, which a refusal leaves alone.
  abbrev tables_after : {A : Type 0} → Tables → Result (A × Tables) SqlError → Tables
  tables_after t (ok (a, t')) = t'
  tables_after t (err e) = t

  unfoldable pub perform : ℕ → Write → Tables → Tables
  unfolding insert_experiment draft_row rename_experiment move_experiment remove_experiment
      backdate_experiment
  perform now (create v f k n d m c) t =
      tables_after t (insert_experiment (draft_row v f k n d m c) now t)
  perform now (rename v k n d) t = tables_after t (rename_experiment v k n d now t)
  perform now (start v k) t = tables_after t (move_experiment v k draft running now t)
  perform now (stop v k) t = tables_after t (move_experiment v k running stopped now t)
  perform now (remove v k) t = tables_after t (remove_experiment v k now t)
  perform now (backdate v k s) t = tables_after t (backdate_experiment v k s now t)

  -- A sequence of statements, each at its time.
  unfoldable pub perform_all : List (ℕ × Write) → Tables → Tables
  unfolding perform
  perform_all [] t = t
  perform_all ((now, w) ∷ ws) t = perform_all ws (perform now w t)

  -- Where a row comes from: it was there, or it is new and was a draft.
  abbrev pub Came : Tables → ExperimentRow → Type 0
  Came t e' =
      ((e : ExperimentRow) × Memᴰ e t.experiments × Lives e e')
      ⊎ ((t.next_id ≤ e'.id) × Reaches (state_as_str draft) e'.state)

  here : (t : Tables) (e' : ExperimentRow) → Memᴰ e' t.experiments → Came t e'
  here t e' m = inl (e', m, Lives-refl e')

  -- An update whose rows all live on, and which hands out no id.
  update-Came :
      (p : ExperimentRow → Bool) (f : ℕ → ExperimentRow → ExperimentRow) (now : ℕ) (t : Tables)
      (e' : ExperimentRow)
      → ((e : ExperimentRow) → p e ≡ true → written (f now e) ≡ ok e' → Lives e e')
      → Memᴰ e' (tables_after t (update_experiments p f now t)).experiments
      → Came t e'
  update-Came p f now t e' lives m = elim (Result-cases (update_experiments p f now t)) [
    | inl ((unchanged, t'), done) ↦
        elim (update_experiments-Memᴰ p f now t t' unchanged e' done (rw done at m)) [
          | inl k ↦ here t e' k
          | inr (e, k, yes', w) ↦ inl (e, k, lives e yes' w)
        ]
    | inr (s, refused) ↦ here t e' (rw refused at m)
  ]

  in_word :
      (v : ℕ) (k word : Text) (e : ExperimentRow)
      → (is_experiment v k e && text_eq e.state word) ≡ true
      → e.state ≡ word
  in_word v k word e p = (text_eq_iff e.state word).0 (ground (arith, p))

  in_state :
      (v : ℕ) (k : Text) (s : ExperimentState) (e : ExperimentRow)
      → (is_experiment v k e && text_eq e.state (state_as_str s)) ≡ true
      → e.state ≡ state_as_str s
  in_state v k s e p = in_word v k (state_as_str s) e p

  create-Came :
      (e : ExperimentRow) (now : ℕ) (t : Tables) (e' : ExperimentRow)
      → e.state ≡ state_as_str draft
      → Memᴰ e' (tables_after t (insert_experiment e now t)).experiments
      → Came t e'
  unfolding insert_experiment
  create-Came e now t e' is_draft m = elim (Option-cases (experiment_violation e t)) [
    | inl none' ↦ inserted (rw (none', tables_after) at m)
    | inr (v, some') ↦ here t e' (rw (some', tables_after) at m)
  ]
    where
      inserted : Memᴰ e' (record e { id = t.next_id } ∷ t.experiments) → Came t e'
      inserted (Memᴰ.head same) =
          inr (rw (ap (λ r. r.id) same) (omega arith), rw (ap (λ r. r.state) same, is_draft) stays)
      inserted (Memᴰ.tail k) = here t e' k

  update-next_id :
      (p : ExperimentRow → Bool) (f : ℕ → ExperimentRow → ExperimentRow) (now : ℕ) (t : Tables)
      → t.next_id ≤ (tables_after t (update_experiments p f now t)).next_id
  unfolding update_experiments
  update-next_id p f now t =
      elim (Result-cases (update_where p (λ e. written (f now e)) t.experiments)) [
        | inl (es, e) ↦ rw (e) (omega arith)
        | inr (m, e) ↦ rw (e) (omega arith)
      ]

  create-next_id :
      (e : ExperimentRow) (now : ℕ) (t : Tables)
      → t.next_id ≤ (tables_after t (insert_experiment e now t)).next_id
  unfolding insert_experiment
  create-next_id e now t = elim (Option-cases (experiment_violation e t)) [
    | inl none' ↦ rw (none', tables_after) (omega arith)
    | inr (v, some') ↦ rw (some', tables_after) (omega arith)
  ]

  draft_row-state :
      (v f : ℕ) (k n : Text) (d : Option Text) (m c : Text)
      → (draft_row v f k n d m c).state ≡ state_as_str draft
  unfolding draft_row
  draft_row-state v f k n d m c = refl

  perform-Came :
      (now : ℕ) (w : Write) (t : Tables) (e' : ExperimentRow)
      → Memᴰ e' (perform now w t).experiments
      → Came t e'
  unfolding perform rename_experiment move_experiment backdate_experiment remove_experiment
  perform-Came now (create v f k n d m c) t e' h =
      create-Came (draft_row v f k n d m c) now t e' (draft_row-state v f k n d m c) h
  perform-Came now (rename v k n d) t e' h =
      update-Came (is_experiment v k)
        (λ now e. record e { name = unwrap_or n e.name; description = patched d e.description }) now
        t e' (λ e p w. rename-Lives now v k n d e e' w) h
  perform-Came now (start v k) t e' h =
      update-Came (λ e. is_experiment v k e && text_eq e.state (state_as_str draft))
        (λ now e. moved now running e) now t e'
        (λ e p w. moved-Lives now draft running e e' starts (in_state v k draft e p) w) h
  perform-Came now (stop v k) t e' h =
      update-Came (λ e. is_experiment v k e && text_eq e.state (state_as_str running))
        (λ now e. moved now stopped e) now t e'
        (λ e p w. moved-Lives now running stopped e e' stops (in_state v k running e p) w) h
  perform-Came now (remove v k) t e' h = here t e' (rows_where-Memᴰ _ t.experiments e' h).0
  perform-Came now (backdate v k s) t e' h =
      update-Came (λ e. is_experiment v k e && text_eq e.state (text "running"))
        (λ now e. record e { started_at = some s }) now t e'
        (λ e p w. backdate-Lives now s e e' (in_word v k (text "running") e p) w) h

  perform-next_id : (now : ℕ) (w : Write) (t : Tables) → t.next_id ≤ (perform now w t).next_id
  unfolding perform rename_experiment move_experiment backdate_experiment remove_experiment
  perform-next_id now (create v f k n d m c) t = create-next_id (draft_row v f k n d m c) now t
  perform-next_id now (rename v k n d) t =
      update-next_id (is_experiment v k)
        (λ now e. record e { name = unwrap_or n e.name; description = patched d e.description }) now
        t
  perform-next_id now (start v k) t =
      update-next_id (λ e. is_experiment v k e && text_eq e.state (state_as_str draft))
        (λ now e. moved now running e) now t
  perform-next_id now (stop v k) t =
      update-next_id (λ e. is_experiment v k e && text_eq e.state (state_as_str running))
        (λ now e. moved now stopped e) now t
  perform-next_id now (remove v k) t = omega arith
  perform-next_id now (backdate v k s) t =
      update-next_id (λ e. is_experiment v k e && text_eq e.state (text "running"))
        (λ now e. record e { started_at = some s }) now t

  Came-step :
      (t t' : Tables) (e' : ExperimentRow)
      → t.next_id ≤ t'.next_id
      → ((e : ExperimentRow) → Memᴰ e t'.experiments → Came t e)
      → Came t' e'
      → Came t e'
  Came-step t t' e' n step (inr (new, r)) = inr (omega arith, r)
  Came-step t t' e' n step (inl (e, m, later)) = elim (step e m) [
    | inl (e0, m0, before) ↦ inl (e0, m0, Lives-trans e0 e e' before later)
    | inr (new, r) ↦ inr (rw (later.id) new, Reaches-trans r later.state)
  ]

  -- Over any sequence of the statements that write experiments, each row there is was there
  -- before, with the same id, environment, flag, metric and control, in a state that it reaches
  -- along the edges from draft to running and from running to stopped, with a version that is no
  -- lower, and unchanged in state and window if it was stopped; or its id is new, and it reached
  -- its state from draft.
  pub perform_all-Came :
      (ws : List (ℕ × Write)) (t : Tables) (e' : ExperimentRow)
      → Memᴰ e' (perform_all ws t).experiments
      → Came t e'
  unfolding perform_all
  perform_all-Came [] t e' m = here t e' m
  perform_all-Came ((now, w) ∷ ws) t e' m =
      Came-step t (perform now w t) e' (perform-next_id now w t) (perform-Came now w t)
        (perform_all-Came ws (perform now w t) e' m)
