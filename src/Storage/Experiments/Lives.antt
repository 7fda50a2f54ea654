-- ===== src/Storage/Experiments/Lives.antt =====
-- A row of an experiment, later: what no statement changes, and what the statements do to one row.
use flagforge.Prelude.{ℕ, ◌≡◌, refl, sym, ◌∙◌, true, Option, some, arith, ok, ap, unwrap_or, ◌≢◌}
use flagforge.Prelude.Int.{le, le_refl, le_trans}
use flagforge.Text.{Text, text}
use flagforge.Storage.Models.{ExperimentState, stopped, state_as_str}
use flagforge.Storage.Version.{next_version-Above, Above→le}
use flagforge.Storage.Tables.{ExperimentRow}
use flagforge.Storage.Experiments.{moved, written, patched}
use flagforge.Storage.Experiments.Lifecycle.{Follows, starts, stops, written-ok}

-- A state is reached from another along the edges.
pub data Reaches : Text → Text → Type 0 where
  stays : {s : Text} → Reaches s s
  follows :
      {from to : ExperimentState} {s u : Text}
      → Follows from to
      → s ≡ state_as_str from
      → Reaches (state_as_str to) u
      → Reaches s u

pub Reaches-trans : {s u v : Text} → Reaches s u → Reaches u v → Reaches s v
Reaches-trans stays r = r
Reaches-trans (follows f e r') r = follows f e (Reaches-trans r' r)

-- A row, later: what is measured is as it was, the state has gone along the edges, the version has
-- not gone down, and the window of a stopped experiment is as it was.
pub record Lives (e e' : ExperimentRow) : Type 0 where
  pub id : e'.id ≡ e.id
  pub measures :
      (e'.environment_id ≡ e.environment_id)
      × (e'.flag_id ≡ e.flag_id)
      × (e'.metric_key ≡ e.metric_key)
      × (e'.control_variant ≡ e.control_variant)
  pub state : Reaches e.state e'.state
  pub version : le e.version e'.version ≡ true
  pub final :
      e.state ≡ state_as_str stopped
      → (e'.state ≡ e.state) × (e'.started_at ≡ e.started_at) × (e'.stopped_at ≡ e.stopped_at)

pub Lives-refl : (e : ExperimentRow) → Lives e e
Lives-refl e = record {
  id = refl;
  measures = (refl, refl, refl, refl);
  state = stays;
  version = le_refl e.version;
  final = λ h. (refl, refl, refl);
}

pub Lives-trans : (e e' e'' : ExperimentRow) → Lives e e' → Lives e' e'' → Lives e e''
Lives-trans e e' e'' p q = record {
  id = q.id ∙ p.id;
  measures = ground (arith, p.measures, q.measures);
  state = Reaches-trans p.state q.state;
  version = le_trans e.version e'.version e''.version p.version q.version;
  final = λ h.
      let first = p.final h in
      let second = q.final (first.0 ∙ h) in
      (second.0 ∙ first.0, second.1 ∙ first.1, second.2 ∙ first.2);
}

not_stopped :
    {from to : ExperimentState} → Follows from to → state_as_str from ≢ state_as_str stopped
unfolding state_as_str text
not_stopped starts h = ground (arith, h)
not_stopped stops h = ground (arith, h)

-- The version of a row that an update writes.
written-version : (e e' : ExperimentRow) → written e ≡ ok e' → le e.version e'.version ≡ true
written-version e e' w =
    let (v, next, is') = written-ok e e' w in
    rw (ap (λ r. r.version) is') (Above→le e.version v (next_version-Above e.version v next))

pub rename-Lives :
    (now v : ℕ) (k : Text) (n : Option Text) (d : Option (Option Text)) (e e' : ExperimentRow)
    → written (record e { name = unwrap_or n e.name; description = patched d e.description })
      ≡ ok e'
    → Lives e e'
rename-Lives now v k n d e e' w =
    let (version', next, is') = written-ok _ e' w in
    record {
      id = ap (λ r. r.id) is';
      measures = (
        ap (λ r. r.environment_id) is',
        ap (λ r. r.flag_id) is',
        ap (λ r. r.metric_key) is',
        ap (λ r. r.control_variant) is',
      );
      state = rw (ap (λ r. r.state) is') stays;
      version = written-version _ e' w;
      final = λ h. (ap (λ r. r.state) is', ap (λ r. r.started_at) is', ap (λ r. r.stopped_at) is');
    }

pub moved-Lives :
    (now : ℕ) (from to : ExperimentState) (e e' : ExperimentRow)
    → Follows from to
    → e.state ≡ state_as_str from
    → written (moved now to e) ≡ ok e'
    → Lives e e'
unfolding moved
moved-Lives now from to e e' edge was w =
    let (version', next, is') = written-ok (moved now to e) e' w in
    record {
      id = ap (λ r. r.id) is';
      measures = (
        ap (λ r. r.environment_id) is',
        ap (λ r. r.flag_id) is',
        ap (λ r. r.metric_key) is',
        ap (λ r. r.control_variant) is',
      );
      state = follows edge was (rw (ap (λ r. r.state) is') stays);
      version = written-version (moved now to e) e' w;
      final = λ h. absurd (not_stopped edge (sym was ∙ h));
    }

pub backdate-Lives :
    (now at : ℕ) (e e' : ExperimentRow)
    → e.state ≡ text "running"
    → written (record e { started_at = some at }) ≡ ok e'
    → Lives e e'
unfolding text state_as_str
backdate-Lives now at e e' was w =
    let (version', next, is') = written-ok (record e { started_at = some at }) e' w in
    record {
      id = ap (λ r. r.id) is';
      measures = (
        ap (λ r. r.environment_id) is',
        ap (λ r. r.flag_id) is',
        ap (λ r. r.metric_key) is',
        ap (λ r. r.control_variant) is',
      );
      state = rw (ap (λ r. r.state) is') stays;
      version = written-version (record e { started_at = some at }) e' w;
      final = λ h. absurd (not_stopped stops (sym was ∙ h));
    }
