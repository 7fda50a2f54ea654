-- ===== src/Storage/Experiments.antt =====
-- crates/storage/src/experiments.rs: experiments and their lifecycle, as statements on the table
-- `experiments`. The database's trigger raises the version of a row at each update.
pub mod Removal
pub mod Counters
pub mod Lifecycle
pub mod Lives
pub mod Histories
use flagforge.Prelude.{
  ℕ, ◌+◌, Bool, true, false, not, ◌&&◌, ◌||◌, Option, none, some, List, [], ◌∷◌, ◌++◌, map, ◌==◌,
  if◌then◌else◌, is_nil, is_some, is_none_or, unwrap_or, Result, ok, err, and_then,
}
use flagforge.Prelude.Int.{ℤ, pos}
use flagforge.Text.{Text, text, text_eq}
use flagforge.Extern.{Extern}
use flagforge.Core.Flag.{Variant}
use flagforge.Core.Snapshot.{ExperimentSpec}
use flagforge.Storage.Models.{ExperimentState, draft, running, stopped, state_as_str, parse_state}
use flagforge.Storage.Error.{
  SqlError, unique_violation, foreign_key_violation, check_violation, other_failure, StorageError,
  not_found, invalid, wrong_state,
}
use flagforge.Storage.Version.{next_version}
use flagforge.Storage.Tables.{
  Tables, ExperimentRow, EnvironmentRow, FlagRow, CounterRow, decode, key_check, name_check,
}
use flagforge.Storage.Rows.{rows_where, first_where, order_by, update_where, delete_where}
use flagforge.Storage.Exec.{
  Exec, Statement, pure, raise, lift, ◌>>=◌, ◌>>◌, select, execute, write, found,
}

-- `WHERE environment_id = $1 AND key = $2`.
unfoldable pub is_experiment : ℕ → Text → ExperimentRow → Bool
is_experiment environment_id key e = e.environment_id == environment_id && text_eq e.key key

-- The columns that a transition writes, before the trigger.
unfoldable pub moved : ℕ → ExperimentState → ExperimentRow → ExperimentRow
unfolding state_as_str
moved now to e = record e {
  state = state_as_str to;
  started_at = if text_eq (state_as_str to) (text "running") then some now else e.started_at;
  stopped_at = if text_eq (state_as_str to) (text "stopped") then some now else e.stopped_at;
}

-- The trigger `experiments_touch`.
unfoldable pub touched : ExperimentRow → Result ExperimentRow SqlError
unfolding next_version
touched e = elim (next_version e.version) [
  | none ↦ err other_failure
  | some version ↦ ok (record e { version = version })
]

-- The constraints on an updated row.
unfoldable pub checked : ExperimentRow → Result ExperimentRow SqlError
unfolding name_check
checked e = if name_check e.name then ok e else err check_violation

-- What an update stores of the row that the statement makes.
unfoldable pub written : ExperimentRow → Result ExperimentRow SqlError
unfolding touched checked
written e = and_then (touched e) checked

-- `description`: absent leaves the column alone, and null clears it.
unfoldable pub patched : Option (Option Text) → Option Text → Option Text
patched none old = old
patched (some new) old = new

module _ ⦃x : Extern⦄ where
  pub record Experiment : Type 0 where
    pub id : ℕ
    pub environment_id : ℕ
    pub flag_id : ℕ
    pub flag_key : Text
    pub variants : List Variant
    pub key : Text
    pub name : Text
    pub description : Option Text
    pub metric_key : Text
    pub control_variant : Text
    pub state : ExperimentState
    pub started_at : Option ℕ
    pub stopped_at : Option ℕ
    pub version : ℤ

  abbrev built :
      ExperimentRow → Text → List Variant → Option ExperimentState → Result Experiment StorageError
  built e flag_key variants none = err (invalid (text "experiment state"))
  built e flag_key variants (some state) = ok (record {
    id = e.id;
    environment_id = e.environment_id;
    flag_id = e.flag_id;
    flag_key = flag_key;
    variants = variants;
    key = e.key;
    name = e.name;
    description = e.description;
    metric_key = e.metric_key;
    control_variant = e.control_variant;
    state = state;
    started_at = e.started_at;
    stopped_at = e.stopped_at;
    version = e.version;
  })

  unfoldable pub build : ExperimentRow × FlagRow → Result Experiment StorageError
  unfolding decode parse_state
  build (e, f) =
      and_then (decode (text "experiment flag variants") f.variants)
        λ variants. built e f.key variants (parse_state e.state)

  -- `JOIN flags f ON f.id = e.flag_id`, where `id` is the primary key.
  unfoldable pub joined : List FlagRow → List ExperimentRow → List (ExperimentRow × FlagRow)
  unfolding first_where
  joined flags [] = []
  joined flags (e ∷ es) =
      let rest = joined flags es in
      elim (first_where (λ f. f.id == e.flag_id) flags) [ none ↦ rest | some f ↦ (e, f) ∷ rest ]

  unfoldable pub experiment_query : (ExperimentRow → Bool) → Tables → List (ExperimentRow × FlagRow)
  unfolding joined rows_where
  experiment_query p t = joined t.flags (rows_where p t.experiments)

  abbrev first_of : {A : Type 0} → List A → Option A
  first_of [] = none
  first_of (a ∷ as') = some a

  unfoldable pub find_experiment : ℕ → Text → Exec StorageError Experiment
  unfolding experiment_query is_experiment select found lift build ◌>>=◌
  find_experiment environment_id key = do
    row ← select (λ t. first_of (experiment_query (is_experiment environment_id key) t))
    r ← found (text "experiment") row
    lift (build r)

  -- `collect()` of results.
  unfoldable pub collected :
      {A B : Type 0} → (A → Result B StorageError) → List A → Result (List B) StorageError
  collected f [] = ok []
  collected f (a ∷ as') =
      let rest = collected f as' in and_then (f a) λ b. and_then rest λ bs. ok (b ∷ bs)

  unfoldable pub list_experiments : ℕ → Exec StorageError (List Experiment)
  unfolding experiment_query order_by select collected lift build ◌>>=◌
  list_experiments environment_id = do
    rows ← select (λ t.
        order_by (λ (e, f) (e', f'). t.collates e.key e'.key)
          (experiment_query (λ e. e.environment_id == environment_id) t))
    lift (collected build rows)

  -- The constraint that a row to be inserted violates: the checks come first, then the unique index,
  -- then the references.
  unfoldable pub experiment_violation : ExperimentRow → Tables → Option SqlError
  unfolding first_where is_experiment key_check name_check
  experiment_violation e t =
      if not (key_check e.key && name_check e.name && key_check e.metric_key)
      then some check_violation
      else if is_some (first_where (is_experiment e.environment_id e.key) t.experiments)
      then some unique_violation
      else if not (
          is_some (first_where (λ (v : EnvironmentRow). v.id == e.environment_id) t.environments)
          && is_some (first_where (λ (f : FlagRow). f.id == e.flag_id) t.flags))
      then some foreign_key_violation
      else none

  unfoldable pub insert_experiment : ExperimentRow → Statement (Unit {0})
  unfolding experiment_violation
  insert_experiment e now t = elim (experiment_violation e t) [
    | some violation ↦ err violation
    | none ↦ ok (
      tt,
      record t {
        experiments = record e { id = t.next_id } ∷ t.experiments;
        next_id = t.next_id + 1;
      },
    )
  ]

  -- The columns that are inserted, and the defaults of the others.
  unfoldable pub draft_row : ℕ → ℕ → Text → Text → Option Text → Text → Text → ExperimentRow
  unfolding state_as_str
  draft_row environment_id flag_id key name description metric_key control_variant = record {
    id = 0;
    environment_id = environment_id;
    flag_id = flag_id;
    key = key;
    name = name;
    description = description;
    metric_key = metric_key;
    control_variant = control_variant;
    state = state_as_str draft;
    started_at = none;
    stopped_at = none;
    version = pos 1;
  }

  unfoldable pub create_experiment :
      ℕ → ℕ → Text → Text → Option Text → Text → Text → Exec StorageError Experiment
  unfolding insert_experiment draft_row write find_experiment text ◌>>=◌
  create_experiment environment_id flag_id key name description metric_key control_variant = do
    write (text "experiment") key (
        insert_experiment
          (draft_row environment_id flag_id key name description metric_key control_variant))
    find_experiment environment_id key

  -- `UPDATE experiments SET .. WHERE ..` with the row that it writes, which gives `rows_affected() == 0`.
  unfoldable pub update_experiments :
      (ExperimentRow → Bool) → (ℕ → ExperimentRow → ExperimentRow) → Statement Bool
  unfolding update_where rows_where written
  update_experiments p f now t =
      and_then (update_where p (λ e. written (f now e)) t.experiments)
        λ es. ok (is_nil (rows_where p t.experiments), record t { experiments = es })

  unfoldable pub rename_experiment : ℕ → Text → Option Text → Option (Option Text) → Statement Bool
  unfolding update_experiments is_experiment patched
  rename_experiment environment_id key name description =
      update_experiments (is_experiment environment_id key) (λ now e. record e {
        name = unwrap_or name e.name;
        description = patched description e.description;
      })

  unfoldable pub update_experiment :
      ℕ → Text → Option Text → Option (Option Text) → Exec StorageError Experiment
  unfolding rename_experiment write find_experiment raise text ◌>>=◌
  update_experiment environment_id key name description = do
    unchanged ←
        write (text "experiment") key (rename_experiment environment_id key name description)
    if unchanged then raise (not_found (text "experiment")) else find_experiment environment_id key

  unfoldable pub move_experiment : ℕ → Text → ExperimentState → ExperimentState → Statement Bool
  unfolding update_experiments is_experiment moved state_as_str
  move_experiment environment_id key from to =
      update_experiments
        (λ e. is_experiment environment_id key e && text_eq e.state (state_as_str from))
        (λ now e. moved now to e)

  -- Nothing changed: the experiment is missing, or its state is not the one that is needed.
  unfoldable pub refuse : {A : Type 0} → ℕ → Text → Text → Exec StorageError A
  unfolding find_experiment state_as_str raise ◌>>=◌
  refuse environment_id key needed = do
    current ← find_experiment environment_id key
    raise (wrong_state (text "experiment") key (state_as_str current.state) needed)

  unfoldable pub transition :
      ℕ → Text → ExperimentState → ExperimentState → Exec StorageError Experiment
  unfolding move_experiment execute find_experiment refuse state_as_str ◌>>=◌
  transition environment_id key from to = do
    unmoved ← execute (move_experiment environment_id key from to)
    if unmoved
        then refuse environment_id key (state_as_str from)
        else find_experiment environment_id key

  unfoldable pub start_experiment : ℕ → Text → Exec StorageError Experiment
  unfolding transition
  start_experiment environment_id key = transition environment_id key draft running

  unfoldable pub stop_experiment : ℕ → Text → Exec StorageError Experiment
  unfolding transition
  stop_experiment environment_id key = transition environment_id key running stopped

  abbrev spec_of : ExperimentRow × FlagRow → ExperimentSpec
  spec_of (e, f) = record {
    key = e.key;
    flag_key = f.key;
    metric_key = e.metric_key;
    control_variant = e.control_variant;
    version = e.version;
  }

  unfoldable pub load_running_experiments : ℕ → Exec StorageError (List ExperimentSpec)
  unfolding experiment_query order_by select pure text ◌>>=◌
  load_running_experiments environment_id = do
    rows ← select (λ t.
        order_by (λ (e, f) (e', f'). t.collates e.key e'.key)
          (experiment_query
            (λ e. e.environment_id == environment_id && text_eq e.state (text "running")) t))
    pure (map spec_of rows)
