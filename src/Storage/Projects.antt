-- ===== src/Storage/Projects.antt =====
-- crates/storage/src/projects.rs: projects and their environments. Deletions go by cascade to what
-- refers to the rows that are deleted.
use flagforge.Prelude.{ℕ, Bool, ◌&&◌, ◌||◌, List, ◌==◌, if◌then◌else◌}
use flagforge.Text.{Text, text, text_eq}
use flagforge.Extern.{Extern}
use flagforge.Storage.Error.{StorageError}
use flagforge.Storage.Tables.{ProjectRow, EnvironmentRow}
use flagforge.Storage.Rows.{rows_where, first_where, order_by}
use flagforge.Storage.Exec.{Exec, ◌>>=◌, select, found}

module _ ⦃x : Extern⦄ where
  unfoldable pub find_project : ℕ → Text → Exec StorageError ProjectRow
  unfolding first_where select found text ◌>>=◌
  find_project organization_id key = do
    row ← select (λ t.
        first_where (λ p. p.organization_id == organization_id && text_eq p.key key) t.projects)
    found (text "project") row

  unfoldable pub find_environment : ℕ → Text → Exec StorageError EnvironmentRow
  unfolding first_where select found text ◌>>=◌
  find_environment project_id key = do
    row ←
        select
          (λ t. first_where (λ e. e.project_id == project_id && text_eq e.key key) t.environments)
    found (text "environment") row

  -- `ORDER BY is_production, key`, where false comes before true.
  abbrev pub listed_before : (Text → Text → Bool) → EnvironmentRow → EnvironmentRow → Bool
  listed_before collates e e' =
      if e.is_production
      then e'.is_production && collates e.key e'.key
      else e'.is_production || collates e.key e'.key

  unfoldable pub list_environments : ℕ → Exec StorageError (List EnvironmentRow)
  unfolding rows_where order_by select
  list_environments project_id = select (λ t.
      order_by (listed_before t.collates)
        (rows_where (λ e. e.project_id == project_id) t.environments))
