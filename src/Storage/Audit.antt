-- ===== src/Storage/Audit.antt =====
-- crates/storage/src/audit.rs: what the handlers record. The JSON of the resource before and after is
-- left out, and so are the tables of organizations and users that an entry refers to.
use flagforge.Prelude.{ℕ, Option, ◌∷◌, ok}
use flagforge.Text.{Text}
use flagforge.Extern.{Extern}
use flagforge.Storage.Error.{StorageError}
use flagforge.Storage.Tables.{AuditRow}
use flagforge.Storage.Exec.{Exec, Statement, execute}

-- `NewAuditEntry::new` and `in_environment`.
unfoldable pub entry : ℕ → Option ℕ × Text → Text → Text → Text → Option ℕ → AuditRow
entry organization_id (user, email) action resource_type resource_id environment_id = record {
  organization_id = organization_id;
  actor_user_id = user;
  actor_email = email;
  action = action;
  resource_type = resource_type;
  resource_id = resource_id;
  environment_id = environment_id;
}

abbrev pub append_entry : ⦃x : Extern⦄ → AuditRow → Statement (Unit {0})
append_entry row now t = ok (tt, record t { audit_log = row ∷ t.audit_log })

unfoldable pub record_entry : ⦃x : Extern⦄ → AuditRow → Exec StorageError (Unit {0})
unfolding execute
record_entry row = execute (append_entry row)
