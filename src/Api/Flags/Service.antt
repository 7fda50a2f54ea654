-- ===== src/Api/Flags/Service.antt =====
-- The handlers of flags as a service: requests that are served one after another.
use flagforge.Prelude.{List, [], ◌∷◌, Result}
use flagforge.Text.{Text}
use flagforge.Extern.{Extern}
use flagforge.Storage.Tables.{Tables}
use flagforge.Storage.Exec.{World}
use flagforge.Storage.Exec.Keeps.{Ends, returns, fails}
use flagforge.Api.Error.{ApiError}
use flagforge.Api.Auth.{AuthUser}
use flagforge.Api.Flags.{
  CreateFlag, create, UpdateFlag, update, delete, UpdateConfig, update_config,
}
use flagforge.Api.Flags.Sound.{Sound}
use flagforge.Api.Flags.Handlers.{create-Sound, delete-Sound}
use flagforge.Api.Flags.Handlers.Configs.{update_config-Sound}
use flagforge.Api.Flags.Handlers.Variants.{update-Sound}

module _ ⦃x : Extern⦄ where
  pub data Request : Type 0 where
    creates : (project_key : Text) (body : CreateFlag) → Request
    updates : (project_key flag_key : Text) (body : UpdateFlag) → Request
    deletes : (project_key flag_key : Text) → Request
    configures : (project_key environment_key flag_key : Text) (body : UpdateConfig) → Request

  -- The world after a request of a caller, whatever its answer.
  unfoldable pub serve : AuthUser → Request → World → World
  unfolding create update delete update_config
  serve caller (creates p body) w = (create caller p body w).1
  serve caller (updates p f body) w = (update caller p f body w).1
  serve caller (deletes p f) w = (delete caller p f w).1
  serve caller (configures p e f body) w = (update_config caller p e f body w).1

  unfoldable pub serve_all : List (AuthUser × Request) → World → World
  unfolding serve
  serve_all [] w = w
  serve_all ((caller, request) ∷ requests) w = serve_all requests (serve caller request w)

  Ends-tables :
      {A : Type 0} {Q : A → Tables → Type 0} (o : Result A ApiError × World)
      → Ends Sound Q o
      → Sound o.1.tables
  Ends-tables o (returns p q) = p
  Ends-tables o (fails p) = p

  serve-Sound :
      (caller : AuthUser) (request : Request) (w : World)
      → Sound w.tables
      → Sound (serve caller request w).tables
  unfolding serve
  serve-Sound caller (creates p body) w s = Ends-tables _ ((create-Sound caller p body).at w s tt)
  serve-Sound caller (updates p f body) w s =
      Ends-tables _ ((update-Sound caller p f body).at w s tt)
  serve-Sound caller (deletes p f) w s = Ends-tables _ ((delete-Sound caller p f).at w s tt)
  serve-Sound caller (configures p e f body) w s =
      Ends-tables _ ((update_config-Sound caller p e f body).at w s tt)

  -- Sound tables stay sound, whatever requests on flags are served one after another, by whatever
  -- callers and with whatever outages: ids and primary keys stay unique, and every configuration
  -- of a flag stands in an environment of the flag's project and passes the validator.
  pub serve_all-Sound :
      (requests : List (AuthUser × Request)) (w : World)
      → Sound w.tables
      → Sound (serve_all requests w).tables
  unfolding serve_all
  serve_all-Sound [] w s = s
  serve_all-Sound ((caller, request) ∷ requests) w s =
      serve_all-Sound requests (serve caller request w) (serve-Sound caller request w s)
