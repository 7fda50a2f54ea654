-- ===== src/Api/Segments/Service.antt =====
-- The handlers of segments as a service: requests that are served one after another.
use flagforge.Prelude.{List, [], ◌∷◌, Result}
use flagforge.Text.{Text}
use flagforge.Extern.{Extern}
use flagforge.Storage.Tables.{Tables}
use flagforge.Storage.Exec.{World}
use flagforge.Storage.Exec.Keeps.{Ends, returns, fails}
use flagforge.Api.Error.{ApiError}
use flagforge.Api.Auth.{AuthUser}
use flagforge.Api.Segments.{CreateSegment, UpdateSegment, create, update, delete}
use flagforge.Api.Segments.Decidable.{Decidable}
use flagforge.Api.Segments.Handlers.{create-Decidable, update-Decidable, delete-Decidable}

module _ ⦃x : Extern⦄ where
  pub data Request : Type 0 where
    creates : (project_key environment_key : Text) (body : CreateSegment) → Request
    updates : (project_key environment_key segment_key : Text) (body : UpdateSegment) → Request
    deletes : (project_key environment_key segment_key : Text) → Request

  -- The world after a request of a caller, whatever its answer.
  unfoldable pub serve : AuthUser → Request → World → World
  unfolding create update delete
  serve caller (creates p e body) w = (create caller p e body w).1
  serve caller (updates p e key body) w = (update caller p e key body w).1
  serve caller (deletes p e key) w = (delete caller p e key w).1

  unfoldable pub serve_all : List (AuthUser × Request) → World → World
  unfolding serve
  serve_all [] w = w
  serve_all ((caller, request) ∷ requests) w = serve_all requests (serve caller request w)

  Ends-tables :
      {A : Type 0} {Q : A → Tables → Type 0} (o : Result A ApiError × World)
      → Ends Decidable Q o
      → Decidable o.1.tables
  Ends-tables o (returns p q) = p
  Ends-tables o (fails p) = p

  serve-Decidable :
      (caller : AuthUser) (request : Request) (w : World)
      → Decidable w.tables
      → Decidable (serve caller request w).tables
  unfolding serve
  serve-Decidable caller (creates p e body) w d =
      Ends-tables _ ((create-Decidable caller p e body).at w d tt)
  serve-Decidable caller (updates p e key body) w d =
      Ends-tables _ ((update-Decidable caller p e key body).at w d tt)
  serve-Decidable caller (deletes p e key) w d =
      Ends-tables _ ((delete-Decidable caller p e key).at w d tt)

  -- Whatever requests on segments are served one after another, by whatever callers and with
  -- whatever outages, if an environment has one segment with a key and every segment can be read
  -- and passes `validate_segment`, then that is so afterwards.
  pub serve_all-Decidable :
      (requests : List (AuthUser × Request)) (w : World)
      → Decidable w.tables
      → Decidable (serve_all requests w).tables
  unfolding serve_all
  serve_all-Decidable [] w d = d
  serve_all-Decidable ((caller, request) ∷ requests) w d =
      serve_all-Decidable requests (serve caller request w) (serve-Decidable caller request w d)
