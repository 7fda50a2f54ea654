-- ===== src/Tests/Audience.antt =====
-- The service of segments on a small database: a segment is created, and then patched.
use flagforge.Prelude.{none, some, List, [], ◌∷◌}
use flagforge.Prelude.Int.{pos}
use flagforge.Text.{text}
use flagforge.Api.Auth.{AuthUser}
use flagforge.Api.Segments.Decidable.{Decidable}
use flagforge.Api.Segments.Service.{Request, creates, updates, serve_all, serve_all-Decidable}
use flagforge.Tests.Toy.{toy}
use flagforge.Tests.Database.{empty, at_noon, olivia}

abbrev requests : List (AuthUser × Request)
requests =
    (
      olivia,
      creates (text "shop") (text "production")
          (record { key = text "beta"; name = text "Beta"; description = none }),
    )
    ∷ (
      olivia,
      updates (text "shop") (text "production") (text "beta") (record {
        patch = record {
          name = none;
          description = none;
          included = some (text "ada" ∷ []);
          excluded = none;
          rules = none;
        };
        expected_version = some (pos 1);
      }),
    )
    ∷ []

empty-Decidable : Decidable empty
empty-Decidable = record { keys = λ s s' m m' i k. elim m [ ]; passes = λ s m. elim m [ ] }

serve_all-Decidable_example : Decidable (serve_all requests (at_noon empty)).tables
serve_all-Decidable_example = serve_all-Decidable requests (at_noon empty) empty-Decidable
