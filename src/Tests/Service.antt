-- ===== src/Tests/Service.antt =====
-- The service of flags on a small database: a flag is created, and then configured.
use flagforge.Prelude.{◌≡◌, true, none, some, List, [], ◌∷◌, All, ok}
use flagforge.Prelude.Int.{pos}
use flagforge.Text.{text}
use flagforge.Core.Flag.{fixed}
use flagforge.Core.Flag as Core
use flagforge.Core.Context.{EvaluationContext}
use flagforge.Core.Engine.{is_healthy, evaluate}
use flagforge.Core.Matcher.{EvaluationEnv}
use flagforge.Core.Validate.Healthy.{Ready}
use flagforge.Storage.Flags.Configs.{environment_rows}
use flagforge.Storage.Snapshot.{evaluation_flags}
use flagforge.Api.Auth.{AuthUser}
use flagforge.Api.Flags.Sound.{Sound}
use flagforge.Api.Flags.Service.{Request, creates, configures, serve_all, serve_all-Sound}
use flagforge.Api.Flags.Served.{serve_all-Healthy}
use flagforge.Tests.Toy.{toy}
use flagforge.Tests.Database.{empty, at_noon, olivia}

abbrev requests : List (AuthUser × Request)
requests =
    (
      olivia,
      creates (text "shop") (record {
        key = text "checkout";
        name = text "Checkout";
        description = none;
        variants = none;
        off_variant = none;
        fallthrough = none;
      }),
    )
    ∷ (
      olivia,
      configures (text "shop") (text "production") (text "checkout") (record {
        enabled = true;
        off_variant = text "off";
        fallthrough = fixed (text "on");
        rules = [];
        expected_version = some (pos 1);
      }),
    )
    ∷ []

empty-Sound : Sound empty
empty-Sound = record {
  flag_ids = λ f g m k h. elim m [ ];
  flag_given = λ f m. elim m [ ];
  config_keys = λ c d m k p q. elim m [ ];
  config_given = λ c m. elim m [ ];
  served = λ f c m k h. elim m [ ];
}

serve_all-Sound_example : Sound (serve_all requests (at_noon empty)).tables
serve_all-Sound_example = serve_all-Sound requests (at_noon empty) empty-Sound

serve_all-Healthy_example :
    (fs : List Core.Flag) × (evaluation_flags
        (environment_rows 2 (serve_all requests (at_noon empty)).tables)
      ≡ ok fs)
    × All
        (λ f.
          (ctx : EvaluationContext) (env : EvaluationEnv)
          → Ready ctx f.fallthrough
          → All (λ r. Ready ctx r.distribution) f.rules
          → is_healthy (evaluate f ctx env).reason ≡ true)
        fs
serve_all-Healthy_example = serve_all-Healthy requests (at_noon empty) 2 empty-Sound
