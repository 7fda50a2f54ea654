-- ===== src/Api/Flags/Sound.antt =====
-- What the tables of flags and configurations must be for the engine to evaluate every flag.
use mathlib.Core.List.{Memᴰ}
use flagforge.Prelude.{◌<◌, ◌≡◌, List, ok}
use flagforge.Extern.{Extern}
use flagforge.Core.Flag.{Variant, Distribution, Rule}
use flagforge.Core.Validate.{validate}
use flagforge.Storage.Tables.{Tables, json, EnvironmentRow, FlagRow, ConfigRow}
use flagforge.Api.Flags.{candidate}

module _ ⦃x : Extern⦄ where
  -- A configuration of a flag stands in an environment of the flag's project, its columns can be read,
  -- and the flag that they make passes the validator.
  pub record Served (environments : List EnvironmentRow) (f : FlagRow) (c : ConfigRow)
      : Type 0 where
    pub environment : EnvironmentRow
    pub there : Memᴰ environment environments
    pub here : environment.id ≡ c.environment_id
    pub project : environment.project_id ≡ f.project_id
    pub variants : List Variant
    pub fallthrough : Distribution
    pub rules : List Rule
    pub reads :
        (f.variants ≡ json variants) × (c.fallthrough ≡ json fallthrough) × (c.rules ≡ json rules)
    pub valid : validate (candidate f.key variants c.off_variant fallthrough rules) ≡ ok tt

  -- Ids are those given out, primary keys are unique, and every configuration can be served.
  pub record Sound (t : Tables) : Type 0 where
    pub flag_ids : (f g : FlagRow) → Memᴰ f t.flags → Memᴰ g t.flags → f.id ≡ g.id → f ≡ g
    pub flag_given : (f : FlagRow) → Memᴰ f t.flags → f.id < t.next_id
    pub config_keys :
        (c d : ConfigRow)
        → Memᴰ c t.flag_configs
        → Memᴰ d t.flag_configs
        → c.flag_id ≡ d.flag_id
        → c.environment_id ≡ d.environment_id
        → c ≡ d
    pub config_given : (c : ConfigRow) → Memᴰ c t.flag_configs → c.flag_id < t.next_id
    pub served :
        (f : FlagRow) (c : ConfigRow)
        → Memᴰ f t.flags
        → Memᴰ c t.flag_configs
        → c.flag_id ≡ f.id
        → Served t.environments f c
