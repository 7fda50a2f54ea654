-- ===== src/Tests/Database.antt =====
-- A small database: a project with two environments, a flag that is configured in one of them, and an
-- experiment on the flag.
use flagforge.Prelude.{true, false, none, some, [], ◌∷◌}
use flagforge.Prelude.Int.{pos}
use flagforge.Text.{text}
use flagforge.Core.Flag.{fixed}
use flagforge.Storage.Models.{owner, exposure}
use flagforge.Storage.Tables.{
  json, ProjectRow, EnvironmentRow, FlagRow, ConfigRow, ExperimentRow, Tables,
}
use flagforge.Storage.Exec.{World}
use flagforge.Storage.Experiments.Counters.{CounterDelta, Cell}
use flagforge.Api.Auth.{AuthUser}
use flagforge.Tests.Toy.{toy, on_off}

abbrev pub shop : ProjectRow
shop = record {
  id = 1;
  organization_id = 50;
  key = text "shop";
  name = text "Shop";
  description = none;
}

abbrev pub production : EnvironmentRow
production = record {
  id = 2;
  project_id = 1;
  key = text "production";
  name = text "Production";
  salt = text "salt";
  is_production = true;
  created_at = 0;
}

abbrev pub checkout_row : FlagRow
checkout_row = record {
  id = 3;
  project_id = 1;
  key = text "checkout";
  name = text "Checkout";
  description = none;
  variants = json on_off;
  archived = false;
}

abbrev pub checkout_config : ConfigRow
checkout_config = record {
  flag_id = 3;
  environment_id = 2;
  enabled = true;
  off_variant = text "off";
  fallthrough = json (fixed (text "on"));
  rules = json [];
  version = pos 4;
}

abbrev pub cta : ExperimentRow
cta = record {
  id = 5;
  environment_id = 2;
  flag_id = 3;
  key = text "cta";
  name = text "Call to action";
  description = none;
  metric_key = text "order";
  control_variant = text "off";
  state = text "running";
  started_at = some 7;
  stopped_at = none;
  version = pos 2;
}

abbrev pub database : Tables
database = record {
  projects = shop ∷ [];
  environments = production ∷ [];
  flags = checkout_row ∷ [];
  flag_configs = checkout_config ∷ [];
  segments = [];
  experiments = cta ∷ [];
  experiment_counters = [];
  audit_log = [];
  next_id = 6;
  collates = λ s t. true;
}

-- The same database before it had a flag.
abbrev pub empty : Tables
empty = record database { flags = []; flag_configs = []; experiments = [] }

abbrev pub at_noon : Tables → World
at_noon t = record { tables = t; now = 12; outages = []; refreshed = [] }

abbrev pub olivia : AuthUser
olivia = record {
  user_id = 9;
  organization_id = 50;
  email = text "olivia@example.com";
  role = owner;
}

abbrev pub shown : CounterDelta
shown = record {
  experiment_key = text "cta";
  variant = text "on";
  kind = exposure;
  at = 12;
  count = 5;
}

abbrev pub shown_cell : Cell
shown_cell = record { key = text "cta"; variant = text "on"; kind = exposure; hour = 12 }
