-- ===== src/Tests/Storage.antt =====
-- The storage layer on a small database.
use mathlib.Core.List.{Memᴰ}
use flagforge.Prelude.{ℕ, false, ◌≡◌, refl, ◌∙◌, sym, ◌↔◌, Option, none, some, List, [], ◌∷◌, ok}
use flagforge.Prelude.Int.{ℤ, pos}
use flagforge.Text.{Text, text}
use flagforge.Storage.Models.{
  admin, client, stopped, parse_role, role_as_str, parse_scope, scope_as_str, parse_state,
  state_as_str, as_str_roundtrip,
}
use flagforge.Storage.Tables.{ExperimentRow, ConfigRow}
use flagforge.Storage.Experiments.Histories.{
  Write, start, stop, perform_all, Came, perform_all-Came,
}
use flagforge.Storage.Experiments.Counters.{ingest_counters, running_experiment}
use flagforge.Storage.Experiments.Counters.Cells.{delta_total}
use flagforge.Storage.Experiments.Counters.Conservation.{Counted, ingest_counters-Counted}
use flagforge.Storage.Flags.Configs.{upsert}
use flagforge.Storage.Flags.Configs.Versions.{upsert_all, upsert_once}
use flagforge.Tests.Toy.{toy}
use flagforge.Tests.Database.{database, cta, checkout_config, at_noon, shown, shown_cell}

as_str_roundtrip_example :
    ((parse_role (text "admin") ≡ some admin) ↔ (text "admin" ≡ role_as_str admin))
    × ((parse_scope (text "admin") ≡ some client) ↔ (text "admin" ≡ scope_as_str client))
    × ((parse_state (text "admin") ≡ some stopped) ↔ (text "admin" ≡ state_as_str stopped))
as_str_roundtrip_example = as_str_roundtrip (text "admin") admin client stopped

-- The experiment, stopped at 20; the start that follows finds it stopped.
abbrev stop_then_start : List (ℕ × Write)
stop_then_start = (20, stop 2 (text "cta")) ∷ (21, start 2 (text "cta")) ∷ []

abbrev stopped_cta : ExperimentRow
stopped_cta = record cta { state = text "stopped"; stopped_at = some 20; version = pos 3 }

perform_all-Came_example : Came database stopped_cta
unfolding perform_all flagforge.Text.text_eq
perform_all-Came_example = perform_all-Came stop_then_start database stopped_cta (Memᴰ.head refl)

alone : (a b : ExperimentRow) → Memᴰ a (cta ∷ []) → Memᴰ b (cta ∷ []) → a.id ≡ b.id → a ≡ b
alone a b (Memᴰ.head e) (Memᴰ.head e') h = e ∙ sym e'
alone a b (Memᴰ.head e) (Memᴰ.tail m) h = elim m [ ]
alone a b (Memᴰ.tail m) k h = elim m [ ]

ingest_counters-Counted_example :
    Counted 5 shown_cell
      (delta_total some shown_cell (shown ∷ shown ∷ []))
      (at_noon database)
      (ingest_counters some 2 (shown ∷ shown ∷ []) (at_noon database))
unfolding running_experiment flagforge.Text.text_eq
ingest_counters-Counted_example =
    ingest_counters-Counted some 2 (shown ∷ shown ∷ []) shown_cell cta (at_noon database) alone refl

-- One caller turns the flag off, another edits it, and a third still works from version 4.
abbrev turned_off : ConfigRow
turned_off = record checkout_config { enabled = false }

abbrev between : List (ℕ × ConfigRow × Option ℤ)
between = (14, checkout_config, none) ∷ []

upsert_once_example :
    upsert checkout_config (some (pos 4)) 15 (
      upsert_all between
        (record database { flag_configs = record turned_off { version = pos 5 } ∷ [] }))
    ≡ ok (
      none,
      upsert_all between
          (record database { flag_configs = record turned_off { version = pos 5 } ∷ [] }),
    )
unfolding flagforge.Storage.Rows.first_where flagforge.Storage.Flags.Configs.is_config upsert
upsert_once_example =
    upsert_once turned_off (pos 4) 13 database
      (record database { flag_configs = record turned_off { version = pos 5 } ∷ [] })
      checkout_config (record turned_off { version = pos 5 }) between checkout_config 15 refl refl
      refl refl
