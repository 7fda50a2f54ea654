-- ===== src/Tests/Server.antt =====
-- Experiments, the throttle of usage writes and the snapshot cache at concrete inputs.
use flagforge.Prelude.{
  ok, err, ◌⊎◌, ℕ, ◌-◌, ◌+◌, ◌*◌, ◌/◌, ◌≡◌, refl, arith, Option, none, [], ◌∷◌, ltb, leb, List,
}
use flagforge.Text.{text}
use flagforge.Core.Experiment.{Floats, VariantCounts, results}
use flagforge.Core.Experiment.Verdicts.{IsControl, Verdicts, results-Verdicts}
use flagforge.Core.Snapshot.{EnvironmentSnapshot}
use flagforge.Api.Usage.{new}
use flagforge.Api.Cache
use flagforge.Api.Cache.{
  SnapshotCache, LoadError, failed, Loads, Step, Reach, start, next, asked, got, refreshed,
  get_start, get_locked, refresh_locked,
}
use flagforge.Api.Cache.Isolation.{LoadsOwn, get_locked-environment}
use flagforge.Api.Cache.Persistence.{Serves, Loaded, FoundGone, Step-Serves}
use flagforge.Tests.Toy.{toy, snapshot}
use flagforge.Api.Usage.Spacing.{Spaced, recorded_at, recorded_at-new}

-- Natural numbers in the place of `f64`.
instance abbrev naturals : Floats
naturals = record {
  F64 = ℕ;
  lit = λ m e. m;
  add = ◌+◌;
  sub = ◌-◌;
  mul = ◌*◌;
  div = ◌/◌;
  neg = λ v. v;
  abs = λ v. v;
  sqrt = λ v. v;
  exp = λ v. v;
  clamp = λ v lo hi. v;
  lt = ltb;
  le = leb;
  of_u64 = λ n. n;
  sqrt_2 = 1;
}

abbrev counts : List VariantCounts
counts =
    record { variant = text "off"; exposures = 10; conversions = 2 }
    ∷ record { variant = text "on"; exposures = 12; conversions = 5 }
    ∷ []

results-Verdicts_example :
    (control : Option VariantCounts) × IsControl (text "off") counts control
    × Verdicts (text "off") control counts (results (text "off") counts)
results-Verdicts_example = results-Verdicts (text "off") counts

abbrev calls : List (ℕ × ℕ)
calls = (1, 5) ∷ (2, 6) ∷ (1, 30) ∷ (1, 65) ∷ []

recorded_at-new_example : Spaced 60 none (recorded_at 1 (new 60) calls)
recorded_at-new_example = recorded_at-new 60 1 calls (omega arith)

recorded_at_tests : recorded_at 1 (new 60) calls ≡ 5 ∷ 65 ∷ []
unfolding recorded_at new flagforge.Api.Usage.should_record_at flagforge.Api.Usage.find_written
    flagforge.Api.Usage.set_written
recorded_at_tests = refl

-- A database whose snapshots are of the environments that they are loaded for.
abbrev database : Loads
database env (ok s) = s.environment_id ≡ env
database env (err e) = Unit

database-own : LoadsOwn database
database-own env s own = own

-- Environment 1 is asked for and loaded.
abbrev asked_cache : SnapshotCache
asked_cache = (get_start Cache.new 1).1

abbrev loaded_cache : SnapshotCache
loaded_cache = (get_locked asked_cache 0 (ok snapshot)).1

asked-Reach : Reach database (asked_cache, (1, 0) ∷ [])
unfolding Cache.new get_start Cache.slot Cache.find
asked-Reach = next start (asked Cache.new [] 1)

loaded-Reach : Reach database (loaded_cache, (1, 0) ∷ [])
loaded-Reach = next asked-Reach (got asked_cache ((1, 0) ∷ []) 0 1 0 (ok snapshot) refl refl)

get_locked-environment_example : snapshot.environment_id ≡ 1
unfolding Cache.new get_start Cache.slot Cache.find get_locked
get_locked-environment_example =
    get_locked-environment database database-own 0 1 0 (ok snapshot) snapshot asked-Reach refl refl
      refl

-- A refresh of environment 1 that fails.
abbrev failing : Step database (loaded_cache, (1, 0) ∷ []) (loaded_cache, (1, 0) ∷ [])
unfolding refresh_locked
failing = refreshed loaded_cache ((1, 0) ∷ []) 0 1 0 (err (failed (text "down"))) refl tt

Step-Serves_example :
    Serves 1 snapshot loaded_cache
    ⊎ ((fresh : EnvironmentSnapshot) × Loaded fresh failing × Serves 1 fresh loaded_cache)
    ⊎ (FoundGone 1 failing × (Cache.find 1 loaded_cache.slots ≡ none))
unfolding Cache.new get_start Cache.slot Cache.find get_locked
Step-Serves_example = Step-Serves 1 snapshot failing (0, refl, refl)
