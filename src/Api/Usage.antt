-- ===== src/Api/Usage.antt =====
-- crates/api/src/auth/usage.rs: when the use of a key is worth writing. Instants are natural numbers,
-- as are the keys; the map is an association list. The entry is locked for the whole of a call, so
-- that calls are steps.
pub mod Spacing
use flagforge.Prelude.{
  ℕ, ◌+◌, ◌-◌, ◌*◌, ◌≤◌, ◌<◌, ◌≡◌, refl, Bool, true, false, Option, none, some, List, [], ◌∷◌,
  arith, ltb, ◌==◌, ==_iff, Option-cases, Bool-cases, inl, inr, ◌⊎◌, ◌∙◌, sym, ap, subst,
  if◌then◌else◌,
}

abbrev pub record_interval : ℕ
record_interval = 60 * 1000000000

abbrev pub Written : Type 0
Written = List (ℕ × ℕ)

pub record UsageTracker : Type 0 where
  pub last_written : Written
  pub interval : ℕ

unfoldable pub new : ℕ → UsageTracker
new interval = record { last_written = []; interval = interval }

unfoldable pub find_written : ℕ → Written → Option ℕ
find_written key [] = none
find_written key ((k, at) ∷ entries) = if key == k then some at else find_written key entries

-- `slot.insert`, whether the entry is there or not.
unfoldable pub set_written : ℕ → ℕ → Written → Written
set_written key now [] = (key, now) ∷ []
set_written key now ((k, at) ∷ entries) =
    if key == k then (k, now) ∷ entries else (k, at) ∷ set_written key now entries

abbrev pub claim : UsageTracker → ℕ → ℕ → UsageTracker
claim tracker key now = record tracker { last_written = set_written key now tracker.last_written }

-- `duration_since` is zero for an instant that is later.
unfoldable pub should_record_at : UsageTracker → ℕ → ℕ → Bool × UsageTracker
unfolding find_written
should_record_at tracker key now = elim (find_written key tracker.last_written) [
  | none ↦ (true, claim tracker key now)
  | some at ↦
      if ltb (now - at) tracker.interval then (false, tracker) else (true, claim tracker key now)
]
