-- ===== src/Api/Usage/Spacing.antt =====
-- How often crates/api/src/auth/usage.rs lets the use of a key be recorded.
use flagforge.Prelude.{
  ℕ, ◌+◌, ◌-◌, ◌≤◌, ◌<◌, ◌≡◌, refl, Bool, true, false, Option, none, some, List, [], ◌∷◌, arith,
  ltb, ◌==◌, ==_iff, Option-cases, Bool-cases, inl, inr, ◌∙◌, sym, ap, subst, if◌then◌else◌,
}
use flagforge.Api.Usage.{Written, UsageTracker, new, find_written, set_written, should_record_at}

-- The instants at which the use of a key is recorded.
unfoldable pub recorded_at : ℕ → UsageTracker → List (ℕ × ℕ) → List ℕ
recorded_at key tracker [] = []
recorded_at key tracker ((k, now) ∷ calls) =
    let (answer, tracker') = should_record_at tracker k now in
    let later = recorded_at key tracker' calls in
    if key == k then (if answer then now ∷ later else later) else later

-- Each instant is at least an interval after the one before it.
abbrev pub Spaced : ℕ → Option ℕ → List ℕ → Type 0
Spaced interval before [] = Unit
Spaced interval none (now ∷ later) = Spaced interval (some now) later
Spaced interval (some at) (now ∷ later) = (at + interval ≤ now) × Spaced interval (some now) later

find_written-set_written :
    (key k now : ℕ) (entries : Written)
    → find_written key (set_written k now entries)
      ≡ (if key == k then some now else find_written key entries)
unfolding find_written set_written
find_written-set_written key k now [] = refl
find_written-set_written key k now ((j, at) ∷ entries) =
    ground (arith, find_written-set_written key k now entries)

should_record_at-other :
    (key k now : ℕ) (tracker : UsageTracker)
    → (key == k) ≡ false
    → find_written key (should_record_at tracker k now).1.last_written
      ≡ find_written key tracker.last_written
unfolding should_record_at
should_record_at-other key k now tracker apart =
    ground (arith, find_written-set_written key k now tracker.last_written)

should_record_at-interval :
    (k now : ℕ) (tracker : UsageTracker)
    → (should_record_at tracker k now).1.interval ≡ tracker.interval
unfolding should_record_at
should_record_at-interval k now tracker = ground arith

-- A call that records is an interval after the last one that did, and counts as the last one from
-- then on; any other leaves the tracker as it is.
data Answered (tracker : UsageTracker) (k now : ℕ) (result : Bool × UsageTracker) : Type 0 where
  yes' :
      result.0 ≡ true
      → find_written k result.1.last_written ≡ some now
      → ((at : ℕ) → find_written k tracker.last_written ≡ some at → at + tracker.interval ≤ now)
      → Answered tracker k now result
  no' : result.0 ≡ false → result.1 ≡ tracker → Answered tracker k now result

should_record_at_lem :
    (tracker : UsageTracker) (k now : ℕ)
    → 0 < tracker.interval
    → Answered tracker k now (should_record_at tracker k now)
unfolding should_record_at
should_record_at_lem tracker k now pos = elim (Option-cases (find_written k tracker.last_written)) [
  | inl fresh ↦
      rw (fresh, should_record_at)
        (yes' refl (ground (arith, find_written-set_written k k now tracker.last_written))
          (λ at e. cc (e, fresh)))
  | inr (at, found) ↦ elim (Bool-cases (ltb (now - at) tracker.interval)) [
    | inl early ↦ rw (found, should_record_at) (rw early (no' refl refl))
    | inr late ↦
        rw (found, should_record_at)
          (rw late (
            yes' refl (ground (arith, find_written-set_written k k now tracker.last_written))
              (λ at' e. ground (arith, e, found, late))))
  ]
]

Spaced-cons :
    (interval : ℕ) (before : Option ℕ) (now : ℕ) (later : List ℕ)
    → ((at : ℕ) → before ≡ some at → at + interval ≤ now)
    → Spaced interval (some now) later
    → Spaced interval before (now ∷ later)
Spaced-cons interval none now later gap s = s
Spaced-cons interval (some at) now later gap s = (gap at refl, s)

-- What a call adds to the instants at which the use of a key is recorded.
abbrev extend : Bool → Bool → ℕ → List ℕ → List ℕ
extend own answer now later = if own then (if answer then now ∷ later else later) else later

recorded_at-Spaced :
    (interval key : ℕ) (tracker : UsageTracker) (calls : List (ℕ × ℕ)) (before : Option ℕ)
    → 0 < interval
    → tracker.interval ≡ interval
    → find_written key tracker.last_written ≡ before
    → Spaced interval before (recorded_at key tracker calls)
unfolding recorded_at
recorded_at-Spaced interval key tracker [] before pos i e = tt
recorded_at-Spaced interval key tracker ((k, now) ∷ calls) before pos i e =
    let result = should_record_at tracker k now in
    let keeps : result.1.interval ≡ interval = should_record_at-interval k now tracker ∙ i in
    let later = recorded_at key result.1 calls in
    elim (Bool-cases (key == k)) [
      | inr apart ↦
          subst (λ own. Spaced interval before (extend own result.0 now later)) (sym apart)
            (recorded_at-Spaced interval key result.1 calls before pos keeps
              (should_record_at-other key k now tracker apart ∙ e))
      | inl same ↦
          let k' : key ≡ k = (==_iff key k).0 same in
          subst (λ own. Spaced interval before (extend own result.0 now later)) (sym same)
            (elim (should_record_at_lem tracker k now (omega (arith, i, pos))) [
              | yes' answer found gap ↦
                  subst (λ a. Spaced interval before (if a then now ∷ later else later))
                    (sym answer)
                    (Spaced-cons interval before now later
                      (λ at h. omega (
                        arith,
                        i,
                        gap at (ap (λ j. find_written j tracker.last_written) (sym k') ∙ e ∙ h),
                      ))
                      (recorded_at-Spaced interval key result.1 calls (some now) pos keeps
                        (ap (λ j. find_written j result.1.last_written) k' ∙ found)))
              | no' answer unchanged ↦
                  subst (λ a. Spaced interval before (if a then now ∷ later else later))
                    (sym answer)
                    (recorded_at-Spaced interval key result.1 calls before pos keeps
                      (ap (λ t. find_written key t.last_written) unchanged ∙ e))
            ])
    ]

-- Whatever calls come in whatever order, a new tracker with an interval above 0 records the uses
-- of a key at instants that are at least the interval apart.
pub recorded_at-new :
    (interval key : ℕ) (calls : List (ℕ × ℕ))
    → 0 < interval
    → Spaced interval none (recorded_at key (new interval) calls)
unfolding find_written new
recorded_at-new interval key calls pos =
    recorded_at-Spaced interval key (new interval) calls none pos refl refl
