-- ===== src/Api/Cache/Persistence.antt =====
-- How long crates/api/src/cache.rs serves an environment's snapshot.
use flagforge.Prelude.{
  ℕ, ◌≡◌, refl, ◌⊎◌, none, some, List, [], ◌∷◌, ◌==◌, ==_iff, if◌then◌else◌, Result, ok, err, arith,
  Option-cases, Bool-cases, Result-cases, ap, sym, inl, inr,
}
use flagforge.Extern.{Extern}
use flagforge.Core.Snapshot.{EnvironmentSnapshot}
use flagforge.Api.Cache.{
  not_found, failed, LoadError, find, remove, SnapshotCache, value_at, store, slot, get_start,
  get_locked, refresh_locked, Loads, Step, asked, looked_up, got, refreshed,
}

find-remove :
    {V : Type 0} (key k : ℕ) (entries : List (ℕ × V))
    → find key (remove k entries) ≡ (if key == k then none else find key entries)
unfolding find remove
find-remove key k [] = ground arith
find-remove key k ((j, v) ∷ entries) = ground (arith, find-remove key k entries)

module _ ⦃x : Extern⦄ where
  -- The environment has a slot with the snapshot in it.
  abbrev pub Serves : ℕ → EnvironmentSnapshot → SnapshotCache → Type 0
  Serves env s c = (address : ℕ) × (find env c.slots ≡ some address) × (value_at c address ≡ some s)

  -- The step is a refresh that loaded the snapshot.
  abbrev pub Loaded :
      {loads : Loads} {s t : SnapshotCache × List (ℕ × ℕ)}
      → EnvironmentSnapshot
      → Step loads s t
      → Type 0
  Loaded fresh (refreshed c h i e address (ok s) _ _) = s ≡ fresh
  Loaded fresh _ = ⊥

  -- The step is a refresh of the environment that found it gone.
  abbrev pub FoundGone :
      {loads : Loads} {s t : SnapshotCache × List (ℕ × ℕ)} → ℕ → Step loads s t → Type 0
  FoundGone env (refreshed c h i e address (err not_found) _ _) = e ≡ env
  FoundGone env _ = ⊥

  get_start-Serves :
      (env e : ℕ) (s : EnvironmentSnapshot) (c : SnapshotCache)
      → Serves env s c
      → Serves env s (get_start c e).1
  unfolding get_start slot find
  get_start-Serves env e s c (a, there, value) = elim (Option-cases (find e c.slots)) [
    | inr (address, found) ↦ rw (found, slot) (a, there, value)
    | inl missing ↦ rw (missing, slot) (a, kept missing, value)
  ]
    where
      kept : find e c.slots ≡ none → find env ((e, c.next) ∷ c.slots) ≡ some a
      kept missing = elim (Bool-cases (env == e)) [
        | inl same ↦
            let e' : env ≡ e = (==_iff env e).0 same in
            cc (ap (λ k. find k c.slots) e', there, missing)
        | inr apart ↦ ground (arith, apart, there)
      ]

  -- A load that `get` waited for is stored only where no snapshot is.
  stored-Serves :
      (env address : ℕ) (s fresh : EnvironmentSnapshot) (c : SnapshotCache)
      → value_at c address ≡ none
      → Serves env s c
      → Serves env s (store c address fresh)
  unfolding find
  stored-Serves env address s fresh c missing (a, there, value) = elim (Bool-cases (a == address)) [
    | inl same ↦
        let e : a ≡ address = (==_iff a address).0 same in
        absurd (cc (ap (value_at c) e, value, missing))
    | inr apart ↦ (a, there, ground (arith, apart, value))
  ]

  get_locked-Serves :
      (env address : ℕ) (s : EnvironmentSnapshot) (loaded : Result EnvironmentSnapshot LoadError)
      (c : SnapshotCache)
      → Serves env s c
      → Serves env s (get_locked c address loaded).1
  unfolding get_locked
  get_locked-Serves env address s loaded c v = elim (Option-cases (value_at c address)) [
    | inr (s', there) ↦ rw (there, get_locked) v
    | inl missing ↦ elim (Result-cases loaded) [
      | inl (fresh, came) ↦
          rw (missing, came, get_locked) (stored-Serves env address s fresh c missing v)
      | inr (e, failed') ↦ rw (missing, failed', get_locked) v
    ]
  ]

  -- A refresh stores in its slot, whichever environments have it.
  refreshed-Serves :
      (env address : ℕ) (s fresh : EnvironmentSnapshot) (c : SnapshotCache)
      → Serves env s c
      → Serves env s (store c address fresh) ⊎ Serves env fresh (store c address fresh)
  unfolding find
  refreshed-Serves env address s fresh c (a, there, value) = elim (Bool-cases (a == address)) [
    | inl same ↦ inr (a, there, ground (arith, same))
    | inr apart ↦ inl (a, there, ground (arith, apart, value))
  ]

  gone : (env : ℕ) (c : SnapshotCache) → find env (remove env c.slots) ≡ none
  gone env c = ground (arith, find-remove env env c.slots)

  -- A step leaves the snapshot in the slot of an environment as it is, unless it is a refresh that
  -- loaded another, which is then the one in the slot, or a refresh of the environment that found
  -- it gone, which leaves the environment without a slot: a failed refresh and any `get` leave it
  -- served.
  pub Step-Serves :
      {loads : Loads} {s t : SnapshotCache × List (ℕ × ℕ)} (env : ℕ)
      (snapshot : EnvironmentSnapshot) (step : Step loads s t)
      → Serves env snapshot s.0
      → Serves env snapshot t.0
        ⊎ ((fresh : EnvironmentSnapshot) × Loaded fresh step × Serves env fresh t.0)
        ⊎ (FoundGone env step × (find env t.0.slots ≡ none))
  unfolding refresh_locked
  Step-Serves env s (asked c h e) v = inl (get_start-Serves env e s c v)
  Step-Serves env s (looked_up c h e address found) v = inl v
  Step-Serves env s (got c h i e address loaded _ _) v =
      inl (get_locked-Serves env address s loaded c v)
  Step-Serves env s (refreshed c h i e address (ok fresh) _ _) v =
      elim (refreshed-Serves env address s fresh c v) [
        | inl kept ↦ inl kept
        | inr changed ↦ inr (inl (fresh, refl, changed))
      ]
  Step-Serves env s (refreshed c h i e address (err (failed m)) _ _) v = inl v
  Step-Serves env s (refreshed c h i e address (err not_found) _ _) v =
      elim (Bool-cases (env == e)) [
        | inl same ↦
            let here : e ≡ env = sym ((==_iff env e).0 same) in
            inr (inr (here, rw (here) (gone env c)))
        | inr apart ↦ inl (v.0, ground (arith, find-remove env e c.slots, apart, v.1), v.2)
      ]
