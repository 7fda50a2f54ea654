-- ===== src/Api/Cache/Isolation.antt =====
-- Whose snapshots crates/api/src/cache.rs serves to an environment.
use flagforge.Prelude.{
  ℕ, ◌+◌, ◌<◌, ◌≡◌, ◌∙◌, sym, refl, some, List, [], ◌∷◌, ◌==◌, ==_iff, if◌then◌else◌, Result, ok,
  err, arith, All, get_elem?, All-get_elem?, Option-cases, Result-cases, inl, inr, Bool-cases, ◌⊎◌,
}
use flagforge.Extern.{Extern}
use flagforge.Core.Snapshot.{EnvironmentSnapshot}
use flagforge.Api.Cache.{
  LoadError, not_found, failed, find, remove, SnapshotCache, new, store, value_at, slot, get_start,
  get_locked, refresh_locked, Loads, Reach, asked, looked_up, got, refreshed, start, next,
}

All-find :
    {V : Type 0} (P : ℕ × V → Type 0) (key : ℕ) (v : V) (entries : List (ℕ × V))
    → All P entries
    → find key entries ≡ some v
    → P (key, v)
unfolding find
All-find P key v [] a h = cc
All-find P key v ((k, w) ∷ entries) a h = elim (Bool-cases (key == k)) [
  | inl same ↦
      let k' : key ≡ k = (==_iff key k).0 same in
      let w' : w ≡ v = ground (arith, h, same) in rw (k', ← w') a.0
  | inr apart ↦ All-find P key v entries a.1 (ground (arith, h, apart))
]

All-remove :
    {V : Type 0} (P : ℕ × V → Type 0) (key : ℕ) (entries : List (ℕ × V))
    → All P entries
    → All P (remove key entries)
unfolding remove
All-remove P key [] a = tt
All-remove P key ((k, w) ∷ entries) a = ground (arith, All-remove P key entries)

module _ ⦃x : Extern⦄ where
  -- Each address below the next free one belongs to one environment.
  pub record IsIsolated (c : SnapshotCache) (h : List (ℕ × ℕ)) : Type 0 where
    pub owner : ℕ → ℕ
    pub slots : All (λ e. (owner e.1 ≡ e.0) × (e.1 < c.next)) c.slots
    pub handed : All (λ e. (owner e.1 ≡ e.0) × (e.1 < c.next)) h
    pub values : All (λ e. (e.1.environment_id ≡ owner e.0) × (e.0 < c.next)) c.values

  owned-fresh :
      (owner : ℕ → ℕ) (n env : ℕ) (es : List (ℕ × ℕ))
      → All (λ e. (owner e.1 ≡ e.0) × (e.1 < n)) es
      → All (λ e. ((if e.1 == n then env else owner e.1) ≡ e.0) × (e.1 < n + 1)) es
  owned-fresh owner n env [] a = tt
  owned-fresh owner n env (e ∷ es) a = (ground (arith, a.0), owned-fresh owner n env es a.1)

  valued-fresh :
      (owner : ℕ → ℕ) (n env : ℕ) (es : List (ℕ × EnvironmentSnapshot))
      → All (λ e. (e.1.environment_id ≡ owner e.0) × (e.0 < n)) es
      → All (λ e. (e.1.environment_id ≡ (if e.0 == n then env else owner e.0)) × (e.0 < n + 1)) es
  valued-fresh owner n env [] a = tt
  valued-fresh owner n env (e ∷ es) a = (ground (arith, a.0), valued-fresh owner n env es a.1)

  store-IsIsolated :
      (c : SnapshotCache) (h : List (ℕ × ℕ)) (i env address : ℕ) (s : EnvironmentSnapshot)
      → get_elem? h i ≡ some (env, address)
      → s.environment_id ≡ env
      → IsIsolated c h
      → IsIsolated (store c address s) h
  store-IsIsolated c h i env address s e l w =
      let mine =
        All-get_elem? (λ e. (w.owner e.1 ≡ e.0) × (e.1 < c.next)) h i (env, address) w.handed e in
      record {
        owner = w.owner;
        slots = w.slots;
        handed = w.handed;
        values = ((l ∙ sym mine.0, mine.1), w.values);
      }

  -- A load of an environment gives no other environment's snapshot.
  abbrev pub LoadsOwn : Loads → Type 0
  LoadsOwn loads = (env : ℕ) (s : EnvironmentSnapshot) → loads env (ok s) → s.environment_id ≡ env

  handed-IsIsolated :
      (c : SnapshotCache) (h : List (ℕ × ℕ)) (env address : ℕ)
      → find env c.slots ≡ some address
      → IsIsolated c h
      → IsIsolated c ((env, address) ∷ h)
  handed-IsIsolated c h env address e w =
      let mine =
        All-find (λ e. (w.owner e.1 ≡ e.0) × (e.1 < c.next)) env address c.slots w.slots e in
      record { owner = w.owner; slots = w.slots; handed = (mine, w.handed); values = w.values }

  get_start-IsIsolated :
      (c : SnapshotCache) (h : List (ℕ × ℕ)) (env : ℕ)
      → IsIsolated c h
      → IsIsolated (get_start c env).1 ((env, (get_start c env).0.0) ∷ h)
  unfolding get_start slot
  get_start-IsIsolated c h env w = elim (Option-cases (find env c.slots)) [
    | inr (address, there) ↦ rw (there, slot) (handed-IsIsolated c h env address there w)
    | inl missing ↦
        let own : (if c.next == c.next then env else w.owner c.next) ≡ env = ground arith in
        let slots = owned-fresh w.owner c.next env c.slots w.slots in
        rw (missing, slot)
          (record {
            owner = λ a. if a == c.next then env else w.owner a;
            slots = ((own, omega arith), slots);
            handed = ((own, omega arith), owned-fresh w.owner c.next env h w.handed);
            values = valued-fresh w.owner c.next env c.values w.values;
          })
  ]

  module _ (loads : Loads) (loads_own : LoadsOwn loads) where
    get_locked-IsIsolated :
        (c : SnapshotCache) (h : List (ℕ × ℕ)) (i env address : ℕ)
        (loaded : Result EnvironmentSnapshot LoadError)
        → get_elem? h i ≡ some (env, address)
        → loads env loaded
        → IsIsolated c h
        → IsIsolated (get_locked c address loaded).1 h
    unfolding get_locked
    get_locked-IsIsolated c h i env address (ok s) e l w =
        elim (Option-cases (value_at c address)) [
          | inl missing ↦
              rw (missing, get_locked)
                (store-IsIsolated c h i env address s e (loads_own env s l) w)
          | inr (s', there) ↦ rw (there, get_locked) w
        ]
    get_locked-IsIsolated c h i env address (err _) e l w =
        elim (Option-cases (value_at c address)) [
          | inl missing ↦ rw (missing, get_locked) w
          | inr (s', there) ↦ rw (there, get_locked) w
        ]

    refresh_locked-IsIsolated :
        (c : SnapshotCache) (h : List (ℕ × ℕ)) (i env address : ℕ)
        (loaded : Result EnvironmentSnapshot LoadError)
        → get_elem? h i ≡ some (env, address)
        → loads env loaded
        → IsIsolated c h
        → IsIsolated (refresh_locked c env address loaded) h
    unfolding refresh_locked
    refresh_locked-IsIsolated c h i env address (ok s) e l w =
        store-IsIsolated c h i env address s e (loads_own env s l) w
    refresh_locked-IsIsolated c h i env address (err not_found) e l w = record {
      owner = w.owner;
      slots = All-remove (λ e. (w.owner e.1 ≡ e.0) × (e.1 < c.next)) env c.slots w.slots;
      handed = w.handed;
      values = w.values;
    }
    refresh_locked-IsIsolated c h i env address (err (failed message)) e l w = w

    Reach-IsIsolated : {s : SnapshotCache × List (ℕ × ℕ)} → Reach loads s → IsIsolated s.0 s.1
    unfolding new
    Reach-IsIsolated start = record { owner = λ a. a; slots = tt; handed = tt; values = tt }
    Reach-IsIsolated (next r (asked c h env)) = get_start-IsIsolated c h env (Reach-IsIsolated r)
    Reach-IsIsolated (next r (looked_up c h env address e)) =
        handed-IsIsolated c h env address e (Reach-IsIsolated r)
    Reach-IsIsolated (next r (got c h i env address loaded e l)) =
        get_locked-IsIsolated c h i env address loaded e l (Reach-IsIsolated r)
    Reach-IsIsolated (next r (refreshed c h i env address loaded e l)) =
        refresh_locked-IsIsolated c h i env address loaded e l (Reach-IsIsolated r)

    value_at-owned :
        (c : SnapshotCache) (h : List (ℕ × ℕ)) (i env address : ℕ) (s : EnvironmentSnapshot)
        → get_elem? h i ≡ some (env, address)
        → IsIsolated c h
        → value_at c address ≡ some s
        → s.environment_id ≡ env
    value_at-owned c h i env address s e w there =
        let mine =
          All-get_elem? (λ e. (w.owner e.1 ≡ e.0) × (e.1 < c.next)) h i (env, address) w.handed e in
        let theirs =
          All-find (λ e. (e.1.environment_id ≡ w.owner e.0) × (e.0 < c.next)) address s c.values
            w.values there in
        theirs.0 ∙ mine.0

    get_locked-ok :
        (c : SnapshotCache) (address : ℕ) (loaded : Result EnvironmentSnapshot LoadError)
        (s : EnvironmentSnapshot)
        → (get_locked c address loaded).0 ≡ ok s
        → (value_at c address ≡ some s) ⊎ (loaded ≡ ok s)
    unfolding get_locked
    get_locked-ok c address loaded s h = elim (Option-cases (value_at c address)) [
      | inl missing ↦ elim (Result-cases loaded) [
        | inl (s', came) ↦ inr (ground (arith, h, missing, came))
        | inr (e, failed') ↦ ground (arith, h, missing, failed')
      ]
      | inr (s', there) ↦ inl (ground (arith, h, there))
    ]

    -- If no load of an environment gives another's snapshot, then after any interleaving of
    -- requests and refreshes what a request gets under the lock of the slot that was looked up for
    -- an environment is that environment's snapshot, even if the slot has left the map since.
    pub get_locked-environment :
        {c : SnapshotCache} {h : List (ℕ × ℕ)} (i env address : ℕ)
        (loaded : Result EnvironmentSnapshot LoadError) (s : EnvironmentSnapshot)
        → Reach loads (c, h)
        → get_elem? h i ≡ some (env, address)
        → loads env loaded
        → (get_locked c address loaded).0 ≡ ok s
        → s.environment_id ≡ env
    get_locked-environment {c} {h} i env address loaded s r e l answer =
        elim (get_locked-ok c address loaded s answer) [
          | inl there ↦ value_at-owned c h i env address s e (Reach-IsIsolated r) there
          | inr came ↦ loads_own env s (rw (← came) l)
        ]

    -- If no load of an environment gives another's snapshot, then after any interleaving of
    -- requests and refreshes a request that finds a snapshot before the lock finds its own
    -- environment's.
    pub get_start-environment :
        {c : SnapshotCache} {h : List (ℕ × ℕ)} (env : ℕ) (s : EnvironmentSnapshot)
        → Reach loads (c, h)
        → (get_start c env).0.1 ≡ some s
        → s.environment_id ≡ env
    unfolding get_start
    get_start-environment {c} {h} env s r there =
        value_at-owned (get_start c env).1 ((env, (get_start c env).0.0) ∷ h) 0 env
          (get_start c env).0.0 s refl (Reach-IsIsolated (next r (asked c h env))) there
