-- ===== src/Api/Cache.antt =====
-- crates/api/src/cache.rs: one snapshot for each environment, loaded on first use. A slot is an
-- address, since a task keeps the slot that it looked up after the slot has left the map. What a task
-- does while it holds a slot's lock is one step, for no other task writes the slot meanwhile.
pub mod Isolation
pub mod Persistence
use flagforge.Prelude.{
  ℕ, ◌+◌, Option, none, some, List, [], ◌∷◌, ◌==◌, if◌then◌else◌, Result, ok, err, get_elem?, ◌≡◌,
}
use flagforge.Text.{Text}
use flagforge.Extern.{Extern}
use flagforge.Core.Snapshot.{EnvironmentSnapshot}

-- How a load fails: the environment is gone, or anything else.
pub data LoadError : Type 0 where
  not_found : LoadError
  failed : (message : Text) → LoadError

-- Entries under numbers, the addresses of slots or the identifiers of environments.
module _ {V : Type 0} where
  unfoldable pub find : ℕ → List (ℕ × V) → Option V
  find key [] = none
  find key ((k, v) ∷ entries) = if key == k then some v else find key entries

  unfoldable pub remove : ℕ → List (ℕ × V) → List (ℕ × V)
  remove key [] = []
  remove key ((k, v) ∷ entries) =
      let rest = remove key entries in if key == k then rest else (k, v) ∷ rest

module _ ⦃x : Extern⦄ where
  -- The slots by environment, what was stored last in each slot, and the next free address.
  pub record SnapshotCache : Type 0 where
    pub slots : List (ℕ × ℕ)
    pub values : List (ℕ × EnvironmentSnapshot)
    pub next : ℕ

  unfoldable pub new : SnapshotCache
  new = record { slots = []; values = []; next = 0 }

  abbrev pub value_at : SnapshotCache → ℕ → Option EnvironmentSnapshot
  value_at cache address = find address cache.values

  abbrev pub store : SnapshotCache → ℕ → EnvironmentSnapshot → SnapshotCache
  store cache address snapshot = record cache { values = (address, snapshot) ∷ cache.values }

  -- `entry(..).or_default()`.
  unfoldable pub slot : SnapshotCache → ℕ → ℕ × SnapshotCache
  slot cache environment_id = elim (find environment_id cache.slots) [
    | some address ↦ (address, cache)
    | none ↦ (
      cache.next,
      record cache { slots = (environment_id, cache.next) ∷ cache.slots; next = cache.next + 1 },
    )
  ]

  -- `get` up to its wait for the lock: the slot, and the snapshot if there is one.
  unfoldable pub get_start : SnapshotCache → ℕ → (ℕ × Option EnvironmentSnapshot) × SnapshotCache
  unfolding slot find
  get_start cache environment_id =
      let (address, cache') = slot cache environment_id in
      ((address, value_at cache' address), cache')

  -- `get` with the lock, which looks again and takes the outcome of a load only if it must.
  unfoldable pub get_locked :
      SnapshotCache
      → ℕ
      → Result EnvironmentSnapshot LoadError
      → Result EnvironmentSnapshot LoadError × SnapshotCache
  unfolding find
  get_locked cache address loaded = elim (value_at cache address) [
    | some snapshot ↦ (ok snapshot, cache)
    | none ↦ elim loaded [
      | ok snapshot ↦ (ok snapshot, store cache address snapshot)
      | err e ↦ (err e, cache)
    ]
  ]

  -- `refresh` with the lock of the slot that it looked up.
  unfoldable pub refresh_locked :
      SnapshotCache → ℕ → ℕ → Result EnvironmentSnapshot LoadError → SnapshotCache
  unfolding remove
  refresh_locked cache environment_id address (ok fresh) = store cache address fresh
  refresh_locked cache environment_id address (err not_found) = record cache {
    slots = remove environment_id cache.slots;
  }
  refresh_locked cache environment_id address (err (failed message)) = cache

  -- What a load of an environment may come to.
  abbrev pub Loads : Type 1
  Loads = ℕ → Result EnvironmentSnapshot LoadError → Type 0

  -- The cache, and the environments with their slots that tasks looked up so far.
  pub data Step (loads : Loads)
      : SnapshotCache × List (ℕ × ℕ) → SnapshotCache × List (ℕ × ℕ) → Type 0 where
    asked :
        (c : SnapshotCache) (h : List (ℕ × ℕ)) (env : ℕ)
        → Step loads (c, h) ((get_start c env).1, (env, (get_start c env).0.0) ∷ h)
    looked_up :
        (c : SnapshotCache) (h : List (ℕ × ℕ)) (env address : ℕ)
        → find env c.slots ≡ some address
        → Step loads (c, h) (c, (env, address) ∷ h)
    got :
        (c : SnapshotCache) (h : List (ℕ × ℕ)) (i env address : ℕ)
        (loaded : Result EnvironmentSnapshot LoadError)
        → get_elem? h i ≡ some (env, address)
        → loads env loaded
        → Step loads (c, h) ((get_locked c address loaded).1, h)
    refreshed :
        (c : SnapshotCache) (h : List (ℕ × ℕ)) (i env address : ℕ)
        (loaded : Result EnvironmentSnapshot LoadError)
        → get_elem? h i ≡ some (env, address)
        → loads env loaded
        → Step loads (c, h) (refresh_locked c env address loaded, h)

  pub data Reach (loads : Loads) : SnapshotCache × List (ℕ × ℕ) → Type 0 where
    start : Reach loads (new, [])
    next : {s t : SnapshotCache × List (ℕ × ℕ)} → Reach loads s → Step loads s t → Reach loads t
