-- ===== src/Core/Matcher/Cache.antt =====
-- The cache of compiled patterns in crates/core/src/matcher.rs. A thread looks a pattern up under the
-- read lock, compiles it outside of any lock, and stores it under the write lock, so that other
-- threads may write in between. A poisoned lock is `none`. The map is never iterated over.
use flagforge.Prelude.{
  ℕ, ◌+◌, ◌≤◌, ◌≡◌, refl, Option, none, some, [], ◌∷◌, arith, ltb, if◌then◌else◌, length, ok_of,
  Option-cases, inl, inr, ◌>>=◌,
}
use flagforge.Text.{Text, text_eq_iff}
use flagforge.TextMap.{TextMap, lookup, insert, lookup-insert}
use flagforge.Extern.{Extern}
use flagforge.Core.Matcher.{compiled}

abbrev pub regex_cache_capacity : ℕ
regex_cache_capacity = 1024

length-insert-le {ℓ} :
    {V : Type ℓ} (k : Text) (v : V) (m : TextMap V) → length (insert k v m) ≤ length m + 1
unfolding insert
length-insert-le k v [] = omega arith
length-insert-le k v ((j, w) ∷ m) = ground (arith, length-insert-le k v m)

module _ ⦃x : Extern⦄ where
  abbrev pub RegexCache : Type 0
  RegexCache = TextMap (Option x.Regex)

  -- The entry of a pattern, under the read lock.
  unfoldable pub read_entry : Option RegexCache → Text → Option (Option x.Regex)
  unfolding lookup
  read_entry none pattern = none
  read_entry (some cache) pattern = lookup pattern cache

  -- What the write lock does to the cache, if there is room.
  unfoldable pub store_entry : RegexCache → Text → Option x.Regex → RegexCache
  unfolding insert
  store_entry cache pattern entry =
      if ltb (length cache) regex_cache_capacity then insert pattern entry cache else cache

  -- `compiled` with the cache that it reads and the one that it finds at its write, which it returns
  -- as it leaves it.
  unfoldable pub compiled_cached :
      Option RegexCache → Option RegexCache → Text → Option x.Regex × Option RegexCache
  compiled_cached read write pattern = elim (read_entry read pattern) [
    | some entry ↦ (entry, write)
    | none ↦
        let entry = ok_of (x.regex_new pattern) in
        (entry, write >>= λ cache. some (store_entry cache pattern entry))
  ]

  -- Every entry is what its pattern compiles to, and there is at most so much of it.
  pub record IsCoherent (cache : RegexCache) : Type 0 where
    pub entries :
        (p : Text) (entry : Option x.Regex) → lookup p cache ≡ some entry → entry ≡ compiled p
    pub bounded : length cache ≤ regex_cache_capacity

  store_entry-IsCoherent :
      (cache : RegexCache) (pattern : Text) (entry : Option x.Regex)
      → entry ≡ compiled pattern
      → IsCoherent cache
      → IsCoherent (store_entry cache pattern entry)
  unfolding store_entry
  store_entry-IsCoherent cache pattern entry e c = record {
    entries = λ p r h.
        ground (arith, lookup-insert pattern p entry cache, text_eq_iff p pattern, c.entries p r);
    bounded = ground (arith, length-insert-le pattern entry cache);
  }

  -- A lock that is not poisoned guards a coherent cache.
  abbrev pub Guards : Option RegexCache → Type 0
  Guards none = Unit
  Guards (some cache) = IsCoherent cache

  read_entry-compiled :
      (read : Option RegexCache) (pattern : Text) (entry : Option x.Regex)
      → Guards read
      → read_entry read pattern ≡ some entry
      → entry ≡ compiled pattern
  unfolding read_entry
  read_entry-compiled none pattern entry g h = cc
  read_entry-compiled (some cache) pattern entry g h = g.entries pattern entry h

  write-Guards :
      (write : Option RegexCache) (pattern : Text)
      → Guards write
      → Guards (write >>= λ cache. some (store_entry cache pattern (compiled pattern)))
  write-Guards none pattern g = tt
  write-Guards (some cache) pattern g =
      store_entry-IsCoherent cache pattern (compiled pattern) refl g

  -- If the caches that `compiled` finds at its read and at its write are coherent and within their
  -- capacity, or their locks are poisoned, it answers as the compiler does and leaves such a
  -- cache.
  pub compiled_cached-compiled :
      (read write : Option RegexCache) (pattern : Text)
      → Guards read
      → Guards write
      → ((compiled_cached read write pattern).0 ≡ compiled pattern)
        × Guards (compiled_cached read write pattern).1
  unfolding compiled_cached compiled
  compiled_cached-compiled read write pattern gr gw =
      elim (Option-cases (read_entry read pattern)) [
        | inl missed ↦ rw (missed, compiled_cached) (refl, write-Guards write pattern gw)
        | inr (entry, found) ↦
            rw (found, compiled_cached) (read_entry-compiled read pattern entry gr found, gw)
      ]
