-- ===== src/TextMap.antt =====
-- `BTreeMap<String, V>` as an association list in the order of its keys, and `BTreeSet<String>` as
-- a list of texts. `insert` replaces the value of a key that is there.
pub mod Sorted
use flagforge.Prelude.{
  ◌≡◌, refl, Bool, Option, none, some, List, [], ◌∷◌, map, arith, if◌then◌else◌, any,
}
use flagforge.Text.{Text, text_eq, text_lt, text_eq_iff}

abbrev pub TextMap {ℓ} : Type ℓ → Type ℓ
TextMap V = List (Text × V)

abbrev pub TextSet : Type 0
TextSet = List Text

unfoldable pub set_contains : TextSet → Text → Bool
set_contains s k = any (text_eq k) s

module _ {ℓ} {V : Type ℓ} where
  unfoldable pub lookup : Text → TextMap V → Option V
  lookup k [] = none
  lookup k ((j, v) ∷ m) = if text_eq k j then some v else lookup k m

  unfoldable pub insert : Text → V → TextMap V → TextMap V
  insert k v [] = (k, v) ∷ []
  insert k v ((j, w) ∷ m) =
      if text_eq k j
      then (k, v) ∷ m
      else if text_lt k j
      then (k, v) ∷ (j, w) ∷ m
      else (j, w) ∷ insert k v m

  -- `collect()`: the pairs are inserted in turn.
  unfoldable pub collect : TextMap V → TextMap V → TextMap V
  collect m [] = m
  collect m ((k, v) ∷ kvs) = collect (insert k v m) kvs

  unfoldable pub values : TextMap V → List V
  values [] = []
  values ((k, v) ∷ m) = v ∷ values m

  abbrev pub keys : TextMap V → List Text
  keys [] = []
  keys ((k, v) ∷ m) = k ∷ keys m

  pub lookup-insert :
      (k j : Text) (v : V) (m : TextMap V)
      → lookup j (insert k v m) ≡ (if text_eq j k then some v else lookup j m)
  unfolding lookup insert
  lookup-insert k j v [] = refl
  lookup-insert k j v ((i, w) ∷ m) =
      ground (arith, text_eq_iff k i, text_eq_iff j i, text_eq_iff j k, lookup-insert k j v m)
