-- ===== src/TextMap/Sorted.antt =====
-- The keys of a map stay in strictly ascending order.
use flagforge.Prelude.{◌≡◌, true, List, [], ◌∷◌, arith}
use flagforge.Text.{Text, text_lt, text_eq_iff}
use flagforge.Text.Order.{text_lt_trans, text_lt_total}
use flagforge.TextMap.{TextMap, insert, collect, keys}

-- `k` comes before all keys of the list.
abbrev pub Before : Text → List Text → Type 0
Before k [] = Unit
Before k (j ∷ ks) = (text_lt k j ≡ true) × Before k ks

abbrev pub Ascending : List Text → Type 0
Ascending [] = Unit
Ascending (k ∷ ks) = Before k ks × Ascending ks

Before-trans : (i k : Text) (ks : List Text) → text_lt i k ≡ true → Before k ks → Before i ks
Before-trans i k [] h b = tt
Before-trans i k (j ∷ ks) h b = (text_lt_trans i k j h b.0, Before-trans i k ks h b.1)

module _ {ℓ} {V : Type ℓ} where
  Before-insert :
      (i k : Text) (v : V) (m : TextMap V)
      → text_lt i k ≡ true
      → Before i (keys m)
      → Before i (keys (insert k v m))
  unfolding insert
  Before-insert i k v [] h b = (h, tt)
  Before-insert i k v ((j, w) ∷ m) h b = ground (arith, Before-insert i k v m h)

  pub insert-Ascending :
      (k : Text) (v : V) (m : TextMap V) → Ascending (keys m) → Ascending (keys (insert k v m))
  unfolding insert
  insert-Ascending k v [] a = (tt, tt)
  insert-Ascending k v ((j, w) ∷ m) a = ground (
    arith,
    text_eq_iff k j,
    text_lt_total k j,
    Before-trans k j (keys m),
    Before-insert j k v m,
    insert-Ascending k v m,
  )

  pub collect-Ascending :
      (m kvs : TextMap V) → Ascending (keys m) → Ascending (keys (collect m kvs))
  unfolding collect
  collect-Ascending m [] a = a
  collect-Ascending m ((k, v) ∷ kvs) a =
      collect-Ascending (insert k v m) kvs (insert-Ascending k v m a)
