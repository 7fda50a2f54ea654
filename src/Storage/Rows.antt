-- ===== src/Storage/Rows.antt =====
-- What the statements of SQL do to the rows of one table: `WHERE`, `ORDER BY`, `UPDATE` and `DELETE`.
-- A query that a unique index answers gives the first row that it finds.
use flagforge.Prelude.{
  ◌≡◌, refl, sym, ap, ◌∙◌, Bool, true, false, not, Option, none, some, List, [], ◌∷◌, arith,
  if◌then◌else◌, Result, ok, and_then, inl, inr, Bool-cases, subst, if_both, and_then-ok,
}
use mathlib.Core.List.{Memᴰ}
use flagforge.Storage.Error.{SqlError}

module _ {ℓ} {A : Type ℓ} where
  unfoldable pub rows_where : (A → Bool) → List A → List A
  rows_where p [] = []
  rows_where p (r ∷ rs) = let rest = rows_where p rs in if p r then r ∷ rest else rest

  unfoldable pub first_where : (A → Bool) → List A → Option A
  first_where p [] = none
  first_where p (r ∷ rs) = if p r then some r else first_where p rs

  unfoldable pub insert_by : (A → A → Bool) → A → List A → List A
  insert_by before a [] = a ∷ []
  insert_by before a (b ∷ bs) = if before a b then a ∷ b ∷ bs else b ∷ insert_by before a bs

  -- `ORDER BY`: a stable sort.
  unfoldable pub order_by : (A → A → Bool) → List A → List A
  unfolding insert_by
  order_by before [] = []
  order_by before (a ∷ as') = insert_by before a (order_by before as')

  -- `UPDATE`: a row that is refused fails the statement.
  unfoldable pub update_where :
      (A → Bool) → (A → Result A SqlError) → List A → Result (List A) SqlError
  update_where p f [] = ok []
  update_where p f (r ∷ rs) =
      let rest = update_where p f rs in
      and_then (if p r then f r else ok r) λ r'. and_then rest λ rs'. ok (r' ∷ rs')

  unfoldable pub delete_where : (A → Bool) → List A → List A
  unfolding rows_where
  delete_where p rs = rows_where (λ r. not (p r)) rs

  pub first_where-some :
      (p : A → Bool) (rs : List A) (r : A) → first_where p rs ≡ some r → Memᴰ r rs × (p r ≡ true)
  unfolding first_where
  first_where-some p [] r h = cc
  first_where-some p (s ∷ rs) r h = elim (Bool-cases (p s)) [
    | inl yes' ↦ let same : r ≡ s = ground (arith, yes') in (Memᴰ.head same, rw (same) yes')
    | inr no' ↦ let (m, e) = first_where-some p rs r (rw no' at h) in (Memᴰ.tail m, e)
  ]

  pub first_where-none :
      (p : A → Bool) (rs : List A) (r : A) → first_where p rs ≡ none → Memᴰ r rs → p r ≡ false
  unfolding first_where
  first_where-none p [] r h m = elim m [ ]
  first_where-none p (s ∷ rs) r h (Memᴰ.head e) = rw (e) (ground (arith, h))
  first_where-none p (s ∷ rs) r h (Memᴰ.tail m) = first_where-none p rs r (ground (arith, h)) m

  -- A member of a list with a head is that head or of the rest.
  cases_Memᴰ {κ} :
      (P : A → Type κ) (s r : A) (rs ss : List A)
      → P s
      → (Memᴰ r ss → Memᴰ r rs × P r)
      → Memᴰ r (s ∷ ss)
      → Memᴰ r (s ∷ rs) × P r
  cases_Memᴰ P s r rs ss p f (Memᴰ.head e) = (Memᴰ.head e, subst P (sym e) p)
  cases_Memᴰ P s r rs ss p f (Memᴰ.tail m) = let (k, q) = f m in (Memᴰ.tail k, q)

  pub rows_where-Memᴰ :
      (p : A → Bool) (rs : List A) (r : A) → Memᴰ r (rows_where p rs) → Memᴰ r rs × (p r ≡ true)
  unfolding rows_where
  rows_where-Memᴰ p [] r m = elim m [ ]
  rows_where-Memᴰ p (s ∷ rs) r m = elim (Bool-cases (p s)) [
    | inl yes' ↦
        cases_Memᴰ (λ r. p r ≡ true) s r rs (rows_where p rs) yes' (rows_where-Memᴰ p rs r)
          (rw yes' at m)
    | inr no' ↦ let (k, e) = rows_where-Memᴰ p rs r (rw no' at m) in (Memᴰ.tail k, e)
  ]

  pub rows_where-complete :
      (p : A → Bool) (rs : List A) (r : A) → Memᴰ r rs → p r ≡ true → Memᴰ r (rows_where p rs)
  unfolding rows_where
  rows_where-complete p [] r m h = elim m [ ]
  rows_where-complete p (s ∷ rs) r (Memᴰ.head e) h = rw (← e, h) (Memᴰ.head refl)
  rows_where-complete p (s ∷ rs) r (Memᴰ.tail m) h =
      if_both (Memᴰ r) (p s) (Memᴰ.tail (rows_where-complete p rs r m h))
        (rows_where-complete p rs r m h)

  update_where-cons :
      (p : A → Bool) (f : A → Result A SqlError) (r : A) (rs rs' : List A)
      → update_where p f (r ∷ rs) ≡ ok rs'
      → (s : A) × (ss : List A) × ((if p r then f r else ok r) ≡ ok s)
        × (update_where p f rs ≡ ok ss)
        × (rs' ≡ s ∷ ss)
  unfolding update_where
  update_where-cons p f r rs rs' h =
      let (s, first, h1) =
        and_then-ok (if p r then f r else ok r)
          (λ s. and_then (update_where p f rs) λ ss. ok (s ∷ ss)) rs' h in
      let (ss, rest, h2) = and_then-ok (update_where p f rs) (λ ss. ok (s ∷ ss)) rs' h1 in
      (s, ss, first, rest, cc)

  pick_Memᴰ {κ} :
      (P : A → A → Type κ) (r s r' : A) (rs ss : List A)
      → P r s
      → (Memᴰ r' ss → (q : A) × Memᴰ q rs × P q r')
      → Memᴰ r' (s ∷ ss)
      → (q : A) × Memᴰ q (r ∷ rs) × P q r'
  pick_Memᴰ P r s r' rs ss p f (Memᴰ.head e) = (r, Memᴰ.head refl, subst (P r) (sym e) p)
  pick_Memᴰ P r s r' rs ss p f (Memᴰ.tail m) = let (q, k, e) = f m in (q, Memᴰ.tail k, e)

  -- Each row after an update is a row before, changed where the condition held.
  pub update_where-Memᴰ :
      (p : A → Bool) (f : A → Result A SqlError) (rs rs' : List A) (r' : A)
      → update_where p f rs ≡ ok rs'
      → Memᴰ r' rs'
      → (r : A) × Memᴰ r rs × ((if p r then f r else ok r) ≡ ok r')
  unfolding update_where
  update_where-Memᴰ p f [] rs' r' h m = let none' : rs' ≡ [] = cc in elim (rw none' at m) [ ]
  update_where-Memᴰ p f (r ∷ rs) rs' r' h m =
      let (s, ss, first, rest, same) = update_where-cons p f r rs rs' h in
      pick_Memᴰ (λ q q'. (if p q then f q else ok q) ≡ ok q') r s r' rs ss first
        (update_where-Memᴰ p f rs ss r' rest) (rw same at m)

  -- The first row that meets a condition is changed in its place by an update that keeps the condition.
  pub first_where-update_where :
      (p q : A → Bool) (f : A → Result A SqlError) (rs rs' : List A) (r : A)
      → ((a b : A) → (if p a then f a else ok a) ≡ ok b → q b ≡ q a)
      → update_where p f rs ≡ ok rs'
      → first_where q rs ≡ some r
      → (r' : A) × (first_where q rs' ≡ some r') × ((if p r then f r else ok r) ≡ ok r')
  unfolding update_where first_where
  first_where-update_where p q f [] rs' r keeps h e = cc
  first_where-update_where p q f (a ∷ rs) rs' r keeps h e =
      let (b, bs, first, rest, same) = update_where-cons p f a rs rs' h in
      elim (Bool-cases (q a)) [
        | inl yes' ↦
            let it : a ≡ r = ground (arith, yes') in
            let here : first_where q (b ∷ bs) ≡ some b = ground (arith, keeps a b first, yes') in
            (b, ap (first_where q) same ∙ here, rw (← it) first)
        | inr no' ↦
            let (r', at, came) = first_where-update_where p q f rs bs r keeps rest (rw no' at e) in
            let there : first_where q (b ∷ bs) ≡ some r' =
              ground (arith, keeps a b first, no', at) in
            (r', ap (first_where q) same ∙ there, came)
      ]

  insert_by-Memᴰ :
      (before : A → A → Bool) (a b : A) (rs : List A)
      → Memᴰ a (b ∷ rs)
      → Memᴰ a (insert_by before b rs)
  unfolding insert_by
  insert_by-Memᴰ before a b [] m = m
  insert_by-Memᴰ before a b (r ∷ rs) m = elim (Bool-cases (before b r)) [
    | inl yes' ↦ rw (yes') m
    | inr no' ↦ rw (no') (elim m [
      | Memᴰ.head e ↦ Memᴰ.tail (insert_by-Memᴰ before a b rs (Memᴰ.head e))
      | Memᴰ.tail (Memᴰ.head e) ↦ Memᴰ.head e
      | Memᴰ.tail (Memᴰ.tail k) ↦ Memᴰ.tail (insert_by-Memᴰ before a b rs (Memᴰ.tail k))
    ])
  ]

  pub order_by-Memᴰ :
      (before : A → A → Bool) (a : A) (rs : List A) → Memᴰ a rs → Memᴰ a (order_by before rs)
  unfolding order_by
  order_by-Memᴰ before a [] m = m
  order_by-Memᴰ before a (r ∷ rs) (Memᴰ.head e) =
      insert_by-Memᴰ before a r (order_by before rs) (Memᴰ.head e)
  order_by-Memᴰ before a (r ∷ rs) (Memᴰ.tail m) =
      insert_by-Memᴰ before a r (order_by before rs) (Memᴰ.tail (order_by-Memᴰ before a rs m))

  insert_by-from :
      (before : A → A → Bool) (a b : A) (rs : List A)
      → Memᴰ a (insert_by before b rs)
      → Memᴰ a (b ∷ rs)
  unfolding insert_by
  insert_by-from before a b [] m = m
  insert_by-from before a b (r ∷ rs) m = elim (Bool-cases (before b r)) [
    | inl yes' ↦ rw yes' at m
    | inr no' ↦ elim (rw no' at m) [
      | Memᴰ.head e ↦ Memᴰ.tail (Memᴰ.head e)
      | Memᴰ.tail k ↦ elim (insert_by-from before a b rs k) [
        | Memᴰ.head e ↦ Memᴰ.head e
        | Memᴰ.tail l ↦ Memᴰ.tail (Memᴰ.tail l)
      ]
    ]
  ]

  pub order_by-from :
      (before : A → A → Bool) (a : A) (rs : List A) → Memᴰ a (order_by before rs) → Memᴰ a rs
  unfolding order_by
  order_by-from before a [] m = m
  order_by-from before a (r ∷ rs) m = elim (insert_by-from before a r (order_by before rs) m) [
    | Memᴰ.head e ↦ Memᴰ.head e
    | Memᴰ.tail k ↦ Memᴰ.tail (order_by-from before a rs k)
  ]
