-- ===== src/Storage/Exec/Keeps.antt =====
-- Invariants of runs: what holds of the tables before holds after, whether the run returns or fails,
-- and what is known of the value that is returned. There is a rule for each way to build a run.
use flagforge.Prelude.{
  if_both, ℕ, ◌≡◌, refl, sym, ◌∙◌, Bool, true, false, Result, ok, err, if◌then◌else◌, Option, none,
  some,
}
use flagforge.Text.{Text}
use flagforge.Extern.{Extern}
use flagforge.Storage.Tables.{Tables}
use flagforge.Storage.Error.{SqlError, StorageError, database, from_write, or_not_found}
use flagforge.Storage.Exec.{
  World, Statement, Exec, settle, statement, map_err, map_err_of, next_outage, later_outages, pure,
  raise, lift, bind_of, ◌>>=◌, select, execute, write, found, rolled_back, transaction,
}

module _ ⦃x : Extern⦄ where
  -- How a run ends: the invariant, and on success what is known of the value.
  pub data Ends {E A : Type 0} (P : Tables → Type 0) (Q : A → Tables → Type 0)
      : Result A E × World → Type 0 where
    returns : {a : A} {w : World} → P w.tables → Q a w.tables → Ends P Q (ok a, w)
    fails : {e : E} {w : World} → P w.tables → Ends P Q (err e, w)

  -- The run from tables with `P` and `R` ends with `P`, and with `Q` of its value.
  pub record Meets {E A : Type 0} (P R : Tables → Type 0) (m : Exec E A) (Q : A → Tables → Type 0)
      : Type 0 where
    pub at : (w : World) → P w.tables → R w.tables → Ends P Q (m w)

  -- What a statement must do for its run to keep `P`: nothing where it fails.
  abbrev pub Settles :
      {A : Type 0}
      → (Tables → Type 0)
      → (A → Tables → Type 0)
      → Result (A × Tables) SqlError
      → Type 0
  Settles P Q (ok (a, t)) = P t × Q a t
  Settles P Q (err e) = Unit

  some_of :
      {A : Type 0} (entity : Text) (o : Option A) (a : A)
      → or_not_found entity o ≡ ok a
      → o ≡ some a
  unfolding or_not_found
  some_of entity none a e = cc
  some_of entity (some b) a e = cc

  -- A statement that is refused unless its rows may be there.
  pub Settles-guard :
      {A : Type 0} (P : Tables → Type 0) (Q : A → Tables → Type 0) (b : Bool)
      (r : Result (A × Tables) SqlError) (e : SqlError)
      → Settles P Q r
      → Settles P Q (if b then r else err e)
  Settles-guard P Q true r e h = h
  Settles-guard P Q false r e h = tt

  module _ {P : Tables → Type 0} where
    pub Meets-pure :
        {E A : Type 0} {R : Tables → Type 0} {Q : A → Tables → Type 0} (a : A)
        → ((t : Tables) → P t → R t → Q a t)
        → Meets P R (pure {E = E} a) Q
    unfolding pure
    Meets-pure a q = record { at = λ w p r. returns p (q w.tables p r) }

    pub Meets-raise :
        {E A : Type 0} {R : Tables → Type 0} {Q : A → Tables → Type 0} (e : E)
        → Meets P R (raise {A = A} e) Q
    unfolding raise
    Meets-raise e = record { at = λ w p r. fails p }

    Ends-lift :
        {E A : Type 0} {Q : A → Tables → Type 0} (v : Result A E) (w : World)
        → P w.tables
        → ((a : A) → v ≡ ok a → Q a w.tables)
        → Ends P Q (v, w)
    Ends-lift (ok a) w p q = returns p (q a refl)
    Ends-lift (err e) w p q = fails p

    pub Meets-lift :
        {E A : Type 0} {R : Tables → Type 0} {Q : A → Tables → Type 0} (v : Result A E)
        → ((a : A) (t : Tables) → P t → R t → v ≡ ok a → Q a t)
        → Meets P R (lift v) Q
    unfolding lift
    Meets-lift v q = record { at = λ w p r. Ends-lift v w p (λ a e. q a w.tables p r e) }

    Ends-bind :
        {E A B : Type 0} {Q : A → Tables → Type 0} {S : B → Tables → Type 0} (f : A → Exec E B)
        (o : Result A E × World)
        → Ends P Q o
        → ((a : A) → Meets P (Q a) (f a) S)
        → Ends P S (bind_of f o)
    Ends-bind f o (returns p q) k = (k _).at _ p q
    Ends-bind f o (fails p) k = fails p

    pub Meets-bind :
        {E A B : Type 0} {R : Tables → Type 0} {Q : A → Tables → Type 0} {S : B → Tables → Type 0}
        {m : Exec E A} {f : A → Exec E B}
        → Meets P R m Q
        → ((a : A) → Meets P (Q a) (f a) S)
        → Meets P R (m >>= f) S
    unfolding ◌>>=◌
    Meets-bind {m = m} {f = f} hm hf = record { at = λ w p r. Ends-bind f (m w) (hm.at w p r) hf }

    Ends-settle :
        {A : Type 0} {Q : A → Tables → Type 0} (w : World) (r : Result (A × Tables) SqlError)
        → P w.tables
        → Settles P Q r
        → Ends P Q (settle w r)
    Ends-settle w (ok (a, t)) p s = returns s.0 s.1
    Ends-settle w (err e) p s = fails p

    Ends-map_err :
        {E F A : Type 0} {Q : A → Tables → Type 0} (g : E → F) (o : Result A E × World)
        → Ends P Q o
        → Ends P Q (map_err_of g o)
    Ends-map_err g o (returns p q) = returns p q
    Ends-map_err g o (fails p) = fails p

    pub Meets-map_err :
        {E F A : Type 0} {R : Tables → Type 0} {Q : A → Tables → Type 0} (g : E → F) {m : Exec E A}
        → Meets P R m Q
        → Meets P R (map_err g m) Q
    unfolding map_err
    Meets-map_err g {m = m} h = record { at = λ w p r. Ends-map_err g (m w) (h.at w p r) }

    pub Meets-statement :
        {A : Type 0} {R : Tables → Type 0} {Q : A → Tables → Type 0} (s : Statement A)
        → ((now : ℕ) (t : Tables) → P t → R t → Settles P Q (s now t))
        → Meets P R (statement s) Q
    unfolding statement
    Meets-statement s h = record {
      at = λ w p r.
          let w' = record w { outages = later_outages w.outages } in
          if_both (Ends P _) (next_outage w.outages) (fails p)
            (Ends-settle w' (s w.now w.tables) p (h w.now w.tables p r));
    }

    pub Meets-execute :
        {A : Type 0} {R : Tables → Type 0} {Q : A → Tables → Type 0} (s : Statement A)
        → ((now : ℕ) (t : Tables) → P t → R t → Settles P Q (s now t))
        → Meets P R (execute s) Q
    unfolding execute
    Meets-execute s h = Meets-map_err database (Meets-statement s h)

    pub Meets-write :
        {A : Type 0} {R : Tables → Type 0} {Q : A → Tables → Type 0} (entity key : Text)
        (s : Statement A)
        → ((now : ℕ) (t : Tables) → P t → R t → Settles P Q (s now t))
        → Meets P R (write entity key s) Q
    unfolding write
    Meets-write entity key s h = Meets-map_err (from_write entity key) (Meets-statement s h)

    -- A query leaves the tables alone, so that what was known of them stays known.
    pub Meets-select :
        {A : Type 0} {R : Tables → Type 0} (f : Tables → A)
        → Meets P R (select f) (λ a t. (a ≡ f t) × R t)
    unfolding select
    Meets-select f =
        Meets-map_err database
          (Meets-statement (λ now t. ok (f t, t)) (λ now t p r. (p, (refl, r))))

    pub Meets-found :
        {A : Type 0} {R : Tables → Type 0} (entity : Text) (o : Option A)
        → Meets P R (found entity o) (λ a t. (o ≡ some a) × R t)
    unfolding found
    Meets-found entity o =
        Meets-lift (or_not_found entity o) (λ a t p r e. (some_of entity o a e, r))

    -- Knowing more before, or asking for less after.
    Ends-mono :
        {E A : Type 0} {Q S : A → Tables → Type 0} (o : Result A E × World)
        → ((a : A) (t : Tables) → Q a t → S a t)
        → Ends P Q o
        → Ends P S o
    Ends-mono o f (returns p q) = returns p (f _ _ q)
    Ends-mono o f (fails p) = fails p

    pub Meets-mono :
        {E A : Type 0} {R R' : Tables → Type 0} {Q S : A → Tables → Type 0} {m : Exec E A}
        → ((t : Tables) → R' t → R t)
        → ((a : A) (t : Tables) → Q a t → S a t)
        → Meets P R m Q
        → Meets P R' m S
    Meets-mono {m = m} g f h = record { at = λ w p r. Ends-mono (m w) f (h.at w p (g w.tables r)) }

    pub Meets-if :
        {E A : Type 0} {R : Tables → Type 0} {Q : A → Tables → Type 0} (b : Bool) (m n : Exec E A)
        → Meets P R m Q
        → Meets P R n Q
        → Meets P R (if b then m else n) Q
    Meets-if true m n hm hn = hm
    Meets-if false m n hm hn = hn

    -- What the tables tell before a run may be assumed for it.
    pub Meets-assume :
        {E A : Type 0} {R : Tables → Type 0} {Q : A → Tables → Type 0} {m : Exec E A} (F : Type 0)
        → ((t : Tables) → P t → R t → F)
        → (F → Meets P R m Q)
        → Meets P R m Q
    Meets-assume F f k = record { at = λ w p r. (k (f w.tables p r)).at w p r }

    -- A row is looked for, found and read.
    pub Meets-lookup :
        {A B : Type 0} {R : Tables → Type 0} (f : Tables → Option A) (entity : Text)
        (g : A → Result B StorageError)
        → Meets P R
            (do row ← select f; a ← found entity row; lift (g a))
            (λ b t. ((a : A) × (f t ≡ some a) × (g a ≡ ok b)) × R t)
    Meets-lookup f entity g = Meets-bind (Meets-select f) (λ row.
        Meets-bind (Meets-found entity row)
          (λ a. Meets-lift (g a) (λ b t p r e. ((a, sym (r.1.0) ∙ r.0, e), r.1.1))))

    Ends-rolled_back :
        {A : Type 0} {Q : A → Tables → Type 0} (t : Tables) (o : Result A StorageError × World)
        → P t
        → Ends P Q o
        → Ends P Q (rolled_back t o)
    Ends-rolled_back t o p (returns q r) = returns q r
    Ends-rolled_back t o p (fails q) = fails p

    pub Meets-transaction :
        {A : Type 0} {R : Tables → Type 0} {Q : A → Tables → Type 0} {m : Exec StorageError A}
        → Meets P R m Q
        → Meets P R (transaction m) Q
    unfolding transaction
    Meets-transaction {m = m} h = record {
      at = λ w p r. Ends-rolled_back w.tables _ p (
          (Meets-bind (Meets-mono (λ t q. q) (λ a t q. q.1) (Meets-select (λ t. tt))) (λ u.
              Meets-bind h
                (λ a. Meets-bind (Meets-select (λ t. tt)) (λ u. Meets-pure a (λ t p r. r.1))))).at
            w p r);
    }
