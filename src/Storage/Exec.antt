-- ===== src/Storage/Exec.antt =====
-- How the storage layer runs: statements, each of which takes effect as a whole or fails and leaves
-- the tables alone, in a monad of state and errors, where what was written stays written when a later
-- statement fails. Which statements the connection fails on is given beforehand. No other request
-- writes between the statements of a run.
pub mod Keeps
use flagforge.Prelude.{ℕ, Bool, true, false, List, [], ◌∷◌, Option, Result, ok, err, if◌then◌else◌}
use flagforge.Text.{Text}
use flagforge.Extern.{Extern}
use flagforge.Storage.Tables.{Tables}
use flagforge.Storage.Error.{
  SqlError, other_failure, StorageError, database, from_write, or_not_found,
}

module _ ⦃x : Extern⦄ where
  -- The tables, the time that `now()` gives, whether each coming statement meets an outage, and the
  -- environments whose cached snapshots were refreshed, the last first.
  pub record World : Type 0 where
    pub tables : Tables
    pub now : ℕ
    pub outages : List Bool
    pub refreshed : List ℕ

  abbrev pub Statement : Type 0 → Type 0
  Statement A = ℕ → Tables → Result (A × Tables) SqlError

  abbrev pub Exec : Type 0 → Type 0 → Type 0
  Exec E A = World → Result A E × World

  abbrev pub next_outage : List Bool → Bool
  next_outage [] = false
  next_outage (o ∷ os) = o

  abbrev pub later_outages : List Bool → List Bool
  later_outages [] = []
  later_outages (o ∷ os) = os

  -- The statement's effect, or its failure.
  abbrev pub settle :
      {A : Type 0} → World → Result (A × Tables) SqlError → Result A SqlError × World
  settle w (err e) = (err e, w)
  settle w (ok (a, t)) = (ok a, record w { tables = t })

  unfoldable pub statement : {A : Type 0} → Statement A → Exec SqlError A
  statement s w =
      let w' = record w { outages = later_outages w.outages } in
      if next_outage w.outages then (err other_failure, w') else settle w' (s w.now w.tables)

  module _ {A E F : Type 0} where
    abbrev pub map_err_of : (E → F) → Result A E × World → Result A F × World
    map_err_of f (ok a, w) = (ok a, w)
    map_err_of f (err e, w) = (err (f e), w)

    unfoldable pub map_err : (E → F) → Exec E A → Exec F A
    map_err f m w = map_err_of f (m w)

  module _ {E A : Type 0} where
    unfoldable pub pure : A → Exec E A
    pure a w = (ok a, w)

    unfoldable pub raise : E → Exec E A
    raise e w = (err e, w)

    -- `?` on a `Result` that is there.
    unfoldable pub lift : Result A E → Exec E A
    lift r w = (r, w)

  module _ {E A B : Type 0} where
    abbrev pub bind_of : (A → Exec E B) → Result A E × World → Result B E × World
    bind_of f (ok a, w) = f a w
    bind_of f (err e, w) = (err e, w)

  infixl 5 ◌>>=◌ ◌>>◌
  unfoldable pub ◌>>=◌ : {E A B : Type 0} → Exec E A → (A → Exec E B) → Exec E B
  ◌>>=◌ m f w = bind_of f (m w)

  abbrev pub ◌>>◌ : {E A B : Type 0} → Exec E A → Exec E B → Exec E B
  m >> k = m >>= λ _. k

  -- A query: its rows, or `Database`.
  unfoldable pub select : {A : Type 0} → (Tables → A) → Exec StorageError A
  unfolding statement map_err
  select f = map_err database (statement (λ now t. ok (f t, t)))

  unfoldable pub execute : {A : Type 0} → Statement A → Exec StorageError A
  unfolding statement map_err
  execute s = map_err database (statement s)

  -- A write whose violations are those of an entity's key.
  unfoldable pub write : {A : Type 0} → Text → Text → Statement A → Exec StorageError A
  unfolding statement map_err from_write
  write entity key s = map_err (from_write entity key) (statement s)

  unfoldable pub found : {A : Type 0} → Text → Option A → Exec StorageError A
  unfolding lift or_not_found
  found entity o = lift (or_not_found entity o)

  -- A transaction that fails, at its begin, inside or at its commit, is rolled back.
  abbrev pub rolled_back :
      {A : Type 0} → Tables → Result A StorageError × World → Result A StorageError × World
  rolled_back t (ok a, w) = (ok a, w)
  rolled_back t (err e, w) = (err e, record w { tables = t })

  unfoldable pub transaction : {A : Type 0} → Exec StorageError A → Exec StorageError A
  unfolding select pure ◌>>=◌
  transaction m w = rolled_back w.tables ((do select (λ t. tt); a ← m; select (λ t. tt); pure a) w)
