-- ===== src/Ledger/Effects.antt =====
-- The form of what a statement does to the accounts of a product.
use doorbust.Base.{◌≡◌, ℕ, ◌≡◌}
use doorbust.Store.{Db, Result, ok, err}
use doorbust.Queries.Turns.{Query, Turn}
use doorbust.Ledger.{Account, Drift, flaws}

-- A statement that returns a row moves the accounts by the offsets; one that does not changes
-- nothing.
abbrev pub Effect :
    {A : Type 0} → Account → Db → (A → ℕ) → (A → ℕ) → (A → ℕ) → (A → ℕ) → Result A × Db → Type 0
Effect p db x y u v (ok a, db') = Drift p db db' (x a) (y a) (u a) (v a)
Effect p db x y u v (err _, db') = db' ≡ db

-- A statement with its offsets.
pub record Moves {A : Type 0} (p : Account) (q : Query A) (fx fy fu fv : A → ℕ) : Type 0 where
  pub on : (t : Turn) (db : Db) → flaws db ≡ 0 → Effect p db fx fy fu fv (q t db)
