-- ===== src/Session/Actions.antt =====
-- An action of the program: it reads what the surroundings do at each call, changes the state of
-- the session and ends in a value or an error.
use doorbust.Base.{ℕ, String, Bool, Option, some, str_eq, if◌then◌else◌}
use doorbust.Store.{Db, Result, ok, err, Error}
use doorbust.Queries.Turns.{Turn}

-- What has been committed, what the open transaction sees, whether an error has put that
-- transaction out of use, the number of the next call, and what the process remembers of the callers
-- (customers.CachedResolver).
pub record World : Type 0 where
  pub shared : Db
  pub view : Db
  pub aborted : Bool
  pub at : ℕ
  pub ids : String → Option ℕ

abbrev pub Env : Type 0
Env = ℕ → Turn

abbrev pub M : Type 0 → Type 0
M A = Env → World → Result A × World

module _ {A : Type 0} where
  unfoldable pub pure : A → M A
  pure a env w = (ok a, w)

  -- return …, err
  unfoldable pub fail : Error → M A
  fail e env w = (err e, w)

  unfoldable pub lift : Result A → M A
  lift r env w = (r, w)

  -- A call whose error is looked at.
  unfoldable pub attempt : M A → M (Result A)
  attempt m env w = let (r, w') = m env w in (ok r, w')

module _ {A B : Type 0} where
  abbrev pub continue : Result A → (A → M B) → M B
  continue (ok a) f env w = f a env w
  continue (err e) f env w = (err e, w)

  infixl 5 ◌>>=◌ ◌>>◌
  -- Opening this opens `pure`, `fail`, `lift` and `attempt` too.
  unfoldable pub ◌>>=◌ : M A → (A → M B) → M B
  unfolding pure fail lift attempt
  ◌>>=◌ m f env w = let (r, w') = m env w in continue r f env w'

  abbrev pub ◌>>◌ : M A → M B → M B
  m >> k = m >>= λ _. k

-- sync.Map's Load and Store.
unfoldable pub load_id : String → M (Option ℕ)
load_id sub env w = (ok (w.ids sub), w)

unfoldable pub store_id : String → ℕ → M (Unit {0})
store_id sub id env w = (ok tt, record w { ids = λ s. if str_eq s sub then some id else w.ids s })
