-- ===== src/Bench/Execution/Automaton.antt =====
-- An automaton that watches a run: in which order it may touch its surroundings.
use doorbust.Base.{
  Bool, true, false, not, ◌&&◌, ◌≡◌, refl, Option, none, some, List, [], ◌∷◌, ◌++◌, Option-cases,
  inl, inr, if◌then◌else◌,
}
use doorbust.Bench.Execution.{
  Mark, tried, loaded, checked, stopped_app, closed_issuer, closed_pool, connect, migrate, truncate,
  make_probe_table, seed_products, start_issuer, mint_buyers, seed_customers, start_app,
  await_ready, find_customer, probe_exec,
}

-- What is open, whether the tables have been emptied and the load is over.
pub record Phase : Type 0 where
  pub pool : Bool
  pub issuer : Bool
  pub app : Bool
  pub emptied : Bool
  pub loaded : Bool

abbrev pub at_rest : Phase
at_rest = record { pool = false; issuer = false; app = false; emptied = false; loaded = false }

abbrev pub when : Bool → Phase → Option Phase
when b s = if b then some s else none

-- The database is touched through the pool; buyers and customers need the issuer and the emptied
-- tables; the app is asked only while it runs; it is stopped before the database is read; the issuer
-- outlives the app, and the pool the issuer.
abbrev pub next : Phase → Mark → Option Phase
next s (tried connect ok) = when (not s.pool) (record s { pool = ok })
next s (tried migrate ok) = when (s.pool && not s.app) s
next s (tried truncate ok) = when (s.pool && not s.app) (record s { emptied = ok })
next s (tried make_probe_table ok) = when (s.pool && not s.app) s
next s (tried seed_products ok) = when (s.pool && s.emptied && not s.app) s
next s (tried start_issuer ok) = when (s.pool && not s.issuer) (record s { issuer = ok })
next s (tried mint_buyers ok) = when s.issuer s
next s (tried seed_customers ok) = when (s.pool && s.emptied && not s.app) s
next s (tried start_app ok) = when (s.issuer && s.emptied && not s.app) (record s { app = ok })
next s (tried await_ready ok) = when s.app s
next s (tried find_customer ok) = when s.pool s
next s (tried probe_exec ok) = when (s.pool && not s.loaded) s
next s loaded = when (s.app && not s.loaded) (record s { loaded = true })
next s checked = when (s.pool && s.loaded && not s.app) s
next s stopped_app = when s.app (record s { app = false })
next s closed_issuer = when (s.issuer && not s.app) (record s { issuer = false })
next s closed_pool = when (s.pool && not s.issuer && not s.app) (record s { pool = false })

abbrev pub follow : Option Phase → (Phase → Option Phase) → Option Phase
follow none f = none
follow (some s) f = f s

-- Where the automaton is after the marks; `none` where it refuses one.
unfoldable pub watch : Phase → List Mark → Option Phase
watch s [] = some s
watch s (m ∷ ms) = follow (next s m) (λ s'. watch s' ms)

-- It has followed the whole run, and everything that was opened is closed.
pub record IsOrderly (marks : List Mark) : Type 0 where
  pub last : Phase
  pub followed : watch at_rest marks ≡ some last
  pub closed : (last.pool ≡ false) × (last.issuer ≡ false) × (last.app ≡ false)

pub watch-append :
    (s : Phase) (xs ys : List Mark) → watch s (xs ++ ys) ≡ follow (watch s xs) (λ t. watch t ys)
unfolding watch
watch-append s [] ys = refl
watch-append s (x ∷ xs) ys = elim (Option-cases (next s x)) [
  | inl e ↦ rw e refl
  | inr (t, e) ↦ rw e (watch-append t xs ys)
]
