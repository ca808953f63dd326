-- ===== src/Ledger/Quiet.antt =====
-- Calls that leave the accounts alone, on the pool or in a transaction that has not moved them.

use doorbust.Store.{Db, Result, ok, err}
use doorbust.Queries.Turns.{Query, Fault, fine, refused, lost}
use doorbust.Session.{
  World, Env, M, Querier, pool, tx, call, attempt, arrive, begun, begin, continue, with_rollback,
  in_transaction, ◌>>=◌,
}
use doorbust.Session.Rules.{Holds, Post}
use doorbust.Ledger.OtherEffects.{Quiet}
use doorbust.Ledger.{Account}
use doorbust.Ledger.Actions.{
  RelyOn, Inside, Outside, Stepped, Holds-call_pool, Holds-attempt-call, arrive-Inside, Drift-refl,
}

-- Where a statement of the querier starts from.
abbrev pub Kept : Account → Db → Querier → World → Type 0
Kept p base pool = Outside p base
Kept p base tx = Inside p base 0 0 0 0

-- Nothing is lost by a failure.
abbrev pub Keeps : {A : Type 0} → Env → (World → Type 0) → M A → Type 0
Keeps env K m = Holds env K m (λ _. K) K

-- What holds either way.
module _ {A : Type 0} (K : World → Type 0) where
  pub Post-both : (r : Result A) (w : World) → K w → Post (λ _. K) K r w
  Post-both (ok _) w h = h
  Post-both (err _) w h = h

  pub Post-out : (r : Result A) (w : World) → Post (λ _. K) K r w → K w
  Post-out (ok _) w h = h
  Post-out (err _) w h = h

module _ {A : Type 0} (p : Account) (base : Db) where
  Stepped-same :
      (r : Result A) (w : World)
      → Stepped p base (λ _. 0) (λ _. 0) (λ _. 0) (λ _. 0) 0 0 0 0 r w
      → Post (λ _. Inside p base 0 0 0 0) (Inside p base 0 0 0 0) r w
  Stepped-same (ok _) w h = h
  Stepped-same (err _) w h = h

module _ {env : Env} {p : Account} (rely : RelyOn p env) (base : Db) where
  pub Keeps-call :
      {A : Type 0} (q : Querier) (m : Query A) → Quiet p m → Keeps env (Kept p base q) (call q m)
  unfolding attempt
  Keeps-call pool m quiet = Holds-call_pool rely m quiet
  Keeps-call tx m quiet = record {
    at = λ w h. Stepped-same p base _ _ ((Holds-attempt-call rely m quiet).at w h);
  }

module _ {env : Env} {A : Type 0} where
  pub Holds-attempt :
      (m : M A) {P : World → Type 0} {S : A → World → Type 0} {Out Out' : World → Type 0}
      → Holds env P m S Out
      → Holds env P (attempt m) (Post S Out) Out'
  unfolding attempt
  Holds-attempt m h = record { at = h.at }

module _ {env : Env} {p : Account} (rely : RelyOn p env) (base : Db) {A : Type 0} (body : M A) where
  reopened :
      (f : Fault) (w : World)
      → Inside p base 0 0 0 0 (arrive (env w.at) w)
      → Outside p base
          (continue
            (begun f (arrive (env w.at) w)).0
            (λ _. with_rollback body)
            env
            (begun f (arrive (env w.at) w)).1).1
      → Inside p base 0 0 0 0
          (continue
            (begun f (arrive (env w.at) w)).0
            (λ _. with_rollback body)
            env
            (begun f (arrive (env w.at) w)).1).1
  unfolding with_rollback
  reopened fine w i o = record { kept = o.kept; ahead = Drift-refl o.kept.sound }
  reopened refused w i o = i
  reopened lost w i o = i

  -- A transaction within one that has written nothing.
  pub Keeps-nested :
      Holds env (Outside p base) (in_transaction body) (λ _. Outside p base) (Outside p base)
      → Keeps env (Inside p base 0 0 0 0) (in_transaction body)
  unfolding in_transaction begin ◌>>=◌
  Keeps-nested h = record {
    at = λ w i.
        let outcome = in_transaction body env w in
        Post-both (Inside p base 0 0 0 0) outcome.0 outcome.1 (
          reopened (env w.at).fault w (arrive-Inside rely w.at w i)
            (Post-out (Outside p base) outcome.0 outcome.1 (h.at w (record { kept = i.kept }))));
  }
