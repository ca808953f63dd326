-- ===== src/Ledger/Actions.antt =====
-- The accounts of a product through the calls of an action, whatever other transactions commit in
-- between and whichever calls fail.
use doorbust.Base.{ℕ, ◌+◌, ◌≡◌, refl, true, false, Bool, arith}
use doorbust.Store.{Db, Result, ok, err}
use doorbust.Queries.Turns.{Query, Fault, fine, refused, lost}
use doorbust.Session.{
  World, Env, M, attempt, pool, tx, call, begin, commit, with_rollback, in_transaction, arrive,
  in_view, on_pool, opened, breaks, begun, settled,
}
use doorbust.Session.Rules.{Holds, Post, Holds-bind}
use doorbust.Ledger.{Account, books_of, Drift, Drift-trans, flaws}
use doorbust.Ledger.Effects.{Effect, Moves}

-- What the others commit leaves the accounts of the product balanced.
pub record RelyOn (p : Account) (env : Env) : Type 0 where
  pub others : (n : ℕ) (db : Db) → flaws db ≡ 0 → Drift p db ((env n).meanwhile db) 0 0 0 0

abbrev pub Rely : ℕ → Env → Type 0
Rely p env = RelyOn (books_of p) env

-- What has been committed is as balanced as `base` was.
pub record Outside (p : Account) (base : Db) (w : World) : Type 0 where
  pub kept : Drift p base w.shared 0 0 0 0

-- In a transaction, which has moved the accounts by the offsets.
pub record Inside (p : Account) (base : Db) (x y u v : ℕ) (w : World) : Type 0 where
  pub kept : Drift p base w.shared 0 0 0 0
  pub ahead : Drift p w.shared w.view x y u v

pub Drift-refl : {p : Account} {db : Db} → flaws db ≡ 0 → Drift p db db 0 0 0 0
Drift-refl sound = record { balance = refl; supply = refl; listed = refl; sound = sound }

balanced :
    {p : Account} {a b : Db} {x y u v : ℕ}
    → x ≡ y
    → u ≡ v
    → Drift p a b x y u v
    → Drift p a b 0 0 0 0
balanced same same' d = omega arith

module _ {A : Type 0} (p : Account) (base : Db) where
  -- After a statement, by its answer: the offsets that it adds, or those of before.
  abbrev pub Stepped : (fx fy fu fv : A → ℕ) (x y u v : ℕ) → Result A → World → Type 0
  Stepped fx fy fu fv x y u v (ok a) = Inside p base (x + fx a) (y + fy a) (u + fu a) (v + fv a)
  Stepped fx fy fu fv x y u v (err _) = Inside p base x y u v

  failed-Outside :
      (fx fy fu fv : A → ℕ) (x y u v : ℕ) (r : Result A) (w : World)
      → Stepped fx fy fu fv x y u v r w
      → Post (λ a. Inside p base (x + fx a) (y + fy a) (u + fu a) (v + fv a)) (Outside p base) r w
  failed-Outside fx fy fu fv x y u v (ok a) w h = h
  failed-Outside fx fy fu fv x y u v (err _) w h = record { kept = h.kept }

  pub Post-same :
      (r : Result A) (w : World)
      → Outside p base w
      → Post (λ _. Outside p base) (Outside p base) r w
  Post-same (ok _) w h = h
  Post-same (err _) w h = h

module _ {env : Env} {p : Account} (rely : RelyOn p env) where
  arrive-Outside :
      {base : Db} (n : ℕ) (w : World) → Outside p base w → Outside p base (arrive (env n) w)
  arrive-Outside n w h = record { kept = Drift-trans h.kept (rely.others n w.shared h.kept.sound) }

  pub arrive-Inside :
      {base : Db} {x y u v : ℕ} (n : ℕ) (w : World)
      → Inside p base x y u v w
      → Inside p base x y u v (arrive (env n) w)
  arrive-Inside n w h =
      let theirs = rely.others n w.shared h.kept.sound in
      let ours = rely.others n w.view h.ahead.sound in
      record { kept = Drift-trans h.kept theirs; ahead = omega arith }

  module _ {A : Type 0} (q : Query A) {fx fy fu fv : A → ℕ} (moves : Moves p q fx fy fu fv) where
    answered :
        {base : Db} {x y u v : ℕ} (w : World) (r : Result A) (db : Db) (b : Bool)
        → Inside p base x y u v w
        → Effect p w.view fx fy fu fv (r, db)
        → Stepped p base fx fy fu fv x y u v r (record w { view = db; aborted = b })
    answered w (ok a) db b h e = record { kept = h.kept; ahead = Drift-trans h.ahead e }
    answered w (err _) db b h e = record { kept = h.kept; ahead = rw e h.ahead }

    in_view-Stepped :
        {base : Db} {x y u v : ℕ} (b : Bool) (f : Fault) (r : Result A × Db) (w : World)
        → Inside p base x y u v w
        → Effect p w.view fx fy fu fv r
        → Stepped p base fx fy fu fv x y u v (in_view b f r w).0 (in_view b f r w).1
    in_view-Stepped true f r w h e = record { kept = h.kept; ahead = h.ahead }
    in_view-Stepped false fine (r, db) w h e = answered w r db (breaks r) h e
    in_view-Stepped false refused r w h e = record { kept = h.kept; ahead = h.ahead }
    in_view-Stepped false lost r w h e = record { kept = h.kept; ahead = h.ahead }

    -- A statement in a transaction.
    stepped :
        {base : Db} {x y u v : ℕ} (w : World)
        → Inside p base x y u v w
        → Stepped p base fx fy fu fv x y u v (call tx q env w).0 (call tx q env w).1
    unfolding call
    stepped w h =
        let h' = arrive-Inside w.at w h in
        in_view-Stepped _ _ _ _ h' (moves.on (env w.at) (arrive (env w.at) w).view h'.ahead.sound)

    pub Holds-call :
        {base : Db} {x y u v : ℕ}
        → Holds env
            (Inside p base x y u v)
            (call tx q)
            (λ a. Inside p base (x + fx a) (y + fy a) (u + fu a) (v + fv a))
            (Outside p base)
    Holds-call {base} {x} {y} {u} {v} = record {
      at = λ w h. failed-Outside p base fx fy fu fv x y u v _ _ (stepped w h);
    }

    pub Holds-attempt-call :
        {base : Db} {x y u v : ℕ}
        → Holds env
            (Inside p base x y u v)
            (attempt (call tx q))
            (Stepped p base fx fy fu fv x y u v)
            (Outside p base)
    unfolding attempt
    Holds-attempt-call = record { at = λ w h. stepped w h }

  -- A statement on the pool that leaves the accounts balanced.
  module _ {A : Type 0} (q : Query A) (moves : Moves p q (λ _. 0) (λ _. 0) (λ _. 0) (λ _. 0)) where
    pooled :
        {base : Db} (f : Fault) (r : Result A) (db : Db) (w : World)
        → Outside p base w
        → Effect p w.shared (λ _. 0) (λ _. 0) (λ _. 0) (λ _. 0) (r, db)
        → Outside p base (on_pool f (r, db) w).1
    pooled refused r db w h e = h
    pooled fine (ok a) db w h e = record { kept = Drift-trans h.kept e }
    pooled fine (err _) db w h e = record { kept = rw e h.kept }
    pooled lost (ok a) db w h e = record { kept = Drift-trans h.kept e }
    pooled lost (err _) db w h e = record { kept = rw e h.kept }

    pub Holds-call_pool :
        {base : Db}
        → Holds env (Outside p base) (call pool q) (λ _. Outside p base) (Outside p base)
    unfolding call
    Holds-call_pool {base} = record {
      at = λ w h.
          let h' = arrive-Outside w.at w h in
          Post-same p base _ _ (
            pooled (env w.at).fault _ _ (arrive (env w.at) w) h'
              (moves.on (env w.at) (arrive (env w.at) w).shared h'.kept.sound));
    }

  begun-Inside :
      {base : Db} (f : Fault) (w : World)
      → Outside p base w
      → Post (λ _. Inside p base 0 0 0 0) (Outside p base) (begun f w).0 (begun f w).1
  begun-Inside fine w h = record { kept = h.kept; ahead = Drift-refl h.kept.sound }
  begun-Inside refused w h = h
  begun-Inside lost w h = h

  settled-Outside :
      {base : Db} (b : Bool) (f : Fault) (w : World)
      → Inside p base 0 0 0 0 w
      → Outside p base (settled b f w).1
  settled-Outside true f w h = record { kept = h.kept }
  settled-Outside false fine w h = record { kept = omega arith }
  settled-Outside false refused w h = record { kept = h.kept }
  settled-Outside false lost w h = record { kept = omega arith }

  -- A transaction whose moves are balanced may be committed.
  pub Holds-commit :
      {base : Db} {x y u v : ℕ}
      → x ≡ y
      → u ≡ v
      → Holds env (Inside p base x y u v) commit (λ _. Outside p base) (Outside p base)
  unfolding commit
  Holds-commit {base} {x} {y} {u} {v} same same' = record {
    at = λ w h. Post-same p base _ _ (
        settled-Outside _ _ _
          (arrive-Inside w.at w (record { kept = h.kept; ahead = balanced same same' h.ahead })));
  }

  Holds-begin :
      {base : Db} → Holds env (Outside p base) begin (λ _. Inside p base 0 0 0 0) (Outside p base)
  unfolding begin
  Holds-begin = record { at = λ w h. begun-Inside _ _ (arrive-Outside w.at w h) }

  undone :
      {A : Type 0} (base : Db) (r : Result A) (w : World)
      → Post (λ _. Outside p base) (Outside p base) r w
      → Post (λ _. Outside p base) (Outside p base) r (opened w)
  undone base (ok a) w h = record { kept = h.kept }
  undone base (err e) w h = record { kept = h.kept }

  -- The accounts are balanced after a transaction, if its body commits only what is.
  pub Holds-in_transaction :
      {A : Type 0} {base : Db} (body : M A)
      → Holds env (Inside p base 0 0 0 0) body (λ _. Outside p base) (Outside p base)
      → Holds env (Outside p base) (in_transaction body) (λ _. Outside p base) (Outside p base)
  unfolding in_transaction
  Holds-in_transaction {base} body h =
      Holds-bind begin (λ _. with_rollback body) _ Holds-begin
        (λ _. record { at = λ w i. undone base _ _ (h.at w i) })
