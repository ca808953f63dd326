-- ===== src/Session/Atomic.antt =====
-- A transaction is done as a whole or not at all.
use doorbust.Base.{ℕ, Bool, true, false, ◌≡◌, refl}
use mathlib.Core.Path.{◌∙◌}
use doorbust.Store.{Db, Result, ok, err, Error}
use doorbust.Queries.Turns.{Query, Fault, fine, refused, lost}
use doorbust.Session.{
  World, Env, M, tx, call, attempt, arrive, in_view, opened, begun, begin, settled, commit,
  with_rollback, in_transaction,
}
use doorbust.Session.Rules.{Holds, Post, Holds-bind}

abbrev pub is_lost : Fault → Bool
is_lost lost = true
is_lost _ = false

-- Nobody else commits, and the answer of a call that was carried out arrives.
pub record IsAlone (env : Env) : Type 0 where
  pub nobody : (n : ℕ) (db : Db) → (env n).meanwhile db ≡ db
  pub answered : (n : ℕ) → is_lost (env n).fault ≡ false

-- What has been committed is what it was.
pub record Untouched (base : Db) (w : World) : Type 0 where
  pub same : w.shared ≡ base

abbrev pub Anything : World → Type 0
Anything w = Unit

module _ {A : Type 0} (base : Db) where
  either_way :
      (r : Result A) (w : World)
      → Untouched base w
      → Post (λ _. Untouched base) (Untouched base) r w
  either_way (ok _) w h = h
  either_way (err _) w h = h

  failed :
      (r : Result A) (w : World)
      → Post (λ _. Anything) (Untouched base) r w
      → (e : Error) → r ≡ err e
      → w.shared ≡ base
  failed (ok a) w h e same = cc
  failed (err _) w h e same = h.same

  rolled_back :
      (r : Result A) (w : World)
      → Post (λ _. Anything) (Untouched base) r w
      → Post (λ _. Anything) (Untouched base) r (opened w)
  rolled_back (ok a) w h = tt
  rolled_back (err e) w h = record { same = h.same }

  in_view-Untouched :
      (b : Bool) (f : Fault) (r : Result A × Db) (w : World)
      → Untouched base w
      → Untouched base (in_view b f r w).1
  in_view-Untouched true f r w h = record { same = h.same }
  in_view-Untouched false fine r w h = record { same = h.same }
  in_view-Untouched false refused r w h = record { same = h.same }
  in_view-Untouched false lost r w h = record { same = h.same }

module _ {env : Env} (alone : IsAlone env) {base : Db} where
  arrive-Untouched : (w : World) → Untouched base w → Untouched base (arrive (env w.at) w)
  arrive-Untouched w h = record { same = alone.nobody w.at w.shared ∙ h.same }

  pub Untouched-call :
      {A : Type 0} (q : Query A)
      → Holds env (Untouched base) (call tx q) (λ _. Untouched base) (Untouched base)
  unfolding call
  Untouched-call q = record {
    at = λ w h. either_way base _ _ (in_view-Untouched base _ _ _ _ (arrive-Untouched w h));
  }

  pub Untouched-attempt :
      {A : Type 0} (q : Query A)
      → Holds env (Untouched base) (attempt (call tx q)) (λ _. Untouched base) (Untouched base)
  unfolding attempt call
  Untouched-attempt q = record { at = λ w h. in_view-Untouched base _ _ _ _ (arrive-Untouched w h) }

  begun-Untouched :
      (f : Fault) (w : World)
      → Untouched base w
      → Post (λ _. Untouched base) (Untouched base) (begun f w).0 (begun f w).1
  begun-Untouched fine w h = record { same = h.same }
  begun-Untouched refused w h = h
  begun-Untouched lost w h = h

  settled-Untouched :
      (b : Bool) (f : Fault) (w : World)
      → is_lost f ≡ false
      → Untouched base w
      → Post (λ _. Anything) (Untouched base) (settled b f w).0 (settled b f w).1
  settled-Untouched true f w n h = record { same = h.same }
  settled-Untouched false fine w n h = tt
  settled-Untouched false refused w n h = h
  settled-Untouched false lost w n h = cc

  pub Untouched-commit : Holds env (Untouched base) commit (λ _. Anything) (Untouched base)
  unfolding commit
  Untouched-commit = record {
    at = λ w h. settled-Untouched _ _ _ (alone.answered w.at) (arrive-Untouched w h);
  }

  pub Untouched-in_transaction :
      {A : Type 0} (body : M A)
      → Holds env (Untouched base) body (λ _. Anything) (Untouched base)
      → Holds env (Untouched base) (in_transaction body) (λ _. Anything) (Untouched base)
  unfolding in_transaction begin
  Untouched-in_transaction body h =
      Holds-bind begin (λ _. with_rollback body) (λ _. Untouched base)
        (record { at = λ w i. begun-Untouched _ _ (arrive-Untouched w i) })
        (λ _. record { at = λ w i. rolled_back base _ _ (h.at w i) })

-- The form of the results: an error means that nothing has happened.
pub failed-Untouched :
    {env : Env} {A : Type 0} (m : M A) (w : World)
    → Holds env (Untouched w.shared) m (λ _. Anything) (Untouched w.shared)
    → (e : Error) → (m env w).0 ≡ err e
    → (m env w).1.shared ≡ w.shared
failed-Untouched {env} m w h =
    failed w.shared (m env w).0 (m env w).1 (h.at w (record { same = refl }))
