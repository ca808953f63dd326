-- ===== src/Session/Rules.antt =====
-- What holds before and after an action: one rule for each way to build one.
use doorbust.Base.{◌≡◌, refl, Bool, true, false, if◌then◌else◌}
use doorbust.Store.{Result, ok, err, Error}
use doorbust.Session.Actions.{World, Env, M, pure, fail, lift, continue, ◌>>=◌}

-- An action that ends well leaves S behind, and one that fails leaves Out.
abbrev pub Post : {A : Type 0} → (A → World → Type 0) → (World → Type 0) → Result A → World → Type 0
Post S Out (ok a) w = S a w
Post S Out (err _) w = Out w

-- From a state with P, the action ends as Post says.
pub record Holds {A : Type 0} (env : Env) (P : World → Type 0) (m : M A) (S : A → World → Type 0)
    (Out : World → Type 0) : Type 0 where
  pub at : (w : World) → P w → Post S Out (m env w).0 (m env w).1

Post-weaken :
    {A : Type 0} (Out : World → Type 0) (S T : A → World → Type 0) (r : Result A) (w : World)
    → ((a : A) (w : World) → S a w → T a w)
    → Post S Out r w
    → Post T Out r w
Post-weaken Out S T (ok a) w post h = post a w h
Post-weaken Out S T (err e) w post h = h

module _ {env : Env} {Out : World → Type 0} {A : Type 0} where
  pub Holds-pure : (a : A) {S : A → World → Type 0} → Holds env (S a) (pure a) S Out
  unfolding pure
  Holds-pure a = record { at = λ w h. h }

  pub Holds-return :
      (a : A) {P : World → Type 0} {S : A → World → Type 0}
      → ((w : World) → P w → S a w)
      → Holds env P (pure a) S Out
  unfolding pure
  Holds-return a out = record { at = out }

  pub Holds-fail :
      (e : Error) {P : World → Type 0} {S : A → World → Type 0}
      → ((w : World) → P w → Out w)
      → Holds env P (fail {A = A} e) S Out
  unfolding fail
  Holds-fail e out = record { at = out }

  pub Holds-lift :
      (r : Result A) {P : World → Type 0} {S : A → World → Type 0}
      → ((w : World) → P w → Post S Out r w)
      → Holds env P (lift r) S Out
  unfolding lift
  Holds-lift r out = record { at = out }

  pub Holds-if :
      (b : Bool) (m n : M A) {P : World → Type 0} {S : A → World → Type 0}
      → (b ≡ true → Holds env P m S Out)
      → (b ≡ false → Holds env P n S Out)
      → Holds env P (if b then m else n) S Out
  Holds-if true m n hm hn = hm refl
  Holds-if false m n hm hn = hn refl

  -- Any pre-state that is one of another kind, any result likewise.
  pub Holds-weaken :
      (m : M A) {P Q : World → Type 0} {S : A → World → Type 0}
      → ((w : World) → P w → Q w)
      → Holds env Q m S Out
      → Holds env P m S Out
  Holds-weaken m pre h = record { at = λ w p. h.at w (pre w p) }

  pub Holds-weaken_post :
      (m : M A) {P : World → Type 0} (S : A → World → Type 0) {T : A → World → Type 0}
      → Holds env P m S Out
      → ((a : A) (w : World) → S a w → T a w)
      → Holds env P m T Out
  Holds-weaken_post m S h post = record {
    at = λ w p. Post-weaken Out S _ (m env w).0 (m env w).1 post (h.at w p);
  }

Post-weaken_out :
    {A : Type 0} (S : A → World → Type 0) (Out Out' : World → Type 0) (r : Result A) (w : World)
    → ((w : World) → Out w → Out' w)
    → Post S Out r w
    → Post S Out' r w
Post-weaken_out S Out Out' (ok a) w out h = h
Post-weaken_out S Out Out' (err e) w out h = out w h

pub Holds-weaken_out :
    {env : Env} {A : Type 0} (m : M A) {P : World → Type 0} {S : A → World → Type 0}
    {Out Out' : World → Type 0}
    → Holds env P m S Out
    → ((w : World) → Out w → Out' w)
    → Holds env P m S Out'
Holds-weaken_out {env} m {S = S} {Out = Out} {Out' = Out'} h out = record {
  at = λ w p. Post-weaken_out S Out Out' (m env w).0 (m env w).1 out (h.at w p);
}

module _ {env : Env} {Out : World → Type 0} {A B : Type 0} where
  after_bind :
      (r : Result A) (f : A → M B) (S : A → World → Type 0) (T : B → World → Type 0) (w : World)
      → ((a : A) → Holds env (S a) (f a) T Out)
      → Post S Out r w
      → Post T Out (continue r f env w).0 (continue r f env w).1
  after_bind (ok a) f S T w hf h = (hf a).at w h
  after_bind (err e) f S T w hf h = h

  pub Holds-bind :
      (m : M A) (f : A → M B) {P : World → Type 0} (S : A → World → Type 0) {T : B → World → Type 0}
      → Holds env P m S Out
      → ((a : A) → Holds env (S a) (f a) T Out)
      → Holds env P (m >>= f) T Out
  unfolding ◌>>=◌
  Holds-bind m f S hm hf = record {
    at = λ w p. after_bind (m env w).0 f S _ (m env w).1 hf (hm.at w p);
  }
