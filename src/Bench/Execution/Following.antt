-- ===== src/Bench/Execution/Following.antt =====
-- What the automaton makes of the parts that a run is put together from.
use doorbust.Base.{
  ℕ, Bool, true, false, ◌≡◌, refl, Option, none, some, List, Bool-cases, Option-cases, inl, inr,
}
use doorbust.Bench.Dispatch.{Results, run}
use doorbust.Bench.Execution.{
  Options, Surroundings, Step, Mark, Run, tried, loaded, stopped_app, or_fail, deferring, load,
  ◌>>=◌, step, note, stop, sends_from,
}
use doorbust.Bench.Execution.Automaton.{Phase, next, watch, watch-append}

-- From a phase a part of the run is followed to another one, of which a claim holds.
pub record Does {A : Type 0} (m : Run A) (out : Surroundings) (s : Phase) (up : Bool)
    (Q : Option A → Phase → Bool → Type 0) : Type 0 where
  pub last : Phase
  pub followed : watch s (m out up).1 ≡ some last
  pub holds : Q (m out up).0.0 last (m out up).0.1

module _ {A : Type 0} {out : Surroundings} {up : Bool} {R : Option A → Phase → Bool → Type 0}
    (s : Phase) where
  pub step_and :
      (k : Step) (t f : Phase) (g : Run A)
      → next s (tried k true) ≡ some t
      → next s (tried k false) ≡ some f
      → R none f up
      → Does g out t up R
      → Does (step k >>= λ _. g) out s up R
  unfolding ◌>>=◌ step watch
  step_and k t f g works breaks failed rest = elim (Bool-cases (out.works k)) [
    | inl e ↦ record {
      last = rest.last;
      followed = rw e (rw works rest.followed);
      holds = rw e rest.holds;
    }
    | inr e ↦ record { last = f; followed = rw e (rw breaks refl); holds = rw e failed }
  ]

  pub note_and :
      (m : Mark) (t : Phase) (g : Run A)
      → next s m ≡ some t
      → Does g out t up R
      → Does (note m >>= λ _. g) out s up R
  unfolding ◌>>=◌ note watch
  note_and m t g works rest = record {
    last = rest.last;
    followed = rw works rest.followed;
    holds = rest.holds;
  }

  pub get_and :
      {B : Type 0} (o : Option B) (f : B → Run A)
      → R none s up
      → ((b : B) → Does (f b) out s up R)
      → Does (or_fail o >>= f) out s up R
  unfolding ◌>>=◌ watch
  get_and none f failed rest = record { last = s; followed = refl; holds = failed }
  get_and (some b) f failed rest = record {
    last = (rest b).last;
    followed = (rest b).followed;
    holds = (rest b).holds;
  }

  pub defer_and :
      {Q : Option A → Phase → Bool → Type 0} (last : Run (Unit {0})) (body : Run A)
      → Does body out s up Q
      → ((r : Option A) (b : Phase) (up' : Bool)
          → Q r b up'
          → Does last out b up' (λ _ b' up''. R r b' up''))
      → Does (deferring last body) out s up R
  unfolding deferring
  defer_and last body d after =
      let e = after (body out up).0.0 d.last (body out up).0.1 d.holds in
      record {
        last = e.last;
        followed =
            rw (watch-append s (body out up).1 (last out (body out up).0.1).1)
              (rw d.followed e.followed);
        holds = e.holds;
      }

  pub load_and :
      (o : Options) (schedule : List ℕ) (t : Phase) (f : Results → Run A)
      → next s loaded ≡ some t
      → R none t up
      → ((r : Results) → Does (f r) out t up R)
      → Does (load o schedule >>= f) out s up R
  unfolding ◌>>=◌ watch
  load_and o schedule t f works failed rest =
      elim (Option-cases (run o.max_in_flight o.warmup (sends_from out.send 0 schedule))) [
        | inl e ↦ record { last = t; followed = rw e (rw works refl); holds = rw e failed }
        | inr (r, e) ↦
            let d = rest r in
            record { last = d.last; followed = rw e (rw works d.followed); holds = rw e d.holds }
      ]

module _ {A : Type 0} {out : Surroundings} {R : Option A → Phase → Bool → Type 0}
    (s t : Phase) where
  pub stop_and :
      (g : Run A)
      → next s stopped_app ≡ some t
      → Does g out t true R
      → Does (stop >>= λ _. g) out s false R
  unfolding ◌>>=◌ stop watch
  stop_and g works rest = record {
    last = rest.last;
    followed = rw works rest.followed;
    holds = rest.holds;
  }
