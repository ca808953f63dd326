-- ===== src/Bench/Dispatch/Capacity.antt =====
-- The generator keeps its bound, and records every request of the schedule.
use doorbust.Base.{
  ℕ, ◌+◌, ◌≤◌, ◌<◌, Bool, true, false, ltb, leb, ◌&&◌, ◌≡◌, refl, ◌⊎◌, List, [], ◌∷◌, length, map,
  sum, Bool-cases, inl, inr, arith, if◌then◌else◌, ap, ◌∙◌,
}
use doorbust.Bench.Outcomes
use doorbust.Bench.Recorder.{Sample, one_if}
use doorbust.Bench.Dispatch.{
  Send, Shot, the_later, dispatched_at, awaited, has_room, acquire, fire, dispatch, sample,
}

-- The requests that have been sent and not been answered at a time.
abbrev pub in_flight : ℕ → List Shot → ℕ
in_flight t hs = sum (λ h. one_if (h.sent && leb h.sent_at t && ltb t h.done)) hs

-- The answers that are awaited beyond a time.
abbrev held : ℕ → List ℕ → ℕ
held t flying = sum (λ done. one_if (ltb t done)) flying

held-le : (t : ℕ) (flying : List ℕ) → held t flying ≤ length flying
unfolding sum
held-le t [] = omega arith
held-le t (d ∷ ds) = ground (arith, held-le t ds)

-- What has been answered by an earlier time is not awaited at a the_later one.
held-awaited : (t at : ℕ) (flying : List ℕ) → at ≤ t → held t (awaited at flying) ≡ held t flying
unfolding sum
held-awaited t at [] h = refl
held-awaited t at (d ∷ ds) h = elim (Bool-cases (ltb at d)) [
  | inl e ↦ rw e (omega (arith, held-awaited t at ds h))
  | inr e ↦ rw e (ground (arith, held-awaited t at ds h))
]

awaited-le : (at : ℕ) (flying : List ℕ) → length (awaited at flying) ≤ length flying
awaited-le at [] = omega arith
awaited-le at (d ∷ ds) = ground (arith, awaited-le at ds)

the_later-ge : (a b : ℕ) → (a ≤ the_later a b) × (b ≤ the_later a b)
the_later-ge a b = (ground arith, ground arith)

module _ (max t : ℕ) where
  -- Before the dispatcher comes to a request nothing of it is in flight.
  not_yet :
      (prev : ℕ) (flying : List ℕ) (sends : List (ℕ × Send))
      → t < prev
      → in_flight t (dispatch max prev flying sends) ≡ 0
  unfolding dispatch sum
  not_yet prev flying [] h = refl
  not_yet prev flying ((due, s) ∷ rest) h =
      let at = dispatched_at due prev s in
      let free = awaited at flying in
      let after = (the_later-ge due prev).1 in
      let early : leb at t ≡ false = ground arith in
      let none_yet =
        not_yet at (acquire (has_room max free) (at + s.took) free) rest (omega arith) in
      elim (Bool-cases (has_room max free)) [
        | inl e ↦ rw (e, early) (omega (arith, rw e at none_yet))
        | inr e ↦ rw e (omega (arith, rw e at none_yet))
      ]

  bounded :
      (prev : ℕ) (flying : List ℕ) (sends : List (ℕ × Send))
      → length flying ≤ max
      → in_flight t (dispatch max prev flying sends) + held t flying ≤ max
  unfolding dispatch sum
  bounded prev flying [] h = omega (arith, held-le t flying)
  bounded prev flying ((due, s) ∷ rest) h =
      let at = dispatched_at due prev s in
      let free = awaited at flying in
      let next = acquire (has_room max free) (at + s.took) free in
      let fewer = awaited-le at flying in
      let most = held-le t flying in
      let fits : length next ≤ max = ground arith in
      let more = bounded at next rest fits in
      elim (Bool-cases (leb at t)) [
        | inl reached ↦
            let same = held-awaited t at flying (ground arith) in
            elim (Bool-cases (has_room max free)) [
              | inl e ↦ let more' = rw e at more in rw (e, reached) (omega arith)
              | inr e ↦ let more' = rw e at more in rw e (omega arith)
            ]
        | inr early ↦
            let none_yet = not_yet at next rest (ground arith) in
            elim (Bool-cases (has_room max free)) [
              | inl e ↦ let none' = rw e at none_yet in rw (e, early) (omega arith)
              | inr e ↦ let none' = rw e at none_yet in rw e (omega arith)
            ]
      ]

in_flight-le : (max t : ℕ) (sends : List (ℕ × Send)) → in_flight t (dispatch max 0 [] sends) ≤ max
in_flight-le max t sends = let b = bounded max t 0 [] sends (omega arith) in omega arith

-- What is recorded of a request that the dispatcher comes to at a time, the one before at `prev`, with
-- the times at which what has been sent before is answered. The dispatcher is there at its own delay after
-- the later of the two, when the request is due and when it was there before. The request is sent just
-- where fewer than `max` answers are awaited, and then its latency runs from when it was due to its
-- answer; the lag runs from when it was due in any case.
pub record IsTimed (max prev : ℕ) (dones : List ℕ) (due : ℕ) (s : Send) (at : ℕ) (r : Sample)
    : Type 0 where
  pub not_early : due + s.delay ≤ at
  pub in_turn : prev + s.delay ≤ at
  pub no_later : (at ≡ due + s.delay) ⊎ (at ≡ prev + s.delay)
  pub lag : due + r.lag ≡ at
  pub recorded :
      ((held at dones < max)
        × (r.sent ≡ true)
        × (r.outcome ≡ s.outcome)
        × (r.service ≡ s.took)
        × (due + r.arrival ≡ at + s.took))
      ⊎ ((max ≤ held at dones) × (r.sent ≡ false) × (r.outcome ≡ Outcomes.generator_saturated))

abbrev pub with_done : Bool → ℕ → List ℕ → List ℕ
with_done sent done dones = if sent then done ∷ dones else dones

-- One sample for each request, in their order.
abbrev pub AreTimed : ℕ → ℕ → List ℕ → List (ℕ × Send) → List Sample → Type 0
AreTimed max prev dones [] [] = Unit
AreTimed max prev dones ((due, s) ∷ ps) (r ∷ rs) =
    (at : ℕ) × IsTimed max prev dones due s at r
    × AreTimed max at (with_done r.sent (at + s.took) dones) ps rs
AreTimed max prev dones _ _ = ⊥

-- The places that are held, among the answers that are still awaited or among all that were sent.
length-awaited : (at : ℕ) (flying : List ℕ) → length (awaited at flying) ≡ held at flying
unfolding sum
length-awaited at [] = refl
length-awaited at (d ∷ ds) = ground (arith, length-awaited at ds)

module _ (max prev due : ℕ) (dones : List ℕ) (s : Send) where
  abbrev at : ℕ
  at = dispatched_at due prev s

  fire-IsTimed :
      (room : Bool)
      → room ≡ ltb (held at dones) max
      → IsTimed max prev dones due s at (sample (fire room due at s))
  fire-IsTimed false full =
      let (a, b) = the_later-ge due prev in
      record {
        not_early = omega arith;
        in_turn = omega arith;
        no_later = ground arith;
        lag = omega arith;
        recorded = inr (ground arith, refl, refl);
      }
  fire-IsTimed true free =
      let (a, b) = the_later-ge due prev in
      record {
        not_early = omega arith;
        in_turn = omega arith;
        no_later = ground arith;
        lag = omega arith;
        recorded = inl (ground arith, refl, refl, omega arith, omega arith);
      }

-- The places that the dispatcher counts at a time are those of the answers beyond it.
abbrev Agree : ℕ → List ℕ → List ℕ → Type 0
Agree prev flying dones = (t : ℕ) → prev ≤ t → held t flying ≡ held t dones

agree-later :
    (room : Bool) (due : ℕ) (s : Send) (at prev : ℕ) (flying dones : List ℕ)
    → prev ≤ at
    → Agree prev flying dones
    → Agree at
        (acquire room (at + s.took) (awaited at flying))
        (with_done (sample (fire room due at s)).sent (at + s.took) dones)
unfolding sum
agree-later false due s at prev flying dones h agree t later =
    held-awaited t at flying later ∙ agree t (omega arith)
agree-later true due s at prev flying dones h agree t later =
    let rest = held-awaited t at flying later in
    let before = agree t (omega arith) in omega (arith, rest, before)

samples-AreTimed :
    (max prev : ℕ) (flying dones : List ℕ) (sends : List (ℕ × Send))
    → Agree prev flying dones
    → AreTimed max prev dones sends (map sample (dispatch max prev flying sends))
unfolding dispatch
samples-AreTimed max prev flying dones [] agree = tt
samples-AreTimed max prev flying dones ((due, s) ∷ rest) agree =
    let at = dispatched_at due prev s in
    let free = awaited at flying in
    let (a, b) = the_later-ge due prev in
    let counted = length-awaited at flying in
    let same = agree at (omega arith) in
    let room : has_room max free ≡ ltb (held at dones) max = ap (λ n. ltb n max) (counted ∙ same) in
    (
      at,
      fire-IsTimed max prev due dones s (has_room max free) room,
      samples-AreTimed max at (acquire (has_room max free) (at + s.took) free)
          (with_done (sample (fire (has_room max free) due at s)).sent (at + s.took) dones) rest
          (agree-later (has_room max free) due s at prev flying dones (omega arith) agree),
    )

-- Every request of the schedule has its sample. It is sent just where fewer than `max` of the requests
-- before it are still to be answered when the dispatcher comes to it, which it does at no time of its
-- own choosing: its delay after the request is due, or after it was there before, whichever is later. One
-- that is sent is measured from when it was due to its answer, so what the dispatcher is late counts
-- as latency; one that is not is marked as never sent. And at no time are more than `max` in flight.
pub dispatch-AreTimed :
    (max t : ℕ) (sends : List (ℕ × Send))
    → AreTimed max 0 [] sends (map sample (dispatch max 0 [] sends))
      × (in_flight t (dispatch max 0 [] sends) ≤ max)
dispatch-AreTimed max t sends =
    (samples-AreTimed max 0 [] [] sends (λ t h. refl), in_flight-le max t sends)
