-- ===== src/Bench/Workload/Plans.antt =====
-- The stock and the choice of a shape.
use Prim.Native.Nat.{◌/◌}
use native.Mathlib.Nat.{mod-lt}
use doorbust.Base.{
  ℕ, ◌+◌, ◌*◌, ◌≤◌, ◌<◌, String, true, ltb, str_eq, eq_iff, ◌≡◌, refl, ◌⊎◌, none, some, Bool-cases,
  inl, inr, arith,
}
use doorbust.Orders.Handler.{pos, two_31}
use doorbust.Orders.Handler.Limits.{int32-small}
use doorbust.Bench.Workload.{
  Plan, plan_for, deep, hot_deep, doorbuster, uncontended, zipf, spread, at_least_one,
}

-- The plan is that of its shape; a product is chosen that has been seeded; there is stock, and more
-- of it than requests but for the doorbuster.
pub record IsFit (requests i draw : ℕ) (shape : String) (plan : Plan) : Type 0 where
  pub named : plan.name ≡ shape
  pub quantity : ℕ
  pub stocked : plan.quantity ≡ pos quantity
  pub positive : 1 ≤ quantity
  pub in_range : plan.pick i draw < plan.skus
  pub never_dry : (requests < quantity) ⊎ (shape ≡ "doorbuster")

module _ (requests i draw : ℕ) (few : requests * 10 + 1000 < two_31) (drawn : draw < 1000) where
  deep-stock : deep requests ≡ pos (requests * 10 + 1000)
  deep-stock = int32-small (requests * 10 + 1000) few

  hot_deep-IsFit : IsFit requests i draw "hot-deep" (hot_deep requests)
  hot_deep-IsFit = record {
    named = refl;
    quantity = requests * 10 + 1000;
    stocked = deep-stock;
    positive = omega arith;
    in_range = omega arith;
    never_dry = inl (omega arith);
  }

  tiny-stock : (n : ℕ) → (q : ℕ) × (at_least_one (pos n) ≡ pos q) × (1 ≤ q)
  tiny-stock n = elim (Bool-cases (ltb n 1)) [
    | inl e ↦ rw e (1, refl, omega arith)
    | inr e ↦ rw e (n, refl, ground arith)
  ]

  doorbuster-IsFit : IsFit requests i draw "doorbuster" (doorbuster requests)
  doorbuster-IsFit =
      let (q, stocked, positive) = tiny-stock (requests / 100) in
      let small = int32-small (requests / 100) (omega arith) in
      record {
        named = refl;
        quantity = q;
        stocked = rw small stocked;
        positive = positive;
        in_range = omega arith;
        never_dry = inr refl;
      }

  spread-positive : 0 < spread requests
  spread-positive = elim (Bool-cases (ltb (requests / 10) 64)) [
    | inl e ↦ rw e (omega arith)
    | inr e ↦ rw e (ground arith)
  ]

  uncontended-IsFit : IsFit requests i draw "uncontended" (uncontended requests)
  uncontended-IsFit = record {
    named = refl;
    quantity = requests * 10 + 1000;
    stocked = deep-stock;
    positive = omega arith;
    in_range = mod-lt i spread-positive;
    never_dry = inl (omega arith);
  }

  zipf-IsFit : IsFit requests i draw "zipf" (zipf requests)
  zipf-IsFit = record {
    named = refl;
    quantity = requests * 10 + 1000;
    stocked = deep-stock;
    positive = omega arith;
    in_range = drawn;
    never_dry = inl (omega arith);
  }

  same_plan :
      (shape name : String) (p plan : Plan)
      → str_eq shape name ≡ true
      → some p ≡ some plan
      → IsFit requests i draw name p
      → IsFit requests i draw shape plan
  same_plan shape name p plan named found fit =
      let same : plan ≡ p = cc in let word = (eq_iff shape name).0 named in rw word (rw same fit)

  no_plan : (plan : Plan) → none ≡ some plan → ⊥
  no_plan plan h = cc

  -- A run of fewer than two hundred million requests gets the plan of its shape: what is chosen for a
  -- request has been seeded, there is stock, and it exceeds the requests for every shape but the
  -- doorbuster, so that it cannot run dry. The draw of rand.Zipf is below its bound.
  pub plan_for-IsFit :
      (shape : String) (plan : Plan)
      → plan_for shape requests ≡ some plan
      → IsFit requests i draw shape plan
  unfolding plan_for
  plan_for-IsFit shape plan h = elim (Bool-cases (str_eq shape "hot-deep")) [
    | inl hot ↦ same_plan shape "hot-deep" (hot_deep requests) plan hot (rw hot at h) hot_deep-IsFit
    | inr a ↦ elim (Bool-cases (str_eq shape "doorbuster")) [
      | inl tiny ↦
          same_plan shape "doorbuster" (doorbuster requests) plan tiny (rw tiny at (rw a at h))
            doorbuster-IsFit
      | inr b ↦ elim (Bool-cases (str_eq shape "uncontended")) [
        | inl wide ↦
            same_plan shape "uncontended" (uncontended requests) plan wide
              (rw wide at (rw b at (rw a at h))) uncontended-IsFit
        | inr c ↦ elim (Bool-cases (str_eq shape "zipf")) [
          | inl long ↦
              same_plan shape "zipf" (zipf requests) plan long
                (rw long at (rw c at (rw b at (rw a at h)))) zipf-IsFit
          | inr d ↦ absurd (no_plan plan (rw d at (rw c at (rw b at (rw a at h)))))
        ]
      ]
    ]
  ]
