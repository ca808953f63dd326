-- ===== src/Orders/ByName.antt =====
-- What holds of the three arms holds of every strategy that has a name.
use doorbust.Base.{String, ◌≡◌, true, false, Option, none, some, str_eq, Bool-cases, inl, inr}
use mathlib.Core.Path.{subst}
use doorbust.Customers.{Resolver}
use doorbust.Orders.Strategies.{
  Strategy, txn_reserve, cte_reserve, strategy_by_name, strategy_baseline, strategy_reserve_last,
  strategy_cte,
}

abbrev pub Each : (Strategy → Type 0) → Option Strategy → Type 0
Each P none = Unit
Each P (some arm) = P arm

module _ (P : Strategy → Type 0) (resolve : Resolver) (baseline : P (txn_reserve resolve false))
    (reserve_last : P (txn_reserve resolve true)) (cte : P (cte_reserve resolve)) where
  pub strategy_by_name-Each : (name : String) → Each P (strategy_by_name name resolve)
  unfolding strategy_by_name
  strategy_by_name-Each name = elim (Bool-cases (str_eq name "")) [
    | inl e ↦ rw e baseline
    | inr e ↦ rw e (elim (Bool-cases (str_eq name strategy_baseline)) [
      | inl e ↦ rw e baseline
      | inr e ↦ rw e (elim (Bool-cases (str_eq name strategy_reserve_last)) [
        | inl e ↦ rw e reserve_last
        | inr e ↦
            rw e
              (elim (Bool-cases (str_eq name strategy_cte)) [ inl e ↦ rw e cte | inr e ↦ rw e tt ])
      ])
    ])
  ]

  pub strategy_by_name-all :
      (name : String) (arm : Strategy) → strategy_by_name name resolve ≡ some arm → P arm
  strategy_by_name-all name arm e = subst (Each P) e (strategy_by_name-Each name)
