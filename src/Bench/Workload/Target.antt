-- ===== src/Bench/Workload/Target.antt =====
-- Which databases a run may empty.
use doorbust.Base.{
  ℕ, String, true, false, ◌≡◌, refl, ◌==◌, ==→eq, str_eq, Option, none, some, List, [], ◌∷◌, ◌++◌,
  Bool-cases, inl, inr,
}
use doorbust.Bench.Workload.{
  codes, to_lower, has_prefix, has_infix, safe_marker, database_name, check_target, trim_slash,
  no_database, unsafe_target,
}

-- The text stands somewhere in the other.
pub record IsInfix (m t : List ℕ) : Type 0 where
  pub before : List ℕ
  pub behind : List ℕ
  pub split : t ≡ before ++ m ++ behind

has_prefix-split : (m t : List ℕ) → has_prefix m t ≡ true → (behind : List ℕ) × (t ≡ m ++ behind)
unfolding has_prefix
has_prefix-split [] t h = (t, refl)
has_prefix-split (c ∷ m) [] h = cc
has_prefix-split (c ∷ m) (d ∷ t) h = elim (Bool-cases (c == d)) [
  | inl e ↦
      let (behind, split) = has_prefix-split m t (rw e at h) in
      (behind, rw (==→eq c d e, split) refl)
  | inr e ↦ let impossible : false ≡ true = rw e at h in cc
]

has_infix-IsInfix : (t m : List ℕ) → has_infix t m ≡ true → IsInfix m t
unfolding has_infix
has_infix-IsInfix [] m h =
    let (behind, split) = has_prefix-split m [] h in
    record { before = []; behind = behind; split = split }
has_infix-IsInfix (c ∷ t) m h = elim (Bool-cases (has_prefix m (c ∷ t))) [
  | inl e ↦
      let (behind, split) = has_prefix-split m (c ∷ t) e in
      record { before = []; behind = behind; split = split }
  | inr e ↦
      let rest = has_infix-IsInfix t m (rw e at h) in
      record { before = c ∷ rest.before; behind = rest.behind; split = rw rest.split refl }
]

-- The DSN names a database whose name has the marker in it, in letters of either case.
pub record IsMarked (path : Option String) : Type 0 where
  pub name : String
  pub named : database_name path ≡ some name
  pub marked : IsInfix (codes safe_marker) (to_lower name)

pub check_target-IsMarked : (path : Option String) → check_target path false ≡ none → IsMarked path
unfolding check_target
check_target-IsMarked none h = cc
check_target-IsMarked (some path) h =
    let name = trim_slash path in
    elim (Bool-cases (str_eq name "")) [
      | inl e ↦ let impossible : some no_database ≡ none = rw e at h in cc
      | inr e ↦ elim (Bool-cases (has_infix (to_lower name) (codes safe_marker))) [
        | inl marker ↦ record {
          name = name;
          named = refl;
          marked = has_infix-IsInfix (to_lower name) (codes safe_marker) marker;
        }
        | inr marker ↦ let impossible : some unsafe_target ≡ none = rw marker at (rw e at h) in cc
      ]
    ]
