-- ===== src/Bench/Execution/Permission.antt =====
-- What must hold before a run touches a database.
use doorbust.Base.{Bool, true, false, str_eq, ◌≡◌, ◌⊎◌, List, [], ◌∷◌}
use doorbust.Bench.Workload.Target.{IsMarked}
use doorbust.Bench.Execution.{
  Options, Surroundings, Mark, git_sha, git_dirty, enough_files, check_memory_budget,
}

abbrev pub is_touched : List Mark → Bool
is_touched [] = false
is_touched (m ∷ ms) = true

-- The commit is known and clean unless a dirty one is allowed, the machine holds the run, and the
-- database's name has the marker unless that is waived.
pub record IsPermitted (o : Options) (out : Surroundings) : Type 0 where
  pub attributed : (str_eq (git_sha o out) "" ≡ false) ⊎ (o.allow_dirty ≡ true)
  pub clean : (git_dirty o out ≡ false) ⊎ (o.allow_dirty ≡ true)
  pub target : IsMarked o.dsn_path ⊎ (o.allow_unsafe_target ≡ true)
  pub files : enough_files o.max_in_flight out.file_limit ≡ true
  pub memory : check_memory_budget o.max_in_flight out.available_bytes ≡ true
