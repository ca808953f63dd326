-- ===== src/Bench/Workload.antt =====
-- bench/internal/workload: what a run is pointed at (guard.go), and its shapes (shapes.go).
pub mod Target
pub mod Plans
use Prim.Native.Nat.{◌/◌}
use Prim.Native.Char.{code}
use Prim.Native.String.{[] as empty, ◌∷◌ as char_then}
use doorbust.Base.{
  ℕ, ◌+◌, ◌*◌, ◌%◌, String, Bool, true, false, ltb, leb, ◌==◌, ◌&&◌, ◌||◌, str_eq, Option, none,
  some, List, [], ◌∷◌, if◌then◌else◌,
}
use doorbust.Orders.Handler.{ℤ, pos, negsuc, int32}

-- A text as the numbers of its characters.
abbrev pub codes : String → List ℕ
codes empty = []
codes (char_then c s) = code c ∷ codes s

-- strings.ToLower, as far as ASCII goes: no other letter becomes one of the marker's.
abbrev pub lower : ℕ → ℕ
lower c = if leb 65 c && leb c 90 then c + 32 else c

abbrev pub to_lower : String → List ℕ
to_lower empty = []
to_lower (char_then c s) = lower (code c) ∷ to_lower s

unfoldable pub has_prefix : List ℕ → List ℕ → Bool
has_prefix [] t = true
has_prefix (c ∷ p) [] = false
has_prefix (c ∷ p) (d ∷ t) = let rest = has_prefix p t in if c == d then rest else false

-- strings.Contains
unfoldable pub has_infix : List ℕ → List ℕ → Bool
has_infix [] m = has_prefix m []
has_infix (c ∷ t) m = has_prefix m (c ∷ t) || has_infix t m

abbrev pub safe_marker : String
safe_marker = "bench"

pub data Refusal : Type 0 where
  unparsable_dsn no_database unsafe_target : Refusal

-- strings.TrimPrefix(u.Path, "/")
abbrev pub trim_slash : String → String
trim_slash empty = empty
trim_slash (char_then c s) = if code c == 47 then s else char_then c s

-- The path that url.Parse finds in the DSN; `none` is its error.
abbrev pub database_name : Option String → Option String
database_name none = none
database_name (some path) = some (trim_slash path)

abbrev marked : Option String → Option Refusal
marked none = some unparsable_dsn
marked (some name) =
    if str_eq name ""
    then some no_database
    else if has_infix (to_lower name) (codes safe_marker)
    then none
    else some unsafe_target

-- `none` lets the run go on.
unfoldable pub check_target : Option String → Bool → Option Refusal
check_target path override = if override then none else marked (database_name path)

-- What a shape comes to; `pick` gets the number of the request and what rand.Zipf draws for it, below 1000.
pub record Plan : Type 0 where
  pub name : String
  pub skus : ℕ
  pub quantity : ℤ
  pub pick : ℕ → ℕ → ℕ

-- int32(requests)*10 + 1000, in 32 bits: the wrapped sum of the wrapped terms is the wrapped sum.
abbrev pub deep : ℕ → ℤ
deep requests = int32 (requests * 10 + 1000)

abbrev pub at_least_one : ℤ → ℤ
at_least_one (pos n) = if ltb n 1 then pos 1 else pos n
at_least_one (negsuc n) = pos 1

abbrev pub spread : ℕ → ℕ
spread requests = let skus = requests / 10 in if ltb skus 64 then 64 else skus

abbrev pub hot_deep : ℕ → Plan
hot_deep requests = record {
  name = "hot-deep";
  skus = 1;
  quantity = deep requests;
  pick = λ i draw. 0;
}

abbrev pub doorbuster : ℕ → Plan
doorbuster requests = record {
  name = "doorbuster";
  skus = 1;
  quantity = at_least_one (int32 (requests / 100));
  pick = λ i draw. 0;
}

abbrev pub uncontended : ℕ → Plan
uncontended requests = record {
  name = "uncontended";
  skus = spread requests;
  quantity = deep requests;
  pick = λ i draw. i % spread requests;
}

abbrev pub zipf : ℕ → Plan
zipf requests = record {
  name = "zipf";
  skus = 1000;
  quantity = deep requests;
  pick = λ i draw. draw;
}

unfoldable pub plan_for : String → ℕ → Option Plan
plan_for shape requests =
    if str_eq shape "hot-deep"
    then some (hot_deep requests)
    else if str_eq shape "doorbuster"
    then some (doorbuster requests)
    else if str_eq shape "uncontended"
    then some (uncontended requests)
    else if str_eq shape "zipf"
    then some (zipf requests)
    else none
