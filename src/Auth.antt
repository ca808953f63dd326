-- ===== src/Auth.antt =====
-- The caller of a request (internal/auth/middleware.go).
pub mod Middleware
use doorbust.Base.{String, Bool, false, List, [], ◌∷◌, ◌||◌, str_eq}

pub record Claims : Type 0 where
  pub subject : String
  pub email : String
  pub groups : List String

-- Go's slices.Contains.
unfoldable pub contains : List String → String → Bool
contains [] x = false
contains (y ∷ ys) x = str_eq y x || contains ys x

unfoldable pub has_group : Claims → String → Bool
has_group claims group = contains claims.groups group
