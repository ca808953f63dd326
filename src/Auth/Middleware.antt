-- ===== src/Auth/Middleware.antt =====
-- Who is let through to a handler (internal/auth/middleware.go): Middleware and RequireGroup.
pub mod Admission
use Prim.Native.Char.{Char, code}
use Prim.Native.String.{[] as empty, ◌∷◌ as char_then}
use doorbust.Base.{ℕ, String, Bool, true, false, Option, none, some, ◌==◌, if◌then◌else◌}
use doorbust.Auth.{Claims, has_group}

-- What follows a prefix; `none` where the text does not begin with it.
unfoldable pub strip_prefix : String → String → Option String
strip_prefix empty s = some s
strip_prefix (char_then c p) empty = none
strip_prefix (char_then c p) (char_then d s) = if code c == code d then strip_prefix p s else none

-- The Authorization header, "" where there is none, and the identity on the context.
pub record HttpRequest : Type 0 where
  pub authorization : String
  pub claims : Option Claims

-- An error with its status, or the answer of the handler behind.
pub data Response {ℓ} (A : Type ℓ) : Type ℓ where
  refused : ℕ → Response A
  served : A → Response A

abbrev pub Handler {ℓ} : Type ℓ → Type ℓ
Handler A = HttpRequest → Response A

abbrev pub bearer_token : HttpRequest → Option String
bearer_token r = strip_prefix "Bearer " r.authorization

-- The verifier answers `none` where it rejects a token.
abbrev verified {ℓ} : {A : Type ℓ} → Handler A → HttpRequest → Option Claims → Response A
verified next r none = refused 401
verified next r (some claims) = next (record r { claims = some claims })

abbrev with_token {ℓ} :
    {A : Type ℓ} → (String → Option Claims) → Handler A → HttpRequest → Option String → Response A
with_token verify next r none = refused 401
with_token verify next r (some token) = verified next r (verify token)

unfoldable pub middleware {ℓ} : {A : Type ℓ} → (String → Option Claims) → Handler A → Handler A
middleware verify next r = with_token verify next r (bearer_token r)

abbrev permitted {ℓ} : {A : Type ℓ} → String → Handler A → HttpRequest → Option Claims → Response A
permitted group next r none = refused 401
permitted group next r (some claims) = if has_group claims group then next r else refused 403

unfoldable pub require_group {ℓ} : {A : Type ℓ} → String → Handler A → Handler A
require_group group next r = permitted group next r r.claims
