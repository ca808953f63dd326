-- ===== src/Auth/Middleware/Admission.antt =====
-- Which requests reach the handler behind Middleware and RequireGroup.
use Prim.Native.Char.{code}
use Prim.Native.String.{[] as empty, ◌∷◌ as char_then, ◌++◌}
use Prim.Native.String.append
use text.Mathlib.TextEquality.{Char-path}
use mathlib.Core.List.{Memᴰ}
use doorbust.Base.{
  ◌≢◌, String, Bool, true, false, List, [], ◌∷◌, Option, none, some, ◌==◌, ==→eq, ==-same,
  Bool-cases, Option-cases, str_eq, eq_iff, ◌≡◌, refl, sym, ap, ◌∙◌, ◌⊎◌, inl, inr, ◌||◌,
}
use doorbust.Auth.{Claims, contains, has_group}
use doorbust.Auth.Middleware.{
  HttpRequest, refused, Handler, strip_prefix, bearer_token, middleware, require_group,
}

strip_prefix-append : (p s : String) → strip_prefix p (p ++ s) ≡ some s
unfolding strip_prefix
strip_prefix-append empty s = ap some (append.nil s)
strip_prefix-append (char_then c p) s =
    rw (append.cons c p s) (rw (==-same (code c)) (strip_prefix-append p s))

strip_prefix-some : (p s rest : String) → strip_prefix p s ≡ some rest → s ≡ p ++ rest
unfolding strip_prefix
strip_prefix-some empty s rest h = let e = append.nil rest in cc
strip_prefix-some (char_then c p) empty rest h = cc
strip_prefix-some (char_then c p) (char_then d s) rest h = elim (Bool-cases (code c == code d)) [
  | inl e ↦
      let same : c ≡ d = Char-path c d (==→eq (code c) (code d) e) in
      let tail : s ≡ p ++ rest = strip_prefix-some p s rest (rw e at h) in
      let whole = append.cons c p rest in cc
  | inr e ↦ let bad : none ≡ some rest = rw e at h in cc
]

contains-Memᴰ : (ys : List String) (x : String) → contains ys x ≡ true → Memᴰ x ys
unfolding contains
contains-Memᴰ [] x h = cc
contains-Memᴰ (y ∷ ys) x h = elim (Bool-cases (str_eq y x)) [
  | inl e ↦ Memᴰ.head (sym ((eq_iff y x).0 e))
  | inr e ↦ Memᴰ.tail (contains-Memᴰ ys x (rw e at h))
]

or_true : (b : Bool) → (b || true) ≡ true
or_true true = refl
or_true false = refl

Memᴰ-contains : (ys : List String) (x : String) → Memᴰ x ys → contains ys x ≡ true
unfolding contains
Memᴰ-contains [] x m = elim m [ ]
Memᴰ-contains (y ∷ ys) x (Memᴰ.head e) = rw ((eq_iff y x).1 (sym e)) refl
Memᴰ-contains (y ∷ ys) x (Memᴰ.tail m) = rw (Memᴰ-contains ys x m) (or_true (str_eq y x))

-- The caller that the verifier finds behind the token of the header.
pub record IsCaller (verify : String → Option Claims) (r : HttpRequest) (claims : Claims)
    : Type 0 where
  pub token : String
  pub header : r.authorization ≡ "Bearer " ++ token
  pub valid : verify token ≡ some claims

bearer :
    (r : HttpRequest) (token : String)
    → bearer_token r ≡ some token
    → r.authorization ≡ "Bearer " ++ token
bearer r token h = strip_prefix-some "Bearer " r.authorization token h

caller-token :
    (verify : String → Option Claims) (r : HttpRequest) (claims : Claims)
    → IsCaller verify r claims
    → (token : String) → bearer_token r ≡ some token
    → verify token ≡ some claims
caller-token verify r claims caller token h =
    let found : bearer_token r ≡ some caller.token =
      rw caller.header (strip_prefix-append "Bearer " caller.token) in
    let valid = caller.valid in cc

caller-bearer :
    (verify : String → Option Claims) (r : HttpRequest) (claims : Claims)
    → IsCaller verify r claims
    → bearer_token r ≢ none
caller-bearer verify r claims caller h =
    let found : bearer_token r ≡ some caller.token =
      rw caller.header (strip_prefix-append "Bearer " caller.token) in
    cc

module _ {ℓ} {A : Type ℓ} (verify : String → Option Claims) (next : Handler A)
    (r : HttpRequest) where
  is_caller :
      (token : String) (claims : Claims)
      → bearer_token r ≡ some token
      → verify token ≡ some claims
      → IsCaller verify r claims
  is_caller token claims e v = record { token = token; header = bearer r token e; valid = v }

  nobody :
      (token : String)
      → bearer_token r ≡ some token
      → verify token ≡ none
      → (claims : Claims) → IsCaller verify r claims
      → ⊥
  nobody token e v claims caller = let same = caller-token verify r claims caller token e in cc

  -- Middleware lets a request through where the header carries a token that is valid.
  pub middleware-cases :
      ((claims : Claims) × IsCaller verify r claims
        × (middleware verify next r ≡ next (record r { claims = some claims })))
      ⊎ (((claims : Claims) → IsCaller verify r claims → ⊥)
          × (middleware verify next r ≡ refused 401))
  unfolding middleware
  middleware-cases = elim (Option-cases (bearer_token r)) [
    | inl e ↦ inr (λ claims caller. caller-bearer verify r claims caller e, rw e refl)
    | inr (token, e) ↦ elim (Option-cases (verify token)) [
      | inl v ↦ inr (λ claims caller. nobody token e v claims caller, rw e (rw v refl))
      | inr (claims, v) ↦ inl (claims, is_caller token claims e v, rw e (rw v refl))
    ]
  ]

module _ {ℓ} {A : Type ℓ} (group : String) (next : Handler A) (r : HttpRequest)
    (claims : Claims) where
  inside : has_group claims group ≡ true → Memᴰ group claims.groups
  unfolding has_group
  inside m = contains-Memᴰ claims.groups group m

  outside : has_group claims group ≡ false → Memᴰ group claims.groups → ⊥
  unfolding has_group
  outside m mem = let found = Memᴰ-contains claims.groups group mem in cc

  -- RequireGroup, behind Middleware.
  pub require_group-member :
      (Memᴰ group claims.groups
        × (require_group group next (record r { claims = some claims })
            ≡ next (record r { claims = some claims })))
      ⊎ ((Memᴰ group claims.groups → ⊥)
          × (require_group group next (record r { claims = some claims }) ≡ refused 403))
  unfolding require_group
  require_group-member = elim (Bool-cases (has_group claims group)) [
    | inl m ↦ inl (inside m, rw m refl)
    | inr m ↦ inr (outside m, rw m refl)
  ]

module _ {ℓ} {A : Type ℓ} (verify : String → Option Claims) (group : String) (next : Handler A)
    (r : HttpRequest) where
  -- A request for a route of a group reaches the handler, with the caller's identity, where the header
  -- carries a token that is valid and its caller is in the group. It is answered by 403 where the
  -- caller is not in the group, and by 401 where there is no caller.
  pub require_group-cases :
      ((claims : Claims) × IsCaller verify r claims
        × Memᴰ group claims.groups
        × (middleware verify (require_group group next) r
            ≡ next (record r { claims = some claims })))
      ⊎ ((claims : Claims) × IsCaller verify r claims
          × ((Memᴰ group claims.groups) → ⊥)
          × (middleware verify (require_group group next) r ≡ refused 403))
      ⊎ (((claims : Claims) → IsCaller verify r claims → ⊥)
          × (middleware verify (require_group group next) r ≡ refused 401))
  require_group-cases = elim (middleware-cases verify (require_group group next) r) [
    | inl (claims, caller, through) ↦ elim (require_group-member group next r claims) [
      | inl (m, e) ↦ inl (claims, caller, m, through ∙ e)
      | inr (m, e) ↦ inr (inl (claims, caller, m, through ∙ e))
    ]
    | inr h ↦ inr (inr h)
  ]
