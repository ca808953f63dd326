-- ===== src/Base/Decimal.antt =====
-- Numbers as texts: what Go's %d prints of a number that is not negative, and its reader.
use Prim.Native.Nat.{ℕ, zero, suc, ◌+◌, ◌-◌, ◌*◌, ◌≤◌, ◌<◌, ◌/◌, ◌%◌}
use Prim.Native.Char.{Char, code}
use Prim.Native.String.{String, [] as empty, ◌∷◌ as char_then}
use mathlib.Core.Path.{◌≡◌, refl, ap, ◌∙◌}
use mathlib.Core.Logic.{inl, inr}
use native.Mathlib.Omega.{arith}
use doorbust.Base.Tests.{ltb, if◌then◌else◌, Bool-cases}

abbrev digit : ℕ → Char
digit zero = "0"
digit (suc zero) = "1"
digit (suc (suc zero)) = "2"
digit (suc (suc (suc zero))) = "3"
digit (suc (suc (suc (suc zero)))) = "4"
digit (suc (suc (suc (suc (suc zero))))) = "5"
digit (suc (suc (suc (suc (suc (suc zero)))))) = "6"
digit (suc (suc (suc (suc (suc (suc (suc zero))))))) = "7"
digit (suc (suc (suc (suc (suc (suc (suc (suc zero)))))))) = "8"
digit _ = "9"

-- The digits of a number before a text, on fuel.
unfoldable digits : ℕ → ℕ → String → String
digits zero n rest = char_then (digit (n % 10)) rest
digits (suc fuel) n rest =
    let more = digits fuel (n / 10) (char_then (digit (n % 10)) rest) in
    if ltb n 10 then char_then (digit n) rest else more

-- %d; a number has fewer digits than units.
unfoldable pub decimal : ℕ → String
unfolding digits
decimal n = digits n n empty

-- The number that a text of digits reads as, after the digits that have been read.
unfoldable pub value : ℕ → String → ℕ
value acc empty = acc
value acc (char_then c s) = value (acc * 10 + (code c - 48)) s

code-digit : (d : ℕ) → d < 10 → code (digit d) - 48 ≡ d
code-digit zero h = refl
code-digit (suc zero) h = refl
code-digit (suc (suc zero)) h = refl
code-digit (suc (suc (suc zero))) h = refl
code-digit (suc (suc (suc (suc zero)))) h = refl
code-digit (suc (suc (suc (suc (suc zero))))) h = refl
code-digit (suc (suc (suc (suc (suc (suc zero)))))) h = refl
code-digit (suc (suc (suc (suc (suc (suc (suc zero))))))) h = refl
code-digit (suc (suc (suc (suc (suc (suc (suc (suc zero)))))))) h = refl
code-digit (suc (suc (suc (suc (suc (suc (suc (suc (suc zero))))))))) h = refl
code-digit (suc (suc (suc (suc (suc (suc (suc (suc (suc (suc n)))))))))) h = absurd (omega arith)

value-one :
    (acc d : ℕ) (rest : String)
    → d < 10
    → value acc (char_then (digit d) rest) ≡ value (acc * 10 + d) rest
unfolding value
value-one acc d rest h = rw (code-digit d h) refl

value-first : (d : ℕ) (rest : String) → d < 10 → value 0 (char_then (digit d) rest) ≡ value d rest
value-first d rest h =
    let shift : 0 * 10 + d ≡ d = omega arith in
    value-one 0 d rest h ∙ ap (λ (m : ℕ). value m rest) shift

value-digits :
    (fuel n : ℕ) (rest : String) → n < fuel + 10 → value 0 (digits fuel n rest) ≡ value n rest
unfolding digits
value-digits zero n rest h =
    let small : n % 10 ≡ n = ground arith in rw small (value-first n rest (omega arith))
value-digits (suc fuel) n rest h = elim (Bool-cases (ltb n 10)) [
  | inl e ↦ rw e (value-first n rest (ground arith))
  | inr e ↦
      let large : 10 ≤ n = ground arith in
      let last : n % 10 < 10 = omega arith in
      let whole : (n / 10) * 10 + n % 10 ≡ n = omega arith in
      rw e (
        value-digits fuel (n / 10) (char_then (digit (n % 10)) rest) (omega arith)
        ∙ value-one (n / 10) (n % 10) rest last
        ∙ ap (λ (m : ℕ). value m rest) whole)
]

-- What is printed reads as the number.
pub value-decimal : (n : ℕ) → value 0 (decimal n) ≡ n
unfolding decimal value
value-decimal n = value-digits n n empty (omega arith)
