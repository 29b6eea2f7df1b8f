-- ===== src/Strconv/RoundTrip.antt =====
-- Printing a number and reading it back.
use Prim.Native.String.{◌∷◌}
use pulseha.Base.{
  ℕ, zero, suc, ◌+◌, ◌*◌, ◌/◌, ◌%◌, ◌^◌, ◌<◌, ◌≤◌, String, Char, code, true, some, ltb, ◌≡◌, refl,
  ap, ◌∙◌, arith, Bool-cases, inl, inr,
}
use pulseha.Base.Int.{pos}
use pulseha.Strconv.{digit, digits, itoa, value, parse_int}

code-digit : (n : ℕ) → n < 10 → code (digit n) ≡ 48 + n
unfolding digit
code-digit zero h = refl
code-digit (suc zero) h = refl
code-digit (suc (suc zero)) h = refl
code-digit (suc (suc (suc zero))) h = refl
code-digit (suc (suc (suc (suc zero)))) h = refl
code-digit (suc (suc (suc (suc (suc zero))))) h = refl
code-digit (suc (suc (suc (suc (suc (suc zero)))))) h = refl
code-digit (suc (suc (suc (suc (suc (suc (suc zero))))))) h = refl
code-digit (suc (suc (suc (suc (suc (suc (suc (suc zero)))))))) h = refl
code-digit (suc (suc (suc (suc (suc (suc (suc (suc (suc zero))))))))) h = refl
code-digit (suc (suc (suc (suc (suc (suc (suc (suc (suc (suc n)))))))))) h = absurd (omega arith)

value-digit : (n a : ℕ) (s : String) → n < 10 → value (digit n ∷ s) a ≡ value s (a * 10 + n)
unfolding value
value-digit n a s h = ground (arith, code-digit n h)

-- Reading the printed digits goes on, behind them, with the number that they spell.
value-digits : (fuel n : ℕ) (out : String) → n < fuel → value (digits fuel n out) 0 ≡ value out n
unfolding digits
value-digits zero n out h = absurd (omega arith)
value-digits (suc fuel) n out h = elim (Bool-cases (ltb n 10)) [
  | inl small ↦ rw small (value-digit n 0 out (ground arith) ∙ ap (value out) (omega arith))
  | inr big ↦ rw big (
      value-digits fuel (n / 10) (digit (n % 10) ∷ out) (ground arith)
      ∙ value-digit (n % 10) (n / 10) out (omega arith)
      ∙ ap (value out) (omega arith))
]

pub value-itoa : (n : ℕ) → value (itoa n) 0 ≡ some n
unfolding itoa value
value-itoa n = value-digits (suc n) n "" (omega arith)

pub itoa_injective : (m n : ℕ) → itoa m ≡ itoa n → m ≡ n
itoa_injective m n e = cc (value-itoa m, value-itoa n)

abbrev DigitFirst : String → Type 0
DigitFirst s = (c : Char) × (rest : String) × (s ≡ c ∷ rest) × (48 ≤ code c) × (code c ≤ 57)

DigitFirst-digit : (n : ℕ) (s : String) → n < 10 → DigitFirst (digit n ∷ s)
DigitFirst-digit n s h =
    (digit n, s, refl, omega (arith, code-digit n h), omega (arith, code-digit n h))

digits-DigitFirst : (fuel n : ℕ) (out : String) → n < fuel → DigitFirst (digits fuel n out)
unfolding digits
digits-DigitFirst zero n out h = absurd (omega arith)
digits-DigitFirst (suc fuel) n out h = elim (Bool-cases (ltb n 10)) [
  | inl small ↦ rw small (DigitFirst-digit n out (ground arith))
  | inr big ↦ rw big (digits-DigitFirst fuel (n / 10) (digit (n % 10) ∷ out) (ground arith))
]

parse_int-DigitFirst :
    (s : String) (n : ℕ)
    → DigitFirst s
    → value s 0 ≡ some n
    → n < 2 ^ 63
    → parse_int s ≡ (pos n, true)
unfolding parse_int
parse_int-DigitFirst s n (c, rest, e, low, high) v h =
    rw e (ground (arith, ap (λ (t : String). value t 0) e))

-- Every number that fits an int64 survives Itoa followed by ParseInt (or Atoi), with no error.
pub parse_int-itoa : (n : ℕ) → n < 2 ^ 63 → parse_int (itoa n) ≡ (pos n, true)
unfolding itoa
parse_int-itoa n h =
    parse_int-DigitFirst (itoa n) n (digits-DigitFirst (suc n) n "" (omega arith)) (value-itoa n) h
