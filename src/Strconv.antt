-- ===== src/Strconv.antt =====
-- The parts of package strconv that the daemon calls.
pub mod RoundTrip
use Prim.Native.String.{◌∷◌}
use Prim.Native.String
use pulseha.Base.{
  ℕ, zero, suc, ◌+◌, ◌-◌, ◌*◌, ◌/◌, ◌%◌, ◌^◌, String, Char, code, Bool, true, false, ◌&&◌, ◌||◌,
  Option, none, some, ltb, leb, ◌==◌, if◌then◌else◌, str_eq,
}
use pulseha.Base.Int.{ℤ, pos, negsuc, sub_ℕ}

unfoldable pub digit : ℕ → Char
digit zero = "0"
digit (suc zero) = "1"
digit (suc (suc zero)) = "2"
digit (suc (suc (suc zero))) = "3"
digit (suc (suc (suc (suc zero)))) = "4"
digit (suc (suc (suc (suc (suc zero))))) = "5"
digit (suc (suc (suc (suc (suc (suc zero)))))) = "6"
digit (suc (suc (suc (suc (suc (suc (suc zero))))))) = "7"
digit (suc (suc (suc (suc (suc (suc (suc (suc zero)))))))) = "8"
digit (suc (suc (suc (suc (suc (suc (suc (suc (suc n))))))))) = "9"

-- The digits of `n` in front of `out`, the last one first.
unfoldable pub digits : ℕ → ℕ → String → String
unfolding digit
digits zero n out = out
digits (suc fuel) n out =
    let more = digits fuel (n / 10) (digit (n % 10) ∷ out) in
    if ltb n 10 then digit n ∷ out else more

-- strconv.Itoa(n), for n ≥ 0
unfoldable pub itoa : ℕ → String
unfolding digits
itoa n = digits (suc n) n ""

-- The number that decimal digits spell behind those that spell `n`; `none` at another character.
unfoldable pub value : String → ℕ → Option ℕ
value String.[] n = some n
value (c ∷ s) n =
    let d = code c - 48 in if leb 48 (code c) && leb (code c) 57 then value s (n * 10 + d) else none

-- strconv.ParseInt(s, 10, 64): the value and whether there was no error. A syntax error gives 0, and
-- a number out of range gives the bound that it passes.
abbrev clamp_pos : ℕ → ℤ × Bool
clamp_pos n = if ltb n (2 ^ 63) then (pos n, true) else (pos (2 ^ 63 - 1), false)

abbrev clamp_neg : ℕ → ℤ × Bool
clamp_neg n = if leb n (2 ^ 63) then (sub_ℕ 0 n, true) else (negsuc (2 ^ 63 - 1), false)

abbrev or_syntax : (ℕ → ℤ × Bool) → Option ℕ → ℤ × Bool
or_syntax f none = (pos 0, false)
or_syntax f (some n) = f n

unsigned : (ℕ → ℤ × Bool) → String → ℤ × Bool
unfolding value
unsigned f String.[] = (pos 0, false)
unsigned f (c ∷ s) = or_syntax f (value (c ∷ s) 0)

unfoldable pub parse_int : String → ℤ × Bool
unfolding unsigned
parse_int String.[] = (pos 0, false)
parse_int (c ∷ s) =
    if code c == b'-'
    then unsigned clamp_neg s
    else if code c == b'+'
    then unsigned clamp_pos s
    else unsigned clamp_pos (c ∷ s)

-- strconv.Atoi(s): as ParseInt, for a 64-bit int.
abbrev pub atoi : String → ℤ × Bool
atoi = parse_int

-- strconv.ParseBool(s)
unfoldable pub parse_bool : String → Option Bool
parse_bool s =
    if str_eq s "1"
      || str_eq s "t"
      || str_eq s "T"
      || str_eq s "TRUE"
      || str_eq s "true"
      || str_eq s "True"
    then some true
    else if str_eq s "0"
        || str_eq s "f"
        || str_eq s "F"
        || str_eq s "FALSE"
        || str_eq s "false"
        || str_eq s "False"
    then some false
    else none
