-- ===== src/Log/Numbers.antt =====
-- `format_uint`, `format_int`, `format_hex` and `format_bin` of kernel/core/log.cpp.
use planetoid_os.Base.{
  ℕ, ◌+◌, ◌-◌, ◌/◌, ◌^◌, ◌≤◌, ◌<◌, ◌≡◌, refl, sym, ap, ap₂, inl, inr, Bool, some, [], ◌∷◌, reverse,
  arith, leb, ◌==◌, if◌then◌else◌, ==→eq, ==→ne, Bool-cases, length, sub64, ◌>>◌, update,
}
use native.Mathlib.Nat.{pow-suc}
use planetoid_os.Base.Bits.{bit_and_mask}
use planetoid_os.Log.{
  Text, Buffer, decimal_digit, hex_digit, binary_digit, format_uint, format_int, format_hex,
  format_bin, copy_text,
}
use planetoid_os.Log.Numerals.{
  numeral, IsNumeral, IsRadix, take_digits-IsNumeral, numeral-IsNumeral, length-reverse_aux,
}
use planetoid_os.Log.Buffers.{
  written, copy_text-written, written-cons, padded, prefixed, put_digits-written,
}

decimal-IsRadix : IsRadix 10 decimal_digit (λ v. v / 10)
decimal-IsRadix = record {
  whole = λ v. ground arith;
  is_digit_of = λ v. ground arith;
  same_digit = λ v. ground arith;
  quotient = λ v. refl;
  last = λ v small. omega arith;
  more = λ v large e. omega arith;
  smaller = λ v n fits. omega (arith, fits, pow-suc 10 n);
}

hex-IsRadix : IsRadix 16 hex_digit (λ v. v >> 4)
hex-IsRadix = record {
  whole = λ v. ground (arith, bit_and_mask 4 v);
  is_digit_of = λ v. ground (arith, bit_and_mask 4 v);
  same_digit = λ v. ground (arith, bit_and_mask 4 v);
  quotient = λ v. refl;
  last = λ v small. omega arith;
  more = λ v large e. omega arith;
  smaller = λ v n fits. omega (arith, fits, pow-suc 16 n);
}

binary-IsRadix : IsRadix 2 binary_digit (λ v. v >> 1)
binary-IsRadix = record {
  whole = λ v. ground (arith, bit_and_mask 1 v);
  is_digit_of = λ v. ground (arith, bit_and_mask 1 v);
  same_digit = λ v. ground (arith, bit_and_mask 1 v);
  quotient = λ v. refl;
  last = λ v small. omega arith;
  more = λ v large e. omega arith;
  smaller = λ v n fits. omega (arith, fits, pow-suc 2 n);
}

abbrev pub decimal : (value : ℕ) → Text
decimal = numeral 10 20

abbrev pub hexadecimal : (value : ℕ) → Text
hexadecimal = numeral 16 32

abbrev pub binary : (value : ℕ) → Text
binary = numeral 2 66

-- `0` is a numeral in each base.
zero-IsNumeral : (base n : ℕ) → 1 ≤ n → IsNumeral base n 0 (48 ∷ [])
zero-IsNumeral base n some_room = record {
  reads = omega arith;
  digits = refl;
  nonempty = omega arith;
  fits = some_room;
}

pub decimal-IsNumeral : (value : ℕ) → value < 2 ^ 64 → IsNumeral 10 20 value (decimal value)
unfolding numeral
decimal-IsNumeral value word = elim (Bool-cases (value == 0)) [
  | inl e ↦ rw (==→eq value 0 e) (zero-IsNumeral 10 20 (omega arith))
  | inr e ↦
      numeral-IsNumeral 10 decimal_digit (λ v. v / 10) decimal-IsRadix 20 20 value (omega arith)
        (omega arith) (==→ne value 0 e)
]

pub hexadecimal-IsNumeral : (value : ℕ) → value < 2 ^ 64 → IsNumeral 16 16 value (hexadecimal value)
unfolding numeral
hexadecimal-IsNumeral value word = elim (Bool-cases (value == 0)) [
  | inl e ↦ rw (==→eq value 0 e) (zero-IsNumeral 16 16 (omega arith))
  | inr e ↦
      numeral-IsNumeral 16 hex_digit (λ v. v >> 4) hex-IsRadix 32 16 value (omega arith)
        (omega arith) (==→ne value 0 e)
]

pub binary-IsNumeral : (value : ℕ) → value < 2 ^ 64 → IsNumeral 2 64 value (binary value)
unfolding numeral
binary-IsNumeral value word = elim (Bool-cases (value == 0)) [
  | inl e ↦ rw (==→eq value 0 e) (zero-IsNumeral 2 64 (omega arith))
  | inr e ↦
      numeral-IsNumeral 2 binary_digit (λ v. v >> 1) binary-IsRadix 66 64 value (omega arith)
        (omega arith) (==→ne value 0 e)
]

-- The buffer with the text, and how far it goes.
abbrev pub wrote : Buffer → (at : ℕ) → Text → ℕ × Buffer
wrote buffer at text = (length text, written buffer at text)

one_digit-written :
    (buffer : Buffer) (at : ℕ) → (1, update buffer at 48) ≡ wrote buffer at (48 ∷ [])
unfolding copy_text
one_digit-written buffer at = ap (λ (b : Buffer). (1, b)) (copy_text-written (48 ∷ []) at buffer)

decimal-zero : decimal 0 ≡ 48 ∷ []
unfolding numeral
decimal-zero = refl

-- What `format_uint` leaves in the buffer: the decimal numeral.
pub format_uint-written :
    (value at : ℕ) (buffer : Buffer)
    → value < 2 ^ 64
    → format_uint value at buffer ≡ some (wrote buffer at (decimal value))
unfolding format_uint
format_uint-written value at buffer word = elim (Bool-cases (value == 0)) [
  | inl e ↦
      rw (==→eq value 0 e, decimal-zero)
        (ap (λ (r : ℕ × Buffer). some r) (one_digit-written buffer at))
  | inr e ↦
      let (temp, result, same, known) =
        take_digits-IsNumeral 10 decimal_digit (λ v. v / 10) decimal-IsRadix 20 value (omega arith)
          (==→ne value 0 e) in
      rw (e, result, sym same, copy_text-written (reverse temp) at buffer)
        (ap (λ (n : ℕ). some (n, written buffer at (reverse temp)))
          (omega (arith, length-reverse_aux temp [])))
]

-- The signed decimal of a number in two's complement.
abbrev pub signed_decimal : (value : ℕ) → Text
signed_decimal value = if leb (2 ^ 63) value then b'-' ∷ decimal (2 ^ 64 - value) else decimal value

pub format_int-written :
    (value at : ℕ) (buffer : Buffer)
    → value < 2 ^ 64
    → format_int value at buffer ≡ some (wrote buffer at (signed_decimal value))
unfolding format_int
format_int-written value at buffer word = elim (Bool-cases (leb (2 ^ 63) value)) [
  | inr positive ↦ rw positive (format_uint-written value at buffer word)
  | inl negative ↦
      let magnitude : sub64 0 value ≡ 2 ^ 64 - value = ground arith in
      rw
        (
          negative,
          magnitude,
          format_uint-written (2 ^ 64 - value) (at + 1) (update buffer at b'-') (ground arith),
        )
        (ap₂ (λ (n : ℕ) (b : Buffer). some (n, b)) (omega arith)
          (written-cons buffer at b'-' (decimal (2 ^ 64 - value))))
]

-- A numeral with a prefix and zeros before it, as a directive asks for.
abbrev pub shaped : (prefix : Bool) (letter width : ℕ) → Text → Text
shaped prefix letter width text = prefixed prefix letter (padded width text)

hexadecimal-zero : hexadecimal 0 ≡ 48 ∷ []
unfolding numeral
hexadecimal-zero = refl

binary-zero : binary 0 ≡ 48 ∷ []
unfolding numeral
binary-zero = refl

pub format_hex-written :
    (value at : ℕ) (prefix : Bool) (width : ℕ) (buffer : Buffer)
    → value < 2 ^ 64
    → format_hex value at prefix width buffer
      ≡ some (wrote buffer at (shaped prefix b'x' width (hexadecimal value)))
unfolding format_hex
format_hex-written value at prefix width buffer word = elim (Bool-cases (value == 0)) [
  | inl e ↦
      rw
        (
          ==→eq value 0 e,
          hexadecimal-zero,
          put_digits-written b'x' (48 ∷ []) at prefix width buffer,
        )
        refl
  | inr e ↦
      let (temp, result, same, known) =
        take_digits-IsNumeral 16 hex_digit (λ v. v >> 4) hex-IsRadix 32 value (omega arith)
          (==→ne value 0 e) in
      rw (format_hex, e, result, sym same, put_digits-written b'x' temp at prefix width buffer) refl
]

pub format_bin-written :
    (value at : ℕ) (prefix : Bool) (width : ℕ) (buffer : Buffer)
    → value < 2 ^ 64
    → format_bin value at prefix width buffer
      ≡ some (wrote buffer at (shaped prefix b'b' width (binary value)))
unfolding format_bin
format_bin-written value at prefix width buffer word = elim (Bool-cases (value == 0)) [
  | inl e ↦
      rw (==→eq value 0 e, binary-zero, put_digits-written b'b' (48 ∷ []) at prefix width buffer)
        refl
  | inr e ↦
      let (temp, result, same, known) =
        take_digits-IsNumeral 2 binary_digit (λ v. v >> 1) binary-IsRadix 66 value (omega arith)
          (==→ne value 0 e) in
      rw (format_bin, e, result, sym same, put_digits-written b'b' temp at prefix width buffer) refl
]
