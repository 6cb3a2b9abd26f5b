-- ===== src/Log/Directive.antt =====
-- The directives of a format of kernel/core/log.cpp: a percent sign, perhaps `#`, perhaps a width in decimal
-- digits, and a letter. `parse_format` reads what stands behind the percent sign.
use planetoid_os.Base.{
  ℕ, ◌+◌, ◌-◌, ◌*◌, ◌%◌, ◌^◌, ◌≡◌, refl, inl, inr, Bool, true, false, ◌&&◌, [], ◌∷◌, arith, leb,
  ◌==◌, if◌then◌else◌, Bool-cases,
}
use planetoid_os.Log.{Text, FormatSpec, parse_format, parse_width, at_front}
use planetoid_os.Log.Numerals.{digit_of, read}

abbrev is_decimal : ℕ → Bool
is_decimal c = leb 48 c && leb c 57

-- The decimal digits at the front of a text.
abbrev leading : Text → Text
leading [] = []
leading (c ∷ fmt) = if is_decimal c then c ∷ leading fmt else []

-- What follows them.
abbrev following : Text → Text
following [] = []
following (c ∷ fmt) = if is_decimal c then following fmt else c ∷ fmt

-- The width is what the digits stand for, as a 32-bit word; the letter is the character behind them.
abbrev sized : (prefix : Bool) → Text → FormatSpec × Text
sized prefix fmt = (
  record {
    prefix = prefix;
    width = read 10 0 (leading fmt) % 2 ^ 32;
    type = at_front (following fmt);
  },
  following fmt,
)

-- The directive that a text starts with behind its percent sign, and the text from its letter on.
unfoldable pub directive : Text → FormatSpec × Text
directive [] = sized false []
directive (c ∷ fmt) = if c == 35 then sized true fmt else sized false (c ∷ fmt)

parse_width-read :
    (fmt : Text) (acc : ℕ)
    → parse_width fmt (acc % 2 ^ 32) ≡ (read 10 acc (leading fmt) % 2 ^ 32, following fmt)
unfolding parse_width
parse_width-read [] acc = refl
parse_width-read (c ∷ fmt) acc = elim (Bool-cases (is_decimal c)) [
  | inl digit ↦
      let next : (acc % 2 ^ 32 * 10 + (c - 48)) % 2 ^ 32 ≡ (acc * 10 + digit_of c) % 2 ^ 32 =
        ground arith in
      rw (digit, next) (parse_width-read fmt (acc * 10 + digit_of c))
  | inr other ↦ rw other refl
]

-- `parse_format` reads the directive.
pub parse_format-directive : (fmt : Text) → parse_format fmt ≡ directive fmt
unfolding parse_format directive
parse_format-directive [] = rw (parse_width-read [] 0) refl
parse_format-directive (c ∷ fmt) = elim (Bool-cases (c == 35)) [
  | inl marked ↦ rw (marked, parse_width-read fmt 0) refl
  | inr plain ↦ rw (plain, parse_width-read (c ∷ fmt) 0) refl
]
