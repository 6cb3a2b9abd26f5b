-- ===== src/Log/ReadBack.antt =====
-- The numbers that kernel/core/log.cpp prints, read back from the buffer.
use planetoid_os.Base.{
  ℕ, zero, suc, ◌+◌, ◌-◌, ◌*◌, ◌^◌, ◌≤◌, ◌<◌, ◌≡◌, refl, sym, ap, ap₂, ◌∙◌, inl, inr, Bool, false,
  ◌&&◌, some, [], ◌∷◌, ◌++◌, arith, max, ltb, leb, if◌then◌else◌, Bool-cases, length, replicate,
  update,
}
use planetoid_os.Log.{Text, Buffer, format_uint, format_hex, format_bin}
use planetoid_os.Log.Numerals.{read, IsNumeral}
use planetoid_os.Log.Buffers.{written, written-cons, padded, length-padded}
use planetoid_os.Log.Numbers.{
  wrote, decimal, hexadecimal, binary, shaped, decimal-IsNumeral, hexadecimal-IsNumeral,
  binary-IsNumeral, format_uint-written, format_hex-written, format_bin-written,
}

-- The `count` characters from `at`.
abbrev pub chars : Buffer → (at count : ℕ) → Text
chars buffer at zero = []
chars buffer at (suc count) = buffer at ∷ chars buffer (at + 1) count

chars-written :
    (text : Text) (at : ℕ) (buffer : Buffer)
    → chars (written buffer at text) at (length text) ≡ text
chars-written [] at buffer = refl
chars-written (c ∷ text) at buffer =
    let here : at - at ≡ 0 = omega arith in
    let first : written buffer at (c ∷ text) at ≡ c = rw here (ground arith) in
    let rest = chars-written text (at + 1) (update buffer at c) in
    ap₂ (λ (d : ℕ) (t : Text). d ∷ t) first
      (ap (λ (b : Buffer). chars b (at + 1) (length text)) (sym (written-cons buffer at c text))
        ∙ rest)

read-zeros : (base n : ℕ) (text : Text) → read base 0 (replicate n 48 ++ text) ≡ read base 0 text
read-zeros base zero text = refl
read-zeros base (suc n) text =
    let nothing : 0 * base + 0 ≡ 0 = omega arith in
    ap (λ (acc : ℕ). read base acc (replicate n 48 ++ text)) nothing ∙ read-zeros base n text

-- The number is printed at `at`, behind a prefix of `skipped` characters: it reads back, it has `most`
-- characters at most with its prefix, and no other character of the buffer changed.
pub record IsPrinted (base value : ℕ) (buffer : Buffer) (at skipped most : ℕ) (r : ℕ × Buffer)
    : Type 0 where
  pub reads : read base 0 (chars r.1 (at + skipped) (r.0 - skipped)) ≡ value
  pub nonempty : skipped < r.0
  pub bounded : r.0 ≤ most
  pub unchanged : (x : ℕ) → leb at x && ltb x (at + r.0) ≡ false → r.1 x ≡ buffer x

-- A numeral with nothing before it.
plain-IsPrinted :
    (base value most : ℕ) (buffer : Buffer) (at : ℕ) (text : Text)
    → (read base 0 text ≡ value)
    → 0 < length text
    → length text ≤ most
    → IsPrinted base value buffer at 0 most (wrote buffer at text)
plain-IsPrinted base value most buffer at text reads some_digits short = record {
  reads =
      let whole : length text - 0 ≡ length text = omega arith in
      let front : at + 0 ≡ at = omega arith in
      rw (whole, front, chars-written text at buffer) reads;
  nonempty = some_digits;
  bounded = short;
  unchanged = λ x outside. rw outside refl;
}

-- A numeral behind a prefix.
prefixed-IsPrinted :
    (base value most letter : ℕ) (buffer : Buffer) (at : ℕ) (text : Text)
    → (read base 0 text ≡ value)
    → 0 < length text
    → length text + 2 ≤ most
    → IsPrinted base value buffer at 2 most (wrote buffer at (48 ∷ letter ∷ text))
prefixed-IsPrinted base value most letter buffer at text reads some_digits short = record {
  reads =
      let whole : suc (suc (length text)) - 2 ≡ length text = omega arith in
      let there : at + 2 ≡ at + 1 + 1 = omega arith in
      let behind = chars-written text (at + 1 + 1) (update (update buffer at 48) (at + 1) letter) in
      let same =
        written-cons (update buffer at 48) (at + 1) letter text
        ∙ written-cons buffer at 48 (letter ∷ text) in
      rw (whole, there)
        (ap (λ (b : Buffer). read base 0 (chars b (at + 1 + 1) (length text))) (sym same)
          ∙ ap (read base 0) behind
          ∙ reads);
  nonempty = omega (arith, some_digits);
  bounded = omega (arith, short);
  unchanged = λ x outside. rw outside refl;
}

-- A directive's prefix and zeros.
abbrev pub skipped_by : Bool → ℕ
skipped_by prefix = if prefix then 2 else 0

shaped-IsPrinted :
    (base n value letter width : ℕ) (prefix : Bool) (buffer : Buffer) (at : ℕ) (text : Text)
    → IsNumeral base n value text
    → IsPrinted base value buffer at
        (skipped_by prefix)
        (skipped_by prefix + max width n)
        (wrote buffer at (shaped prefix letter width text))
shaped-IsPrinted base n value letter width prefix buffer at text known =
    let count = length-padded width text in
    let reads = read-zeros base (width - length text) text ∙ known.reads in
    let room : length (padded width text) ≤ max width n = omega (arith, count, known.fits) in
    let some_digits : 0 < length (padded width text) = omega (arith, count, known.nonempty) in
    elim (Bool-cases prefix) [
      | inl on ↦ rw on (
          prefixed-IsPrinted base value (2 + max width n) letter buffer at (padded width text) reads
            some_digits (omega (arith, room)))
      | inr off ↦ rw off (
          plain-IsPrinted base value (0 + max width n) buffer at (padded width text) reads
            some_digits (omega (arith, room)))
    ]

-- For every word, `format_uint`, `format_hex` and `format_bin` end within their local arrays and print a numeral that
-- reads back as the word, in base 10 with at most 20 characters, in base 16 with at most 16 and in base 2 with at
-- most 64, or as many as the width asks for, behind the prefix if there is one; they change no other character.
pub format_number-IsPrinted :
    (value at width : ℕ) (prefix : Bool) (buffer : Buffer)
    → value < 2 ^ 64
    → ((r : ℕ × Buffer) × (format_uint value at buffer ≡ some r)
        × IsPrinted 10 value buffer at 0 20 r)
      × ((r : ℕ × Buffer) × (format_hex value at prefix width buffer ≡ some r)
          × IsPrinted 16 value buffer at (skipped_by prefix) (skipped_by prefix + max width 16) r)
      × ((r : ℕ × Buffer) × (format_bin value at prefix width buffer ≡ some r)
          × IsPrinted 2 value buffer at (skipped_by prefix) (skipped_by prefix + max width 64) r)
format_number-IsPrinted value at width prefix buffer word =
    let known = decimal-IsNumeral value word in
    (
      (
        wrote buffer at (decimal value),
        format_uint-written value at buffer word,
        plain-IsPrinted 10 value 20 buffer at (decimal value) known.reads known.nonempty known.fits,
      ),
      (
        wrote buffer at (shaped prefix b'x' width (hexadecimal value)),
        format_hex-written value at prefix width buffer word,
        shaped-IsPrinted 16 16 value b'x' width prefix buffer at (hexadecimal value)
            (hexadecimal-IsNumeral value word),
      ),
      (
        wrote buffer at (shaped prefix b'b' width (binary value)),
        format_bin-written value at prefix width buffer word,
        shaped-IsPrinted 2 64 value b'b' width prefix buffer at (binary value)
            (binary-IsNumeral value word),
      ),
    )
