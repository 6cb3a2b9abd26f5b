-- ===== src/Log/Numerals.antt =====
-- The digits of a number in kernel/core/log.cpp, and what they stand for.
use planetoid_os.Base.{
  ℕ, zero, suc, ◌+◌, ◌-◌, ◌*◌, ◌/◌, ◌%◌, ◌^◌, ◌≤◌, ◌<◌, ◌≡◌, ◌≢◌, refl, sym, ◌∙◌, subst, inl, inr,
  Bool, true, false, ◌&&◌, ◌||◌, some, [], ◌∷◌, ◌++◌, reverse, arith, ltb, leb, ◌==◌, if◌then◌else◌,
  ltb→lt, lt→ltb, ==→eq, ==→ne, ne→==, Bool-cases, length, length-append,
}
use mathlib.Core.List.{reverse_aux, append_assoc, append-nil}
use native.Mathlib.Nat.{pow-zero}
use planetoid_os.Log.{Text, take_digits}

-- The digit that a character stands for.
abbrev pub digit_of : ℕ → ℕ
digit_of c = if ltb c 58 then c - 48 else c - 55

-- A numeral is read from its first digit on.
abbrev pub read : (base acc : ℕ) → Text → ℕ
read base acc [] = acc
read base acc (c ∷ text) = read base (acc * base + digit_of c) text

-- The characters that the three bases use.
abbrev pub is_digit : ℕ → Bool
is_digit c = (leb 48 c && ltb c 58) || (leb 65 c && ltb c 71)

abbrev pub all_digits : Text → Bool
all_digits [] = true
all_digits (c ∷ text) = is_digit c && all_digits text

-- The value of digits, the last one first.
abbrev value_of : (base : ℕ) → Text → ℕ
value_of base [] = 0
value_of base (c ∷ temp) = value_of base temp * base + digit_of c

read-reverse_aux :
    (base : ℕ) (temp text : Text)
    → read base 0 (reverse_aux temp text) ≡ read base (value_of base temp) text
read-reverse_aux base [] text = refl
read-reverse_aux base (c ∷ temp) text = read-reverse_aux base temp (c ∷ text)

pub length-reverse_aux :
    (temp text : Text) → length (reverse_aux temp text) ≡ length temp + length text
length-reverse_aux [] text = omega arith
length-reverse_aux (c ∷ temp) text = omega (arith, length-reverse_aux temp (c ∷ text))

all_digits-reverse_aux :
    (temp text : Text) → all_digits (reverse_aux temp text) ≡ (all_digits temp && all_digits text)
all_digits-reverse_aux [] text = refl
all_digits-reverse_aux (c ∷ temp) text = ground (arith, all_digits-reverse_aux temp (c ∷ text))

abbrev pub digit_char : (digit : ℕ) → ℕ
digit_char digit = if ltb digit 10 then 48 + digit else 55 + digit

-- The numeral of a number that is less than `base ^ fuel`.
unfoldable pub numeral : (base fuel value : ℕ) → Text
numeral base zero value = []
numeral base (suc fuel) value =
    let digit = digit_char (value % base) in
    if ltb value base then digit ∷ [] else numeral base fuel (value / base) ++ digit ∷ []

-- The text is the numeral of `value`, of at most `room` digits and at least one.
pub record IsNumeral (base room value : ℕ) (text : Text) : Type 0 where
  pub reads : read base 0 text ≡ value
  pub digits : all_digits text ≡ true
  pub nonempty : 1 ≤ length text
  pub fits : length text ≤ room

-- One round of the loop takes the last digit off.
pub record IsRadix (base : ℕ) (digit next : ℕ → ℕ) : Type 0 where
  pub whole : (v : ℕ) → v ≡ next v * base + digit_of (digit v)
  pub is_digit_of : (v : ℕ) → is_digit (digit v) ≡ true
  pub same_digit : (v : ℕ) → digit v ≡ digit_char (v % base)
  pub quotient : (v : ℕ) → next v ≡ v / base
  pub last : (v : ℕ) → v < base → next v ≡ 0
  pub more : (v : ℕ) → base ≤ v → next v ≢ 0
  pub smaller : (v n : ℕ) → v < base ^ suc n → next v < base ^ n

module _ (base : ℕ) (digit next : ℕ → ℕ) (radix : IsRadix base digit next) where
  ge→ltb : (v b : ℕ) → b ≤ v → ltb v b ≡ false
  ge→ltb v b large = ground arith

  take_digits_zero : (room : ℕ) → take_digits room digit next 0 ≡ some []
  unfolding take_digits
  take_digits_zero zero = refl
  take_digits_zero (suc room) = refl

  -- What the loop leaves in `temp`.
  record IsTaken (room value : ℕ) (temp : Text) : Type 0 where
    result : take_digits room digit next value ≡ some temp
    valued : value_of base temp ≡ value
    all : all_digits temp ≡ true
    short : length temp ≤ room
    named : value ≢ 0 → (rest : Text) → reverse_aux temp rest ≡ numeral base room value ++ rest

  nothing-IsTaken : (room : ℕ) → IsTaken room 0 []
  nothing-IsTaken room = record {
    result = take_digits_zero room;
    valued = refl;
    all = refl;
    short = omega arith;
    named = λ nonzero. absurd (nonzero refl);
  }

  one-IsTaken :
      (room value : ℕ) → value ≢ 0 → value < base → IsTaken (suc room) value (digit value ∷ [])
  unfolding take_digits numeral
  one-IsTaken room value nonzero small =
      let whole = radix.whole value in
      let last = radix.last value small in
      record {
        result = rw (ne→== value 0 nonzero, last, take_digits_zero room) refl;
        valued = sym (whole ∙ rw last refl);
        all = rw (radix.is_digit_of value) refl;
        short = omega arith;
        named = λ n rest. rw (lt→ltb value base small, radix.same_digit value) refl;
      }

  more-IsTaken :
      (room value : ℕ) (temp : Text)
      → value ≢ 0
      → base ≤ value
      → IsTaken room (next value) temp
      → IsTaken (suc room) value (digit value ∷ temp)
  unfolding take_digits numeral
  more-IsTaken room value temp nonzero large t = record {
    result = rw (ne→== value 0 nonzero, t.result) refl;
    valued = rw t.valued (sym (radix.whole value));
    all = rw (radix.is_digit_of value) t.all;
    short = omega (arith, t.short);
    named = λ n rest.
        t.named (radix.more value large) (digit value ∷ rest)
        ∙ rw (ge→ltb value base large, radix.same_digit value, radix.quotient value)
            (sym (
              append_assoc (numeral base room (value / base)) (digit_char (value % base) ∷ [])
                rest));
  }

  take_digits_lem : (room value : ℕ) → value < base ^ room → (temp : Text) × IsTaken room value temp
  take_digits_lem zero value fits =
      let nothing : value ≡ 0 = omega (arith, fits, pow-zero base) in
      subst (λ (v : ℕ). (temp : Text) × IsTaken 0 v temp) (sym nothing) ([], nothing-IsTaken 0)
  take_digits_lem (suc room) value fits = elim (Bool-cases (value == 0)) [
    | inl e ↦
        subst (λ (v : ℕ). (temp : Text) × IsTaken (suc room) v temp) (sym (==→eq value 0 e))
          ([], nothing-IsTaken (suc room))
    | inr e ↦ elim (Bool-cases (ltb value base)) [
      | inl small ↦
          (digit value ∷ [], one-IsTaken room value (==→ne value 0 e) (ltb→lt value base small))
      | inr large ↦
          let (temp, t) = take_digits_lem room (next value) (radix.smaller value room fits) in
          (digit value ∷ temp, more-IsTaken room value temp (==→ne value 0 e) (ground arith) t)
    ]
  ]

  -- The digits of a number other than 0, the first one first, are its numeral.
  pub take_digits-IsNumeral :
      (room value : ℕ)
      → value < base ^ room
      → value ≢ 0
      → (temp : Text) × (take_digits room digit next value ≡ some temp)
        × (reverse temp ≡ numeral base room value)
        × IsNumeral base room value (reverse temp)
  take_digits-IsNumeral room value fits nonzero =
      let (temp, t) = take_digits_lem room value fits in
      (
        temp,
        t.result,
        t.named nonzero [] ∙ append-nil (numeral base room value),
        record {
          reads = read-reverse_aux base temp [] ∙ t.valued;
          digits = all_digits-reverse_aux temp [] ∙ rw t.all refl;
          nonempty =
              elim temp
                  as (λ (d : Text). (value_of base d ≡ value) → 1 ≤ length (reverse_aux d [])) [
                    | [] ↦ λ none_left. absurd (nonzero (sym none_left))
                    | ◌∷◌ c d ↦ λ some_left. omega (arith, length-reverse_aux (c ∷ d) [])
                  ]
                t.valued;
          fits = omega (arith, t.short, length-reverse_aux temp []);
        },
      )

  -- A number has as many digits as it needs.
  pub length-numeral :
      (fuel n value : ℕ) → value < base ^ n → value ≢ 0 → length (numeral base fuel value) ≤ n
  unfolding numeral
  length-numeral zero n value fits nonzero = omega arith
  length-numeral (suc fuel) zero value fits nonzero =
      absurd (nonzero (omega (arith, fits, pow-zero base)))
  length-numeral (suc fuel) (suc n) value fits nonzero = elim (Bool-cases (ltb value base)) [
    | inl small ↦ rw small (omega arith)
    | inr large ↦
        let quotient = radix.quotient value in
        let shorter =
          length-numeral fuel n (next value) (radix.smaller value n fits)
            (radix.more value (ground arith)) in
        rw (large, sym quotient)
          (omega (
            arith,
            shorter,
            length-append (numeral base fuel (next value)) (digit_char (value % base) ∷ []),
          ))
  ]

  pub numeral-IsNumeral :
      (room n value : ℕ)
      → value < base ^ room
      → value < base ^ n
      → value ≢ 0
      → IsNumeral base n value (numeral base room value)
  numeral-IsNumeral room n value fits short nonzero =
      let (temp, result, same, known) = take_digits-IsNumeral room value fits nonzero in
      subst (λ (text : Text). IsNumeral base n value text) same
        (record {
          reads = known.reads;
          digits = known.digits;
          nonempty = known.nonempty;
          fits =
              subst (λ (text : Text). length text ≤ n) (sym same)
                (length-numeral room n value short nonzero);
        })
