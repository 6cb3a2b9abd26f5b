-- ===== src/Bitmap/Bytes.antt =====
-- The bit operations of a byte, over all bytes and all pairs of bits.
use planetoid_os.Base.{
  ℕ, zero, suc, ◌<◌, ◌≡◌, refl, Bool, true, false, ◌&&◌, not, bit_and, bit_or, ◌==◌, ltb, ltb→lt,
  if◌then◌else◌, arith, Bool-cases, inl, inr, ==→eq, ==→ne,
}
use planetoid_os.Bitmap.{bit_mask, clear_mask}

-- The predicate answers true below the bound.
check_all : (ℕ → Bool) → ℕ → Bool
check_all holds zero = true
check_all holds (suc bound) = check_all holds bound && holds bound

check_all-lt :
    (holds : ℕ → Bool) (bound : ℕ)
    → check_all holds bound ≡ true
    → (k : ℕ) → k < bound
    → holds k ≡ true
unfolding check_all
check_all-lt holds zero checked k below = absurd (omega arith)
check_all-lt holds (suc bound) checked k below = elim (Bool-cases (k == bound)) [
  | inl last ↦ rw (==→eq k bound last) (ground arith)
  | inr earlier ↦ check_all-lt holds bound (ground arith) k (omega (arith, ==→ne k bound earlier))
]

abbrev pub test_bit : ℕ → ℕ → Bool
test_bit byte k = not (bit_and byte (bit_mask k) == 0)

same : Bool → Bool → Bool
same true b = b
same false b = not b

same_sound : (a b : Bool) → same a b ≡ true → a ≡ b
unfolding same
same_sound a b h = ground arith

-- What the two updates of a byte do to each of its bits.
abbrev byte_row : ℕ → Bool
byte_row byte =
    check_all
      (λ j.
        ltb (bit_or byte (bit_mask j)) 256
        && ltb (bit_and byte (clear_mask j)) 256
        && check_all
            (λ k.
              same (test_bit (bit_or byte (bit_mask j)) k)
                (if j == k then true else test_bit byte k)
              && same (test_bit (bit_and byte (clear_mask j)) k)
                  (if j == k then false else test_bit byte k))
            8)
      8

byte_table : check_all byte_row 256 ≡ true
unfolding check_all same
byte_table = refl

and_true : (a b : Bool) → (a && b) ≡ true → (a ≡ true) × (b ≡ true)
and_true a b h = ground arith

and_true_three : (a b c : Bool) → (a && b && c) ≡ true → (a ≡ true) × (b ≡ true) × (c ≡ true)
and_true_three a b c h = ground arith

abbrev bit_row : ℕ → ℕ → ℕ → Bool
bit_row byte j k =
    same (test_bit (bit_or byte (bit_mask j)) k) (if j == k then true else test_bit byte k)
    && same (test_bit (bit_and byte (clear_mask j)) k) (if j == k then false else test_bit byte k)

module _ (byte j : ℕ) (is_byte : byte < 256) (is_bit : j < 8) where
  row :
      (ltb (bit_or byte (bit_mask j)) 256 ≡ true)
      × (ltb (bit_and byte (clear_mask j)) 256 ≡ true)
      × (check_all (bit_row byte j) 8 ≡ true)
  row =
      and_true_three (ltb (bit_or byte (bit_mask j)) 256) (ltb (bit_and byte (clear_mask j)) 256)
        (check_all (bit_row byte j) 8)
        (check_all-lt _ 8 (check_all-lt byte_row 256 byte_table byte is_byte) j is_bit)

  pub set-lt : bit_or byte (bit_mask j) < 256
  set-lt = ltb→lt _ 256 row.0

  pub clear-lt : bit_and byte (clear_mask j) < 256
  clear-lt = ltb→lt _ 256 row.1

  pub test_bit-set :
      (k : ℕ)
      → k < 8
      → test_bit (bit_or byte (bit_mask j)) k ≡ (if j == k then true else test_bit byte k)
  test_bit-set k h = same_sound _ _ (and_true _ _ (check_all-lt (bit_row byte j) 8 row.2 k h)).0

  pub test_bit-clear :
      (k : ℕ)
      → k < 8
      → test_bit (bit_and byte (clear_mask j)) k ≡ (if j == k then false else test_bit byte k)
  test_bit-clear k h = same_sound _ _ (and_true _ _ (check_all-lt (bit_row byte j) 8 row.2 k h)).1

pub test_bit-full : (k : ℕ) → k < 8 → test_bit 0xFF k ≡ true
unfolding check_all
test_bit-full k h = check_all-lt (λ j. test_bit 0xFF j) 8 refl k h
