-- ===== src/Exception/Faults.antt =====
-- The fault status codes of kernel/arch/aarch64/exception.cpp, as the architecture groups them.
use planetoid_os.Base.{
  ℕ, zero, suc, ◌+◌, ◌/◌, ◌%◌, ◌<◌, ◌≡◌, refl, ap₂, inl, inr, Bool, true, false, not, ◌&&◌, [], ◌∷◌,
  ◌++◌, arith, bit_and, ltb, ◌==◌, if◌then◌else◌, ==→eq, Bool-cases, length,
}
use planetoid_os.Base.Bits.{bit_and_mask}
use planetoid_os.Log.{Text, codes}
use planetoid_os.Log.Print.{unbroken}
use planetoid_os.Exception.{decode_abort_error, name_of, fault_names}

abbrev at_level : Text → (level : ℕ) → Text
at_level kind level = kind ++ (codes " at level " ++ (b'0' + level) ∷ [])

abbrev unknown : Text
unknown = codes "Unknown data abort fault"

-- A code is a group of four with the level of the table walk, but for a few single ones.
unfoldable pub described : (fsc : ℕ) → Text
described fsc =
    let group = fsc / 4 in
    let level = fsc % 4 in
    if group == 0
    then at_level (codes "Address size fault") level
    else if group == 1
    then at_level (codes "Translation fault") level
    else if (group == 2) && not (level == 0)
    then at_level (codes "Access flag fault") level
    else if (group == 3) && not (level == 0)
    then at_level (codes "Permission fault") level
    else if fsc == 0x10
    then codes "Sync external abort"
    else if group == 5
    then at_level (codes "Sync external abort during translation table walk") level
    else if fsc == 0x18
    then codes "Sync parity fault"
    else if group == 7
    then at_level (codes "Sync parity fault during translation table walk") level
    else if fsc == 0x21
    then codes "Alignment fault"
    else if fsc == 0x22
    then codes "Debug fault"
    else if fsc == 0x30
    then codes "TLB Conflict fault"
    else if fsc == 0x31
    then codes "Atomic fault"
    else unknown

abbrev same_text : Text → Text → Bool
same_text [] [] = true
same_text [] (d ∷ u) = false
same_text (c ∷ t) [] = false
same_text (c ∷ t) (d ∷ u) = (c == d) && same_text t u

same_text→eq : (t u : Text) → same_text t u ≡ true → t ≡ u
same_text→eq [] [] same = refl
same_text→eq [] (d ∷ u) same = absurd (ground arith)
same_text→eq (c ∷ t) [] same = absurd (ground arith)
same_text→eq (c ∷ t) (d ∷ u) same =
    ap₂ (λ (a : ℕ) (b : Text). a ∷ b) (==→eq c d (ground arith)) (same_text→eq t u (ground arith))

abbrev all_below : (n : ℕ) (test : ℕ → Bool) → Bool
all_below zero test = true
all_below (suc n) test = test n && all_below n test

all_below-at : (n : ℕ) (test : ℕ → Bool) (i : ℕ) → all_below n test ≡ true → i < n → test i ≡ true
all_below-at zero test i all small = absurd (omega arith)
all_below-at (suc n) test i all small = elim (Bool-cases (i == n)) [
  | inl same ↦ rw (==→eq i n same) (ground arith)
  | inr other ↦ all_below-at n test i (ground arith) (ground arith)
]

all-described : all_below 64 (λ fsc. same_text (name_of fsc fault_names) (described fsc)) ≡ true
unfolding name_of described
all-described = refl

status_bits : (esr : ℕ) → bit_and esr 0x3F ≡ esr % 64
status_bits esr = omega (arith, bit_and_mask 6 esr)

-- The text for an abort is that of the low 6 bits of the syndrome, for every syndrome.
pub decode_abort_error-described : (esr : ℕ) → decode_abort_error esr ≡ described (esr % 64)
unfolding decode_abort_error
decode_abort_error-described esr = rw (status_bits esr) (
    same_text→eq (name_of (esr % 64) fault_names) (described (esr % 64)) (
      all_below-at 64 (λ fsc. same_text (name_of fsc fault_names) (described fsc)) (esr % 64)
        all-described (omega arith)))

-- No directive stands in the text.
abbrev pub verbatim : Text → Bool
verbatim [] = true
verbatim (c ∷ text) = not (c == b'%') && verbatim text

all-printable :
    all_below 64 (λ fsc.
      verbatim (described fsc) && unbroken (described fsc) && ltb (length (described fsc)) 1024)
    ≡ true
unfolding described
all-printable = refl

pub described-printable :
    (esr : ℕ)
    → verbatim (described (esr % 64))
        && unbroken (described (esr % 64))
        && ltb (length (described (esr % 64))) 1024
      ≡ true
described-printable esr =
    all_below-at 64
      (λ fsc.
        verbatim (described fsc) && unbroken (described fsc) && ltb (length (described fsc)) 1024)
      (esr % 64) all-printable (omega arith)
