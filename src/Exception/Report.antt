-- ===== src/Exception/Report.antt =====
-- What `sync_exception_handler` of kernel/arch/aarch64/exception.cpp prints.
use planetoid_os.Base.{
  ℕ, zero, suc, ◌-◌, ◌*◌, ◌/◌, ◌%◌, ◌^◌, ◌<◌, ◌≡◌, refl, ap, inl, inr, true, false, ◌&&◌, some,
  List, [], ◌∷◌, ◌++◌, arith, bit_and, ltb, ◌==◌, if◌then◌else◌, ==→eq, Bool-cases, length,
  replicate,
}
use mathlib.Core.List.{append-nil}
use planetoid_os.Base.Bits.{bit_and_mask, bit_and_shifted}
use planetoid_os.Preempt.{ExceptionContext}
use planetoid_os.Log.{Text, Buffer, Argument, word, codes, error}
use planetoid_os.Log.Directive.{directive}
use planetoid_os.Log.Buffers.{padded, length-padded}
use planetoid_os.Log.Numerals.{all_digits}
use planetoid_os.Log.Numbers.{hexadecimal, hexadecimal-IsNumeral}
use planetoid_os.Log.Render.{render}
use planetoid_os.Log.Print.{rendering, unbroken, info-error}
use planetoid_os.Exception.{
  Call, decode_abort_error, get_exception_class, cause_calls, access_calls, sync_calls,
  register_format, print_all, sync_exception_handler,
}
use planetoid_os.Exception.Faults.{
  described, verbatim, described-printable, decode_abort_error-described,
}
use planetoid_os.Exception.Lines.{printed, register_line, headline, details, report}

-- Each call prints its line.
abbrev Says : List Call → List Text → Type 0
Says [] [] = Unit
Says [] (line ∷ lines) = true ≡ false
Says (call ∷ calls) [] = true ≡ false
Says ((fmt, args) ∷ calls) (line ∷ lines) =
    ((buffer : Buffer) → error buffer fmt args ≡ some (codes "[ERROR] " ∷ line ∷ codes "\r\n" ∷ []))
    × Says calls lines

print_all-printed :
    (buffer : Buffer) (calls : List Call) (lines : List Text)
    → Says calls lines
    → print_all buffer calls ≡ some (printed lines)
unfolding print_all
print_all-printed buffer [] [] says = refl
print_all-printed buffer [] (line ∷ lines) says = absurd (ground arith)
print_all-printed buffer (call ∷ calls) [] says = absurd (ground arith)
print_all-printed buffer ((fmt, args) ∷ calls) (line ∷ lines) says =
    rw (print_all, says.0 buffer, print_all-printed buffer calls lines says.1) refl

verbatim-render :
    (text : Text) (args : List Argument)
    → verbatim text ≡ true
    → render (suc (length text)) text args ≡ some text
unfolding render
verbatim-render [] args whole = refl
verbatim-render (c ∷ text) args whole =
    let plain : (c == b'%') ≡ false = ground arith in
    rw (render, plain, verbatim-render text args (ground arith)) refl

-- A format without directives is printed as it is.
Says-verbatim :
    (text : Text)
    → verbatim text && unbroken text && ltb (length text) 1024 ≡ true
    → (buffer : Buffer) → error buffer text [] ≡ some (codes "[ERROR] " ∷ text ∷ codes "\r\n" ∷ [])
Says-verbatim text printable buffer =
    (info-error buffer text [] text tt (verbatim-render text [] (ground arith)) (ground arith)
      (ground arith)).1

register-rendering :
    (value : ℕ) → rendering register_format (word value ∷ []) ≡ some (register_line value)
unfolding render directive
register-rendering value =
    ap (λ (text : Text). some (codes "    0x" ++ text)) (append-nil (padded 8 (hexadecimal value)))

digits-unbroken : (text : Text) → all_digits text ≡ true → unbroken text ≡ true
digits-unbroken [] digits = refl
digits-unbroken (c ∷ text) digits = ground (arith, digits-unbroken text)

zeros-unbroken :
    (n : ℕ) (text : Text) → unbroken text ≡ true → unbroken (replicate n b'0' ++ text) ≡ true
zeros-unbroken zero text whole = whole
zeros-unbroken (suc n) text whole = zeros-unbroken n text whole

Says-register :
    (value : ℕ)
    → value < 2 ^ 64
    → (buffer : Buffer)
    → error buffer register_format (word value ∷ [])
      ≡ some (codes "[ERROR] " ∷ register_line value ∷ codes "\r\n" ∷ [])
Says-register value fits buffer =
    let known = hexadecimal-IsNumeral value fits in
    let count = length-padded 8 (hexadecimal value) in
    (info-error buffer register_format (word value ∷ []) (register_line value) (fits, tt)
      (register-rendering value) (omega (arith, count, known.fits))
      (zeros-unbroken (8 - length (hexadecimal value)) (hexadecimal value)
        (digits-unbroken (hexadecimal value) known.digits))).1

class_bits : (esr : ℕ) → get_exception_class esr ≡ esr / 2 ^ 26 % 64
unfolding get_exception_class
class_bits esr = omega (arith, bit_and_mask 6 (esr / 2 ^ 26))

write_bit : (esr : ℕ) → (bit_and esr 64 == 0) ≡ (esr / 64 % 2 == 0)
write_bit esr =
    let shifted : bit_and esr 64 ≡ bit_and (esr / 64) 1 * 64 = bit_and_shifted 6 esr 1 in
    let low : bit_and (esr / 64) 1 ≡ esr / 64 % 2 = bit_and_mask 1 (esr / 64) in ground arith

Says-access :
    (esr : ℕ)
    → Says (access_calls esr) (
        (if esr / 64 % 2 == 0
          then codes "Fault was a read operation"
          else codes "Fault was a write operation")
        ∷ [])
Says-access esr = elim (Bool-cases (esr / 64 % 2 == 0)) [
  | inl reads ↦
      rw (write_bit esr, reads) (Says-verbatim (codes "Fault was a read operation") refl, tt)
  | inr writes ↦
      rw (write_bit esr, writes) (Says-verbatim (codes "Fault was a write operation") refl, tt)
]

Says-description :
    (esr : ℕ) (buffer : Buffer)
    → error buffer (decode_abort_error esr) []
      ≡ some (codes "[ERROR] " ∷ described (esr % 64) ∷ codes "\r\n" ∷ [])
Says-description esr buffer =
    rw (decode_abort_error-described esr)
      (Says-verbatim (described (esr % 64)) (described-printable esr) buffer)

Says-cause :
    (esr : ℕ)
    → let exception_class = esr / 2 ^ 26 % 64 in
      Says (cause_calls esr) (headline exception_class ∷ details esr exception_class)
unfolding cause_calls
Says-cause esr =
    let ec = esr / 2 ^ 26 % 64 in
    rw (class_bits esr) (elim (Bool-cases (ec == 0x00)) [
      | inl e ↦
          rw (==→eq ec 0x00 e) (Says-verbatim (codes "Unknown or undefined instruction") refl, tt)
      | inr no_unknown ↦ elim (Bool-cases (ec == 0x15)) [
        | inl e ↦ rw (==→eq ec 0x15 e) (Says-verbatim (codes "SVC Instruction") refl, tt)
        | inr no_svc ↦ elim (Bool-cases (ec == 0x20)) [
          | inl e ↦ rw (==→eq ec 0x20 e) (
            Says-verbatim (codes "Instruction abort from lower exception level") refl,
            (Says-description esr, tt),
          )
          | inr no_lower ↦ elim (Bool-cases (ec == 0x21)) [
            | inl e ↦ rw (==→eq ec 0x21 e) (
              Says-verbatim (codes "Instruction abort from current exception level") refl,
              (Says-description esr, tt),
            )
            | inr no_current ↦ elim (Bool-cases (ec == 0x24)) [
              | inl e ↦ rw (==→eq ec 0x24 e) (
                Says-verbatim (codes "Data abort from lower exception level") refl,
                (Says-description esr, Says-access esr),
              )
              | inr no_data ↦ elim (Bool-cases (ec == 0x25)) [
                | inl e ↦ rw (==→eq ec 0x25 e) (
                  Says-verbatim (codes "Data abort from current exception level") refl,
                  (Says-description esr, Says-access esr),
                )
                | inr none_of_them ↦
                    rw (no_unknown, no_svc, no_lower, no_current, no_data, none_of_them)
                      (Says-verbatim (codes "Unknown Error") refl, tt)
              ]
            ]
          ]
        ]
      ]
    ])

-- For registers of 64 bits, and whatever the stack holds, `sync_exception_handler` prints the whole report: the
-- registers, the cause that bits 26 to 31 of the syndrome name, and for an abort the description of its low six
-- bits, for one of a data access with the direction in bit 6. No call of the formatter is undefined or cut short.
pub sync_exception_handler-report :
    (buffer : Buffer) (context : ExceptionContext)
    → context.elr < 2 ^ 64
    → context.far < 2 ^ 64
    → context.esr < 2 ^ 64
    → context.sp < 2 ^ 64
    → sync_exception_handler buffer context ≡ some (printed (report context))
unfolding sync_exception_handler sync_calls
sync_exception_handler-report buffer context elr far esr sp =
    print_all-printed buffer (sync_calls context) (report context) (
      Says-verbatim (codes "Sync exception received!") refl,
      (
        Says-verbatim (codes "ELR: ") refl,
        (
          Says-register context.elr elr,
          (
            Says-verbatim (codes "FAR: ") refl,
            (
              Says-register context.far far,
              (
                Says-verbatim (codes "ESR: ") refl,
                (
                  Says-register context.esr esr,
                  (
                    Says-verbatim (codes "SP: ") refl,
                    (Says-register context.sp sp, Says-cause context.esr),
                  ),
                ),
              ),
            ),
          ),
        ),
      ),
    )
