-- ===== src/Log/Refine.antt =====
-- `format_string`, `info` and `error` of kernel/core/log.cpp write what the format stands for.
use planetoid_os.Base.{
  ℕ, ◌+◌, ◌%◌, ◌^◌, ◌≤◌, ◌<◌, ◌≡◌, refl, sym, ap, ◌∙◌, inl, inr, Option, none, some, List, [], ◌∷◌,
  ◌++◌, arith, ◌-◌, leb, ◌==◌, Bool-cases, length, length-append, update,
}
use mathlib.Core.List.{append_assoc}
use planetoid_os.Log.{
  Text, Buffer, Argument, FormatSpec, copy_text, sign_extend, put_directive, format_uint,
  format_int, format_hex, format_bin,
}
use planetoid_os.Log.Buffers.{written, written-cons, written-append, copy_text-written}
use planetoid_os.Log.Numbers.{
  wrote, decimal, hexadecimal, binary, signed_decimal, shaped, format_uint-written,
  format_int-written, format_hex-written, format_bin-written,
}
use planetoid_os.Log.Render.{Words, Puts, int_text, directive_text, put_word-Puts, put_string-Puts}

two_written :
    (out : Buffer) (pos c d : ℕ)
    → update (update out pos c) (pos + 1) d ≡ written out pos (c ∷ d ∷ [])
unfolding copy_text
two_written out pos c d = copy_text-written (c ∷ d ∷ []) pos out

signed_decimal-int_text : (v : ℕ) → signed_decimal (sign_extend v) ≡ int_text (v % 2 ^ 32)
signed_decimal-int_text v = elim (Bool-cases (leb (2 ^ 31) (v % 2 ^ 32))) [
  | inl negative ↦
      let same : 2 ^ 64 - (v % 2 ^ 32 + (2 ^ 64 - 2 ^ 32)) ≡ 2 ^ 32 - v % 2 ^ 32 = omega arith in
      rw (negative, same) (ground arith)
  | inr positive ↦ rw positive (ground arith)
]

pub put_directive-Puts :
    (spec : FormatSpec) (args : List Argument) (out_size pos : ℕ) (out : Buffer)
    → out_size < 2 ^ 64
    → Words args
    → Puts out_size pos out (directive_text spec args) (put_directive spec args out_size pos out)
unfolding put_directive
put_directive-Puts spec args out_size pos out word_size words =
    elim (Bool-cases (spec.type == b's')) [
      | inl s ↦ rw s (put_string-Puts args out_size pos out word_size words)
      | inr no_s ↦ elim (Bool-cases (spec.type == b'u')) [
        | inl u ↦
            rw (no_s, u)
              (put_word-Puts (λ v. format_uint (v % 2 ^ 32) pos out) (λ v. decimal (v % 2 ^ 32))
                args out_size pos out
                (λ v small. format_uint-written (v % 2 ^ 32) pos out (omega arith)) words)
        | inr no_u ↦ elim (Bool-cases (spec.type == b'i')) [
          | inl i ↦
              rw (no_s, no_u, i)
                (put_word-Puts (λ v. format_int (sign_extend v) pos out)
                  (λ v. int_text (v % 2 ^ 32)) args out_size pos out
                  (λ v small.
                    format_int-written (sign_extend v) pos out (ground arith)
                    ∙ ap (λ (t : Text). some (wrote out pos t)) (signed_decimal-int_text v))
                  words)
          | inr no_i ↦ elim (Bool-cases (spec.type == b'x')) [
            | inl x ↦
                rw (no_s, no_u, no_i, x)
                  (put_word-Puts (λ v. format_hex v pos spec.prefix spec.width out)
                    (λ v. shaped spec.prefix b'x' spec.width (hexadecimal v)) args out_size pos out
                    (λ v small. format_hex-written v pos spec.prefix spec.width out small) words)
            | inr no_x ↦ elim (Bool-cases (spec.type == b'b')) [
              | inl b ↦
                  rw (no_s, no_u, no_i, no_x, b)
                    (put_word-Puts (λ v. format_bin v pos spec.prefix spec.width out)
                      (λ v. shaped spec.prefix b'b' spec.width (binary v)) args out_size pos out
                      (λ v small. format_bin-written v pos spec.prefix spec.width out small) words)
              | inr no_b ↦
                  rw (no_s, no_u, no_i, no_x, no_b)
                    (words, λ fits. rw (two_written out pos b'%' spec.type) refl)
            ]
          ]
        ]
      ]
    ]

-- The loop wrote the text and the terminator, if they fit.
abbrev pub Prints : (out_size pos : ℕ) → Buffer → Option Text → Option Buffer → Type 0
Prints out_size pos out none r = Unit
Prints out_size pos out (some text) r =
    pos + length text < out_size → r ≡ some (written out pos (text ++ 0 ∷ []))

pub terminator-written : (out : Buffer) (pos : ℕ) → update out pos 0 ≡ written out pos (0 ∷ [])
unfolding copy_text
terminator-written out pos = copy_text-written (0 ∷ []) pos out

-- Where the buffer is full nothing but the terminator fits.
pub full-Prints :
    (out_size pos : ℕ) (out : Buffer) (text : Option Text)
    → out_size ≤ pos + 1
    → Prints out_size pos out text (some (update out pos 0))
full-Prints out_size pos out none full = tt
full-Prints out_size pos out (some []) full =
    λ fits. ap (λ (b : Buffer). some b) (terminator-written out pos)
full-Prints out_size pos out (some (c ∷ text)) full = λ fits. absurd (omega arith)

pub plain-Prints :
    (out_size pos c : ℕ) (out : Buffer) (text : Option Text) (r : Option Buffer)
    → Prints out_size (pos + 1) (update out pos c) text r
    → Prints out_size pos out (elim text [ none ↦ none | some t ↦ some (c ∷ t) ]) r
plain-Prints out_size pos c out none r p = tt
plain-Prints out_size pos c out (some text) r p =
    λ fits. p (omega arith) ∙ ap (λ (b : Buffer). some b) (written-cons out pos c (text ++ 0 ∷ []))

-- A piece, and then the rest.
pub piece-Prints :
    (out_size pos : ℕ) (out : Buffer) (piece : Text) (text : Option Text) (r : Option Buffer)
    → (pos + length piece < out_size
        → Prints out_size (pos + length piece) (written out pos piece) text r)
    → Prints out_size pos out (elim text [ none ↦ none | some t ↦ some (piece ++ t) ]) r
piece-Prints out_size pos out piece none r p = tt
piece-Prints out_size pos out piece (some text) r p = λ fits.
    let counts = length-append piece text in
    p (omega (arith, counts)) (omega (arith, counts))
    ∙ ap (λ (b : Buffer). some b)
        (written-append out pos piece (text ++ 0 ∷ [])
          ∙ ap (written out pos) (sym (append_assoc piece text (0 ∷ []))))
