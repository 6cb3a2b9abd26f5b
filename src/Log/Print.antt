-- ===== src/Log/Print.antt =====
-- `format_string`, `info` and `error` of kernel/core/log.cpp on a format whose text fits.
use planetoid_os.Base.{
  ℕ, zero, suc, ◌+◌, ◌-◌, ◌^◌, ◌<◌, ◌≡◌, refl, sym, ap, ◌∙◌, subst, ◌⊎◌, inl, inr, Bool, true, not,
  ◌&&◌, Option, some, List, [], ◌∷◌, ◌++◌, arith, ltb, ◌==◌, Bool-cases, Option-cases, length,
  sub64, update,
}
use planetoid_os.Log.{
  Text, Buffer, Argument, codes, put_directive, format_loop, format_string, text_from, log, info,
  error,
}
use planetoid_os.Log.Buffers.{written, written-cons}
use planetoid_os.Log.Directive.{directive, parse_format-directive}
use planetoid_os.Log.Render.{Words, Puts, directive_text, render}
use planetoid_os.Log.Refine.{
  Prints, put_directive-Puts, full-Prints, plain-Prints, piece-Prints, terminator-written,
}

pub List-cases : (text : Text) → (text ≡ []) ⊎ ((c : ℕ) × (rest : Text) × (text ≡ c ∷ rest))
List-cases [] = inl refl
List-cases (c ∷ rest) = inr (c, rest, refl)

format_loop-Prints :
    (fuel : ℕ) (fmt : Text) (args : List Argument) (out_size pos : ℕ) (out : Buffer)
    → out_size < 2 ^ 64
    → 0 < out_size
    → Words args
    → Prints out_size pos out (render fuel fmt args) (format_loop fuel fmt args out_size pos out)
unfolding render format_loop
format_loop-Prints zero fmt args out_size pos out word_size some_room words = tt
format_loop-Prints (suc fuel) [] args out_size pos out word_size some_room words =
    λ fits. ap (λ (b : Buffer). some b) (terminator-written out pos)
format_loop-Prints (suc fuel) (c ∷ fmt) args out_size pos out word_size some_room words =
    let spec = (directive fmt).0 in
    rw (parse_format-directive fmt) (elim (Bool-cases (ltb pos (sub64 out_size 1))) [
      | inr full ↦
          rw full (full-Prints out_size pos out (render (suc fuel) (c ∷ fmt) args) (ground arith))
      | inl room ↦ elim (Bool-cases (c == b'%')) [
        | inr plain ↦
            rw (room, plain)
              (plain-Prints out_size pos c out (render fuel fmt args) _ (
                format_loop-Prints fuel fmt args out_size (pos + 1) (update out pos c) word_size
                  some_room words))
        | inl percent ↦ elim (List-cases (directive fmt).1) [
          | inl ends ↦ rw (room, percent, ends) tt
          | inr (t, after, more) ↦
              let puts = put_directive-Puts spec args out_size pos out word_size words in
              elim (Option-cases (directive_text spec args)) [
                | inl undefined ↦ rw (room, percent, more, undefined) tt
                | inr ((args', piece), known) ↦
                    let wrote_piece =
                      subst
                        (λ (d : Option (List Argument × Text)).
                          Puts out_size pos out d (put_directive spec args out_size pos out))
                        known puts in
                    rw (room, percent, more, known)
                      (piece-Prints out_size pos out piece (render fuel after args') _ (λ fits.
                        rw (parse_format-directive fmt, wrote_piece.1 fits)
                          (format_loop-Prints fuel after args' out_size (pos + length piece)
                            (written out pos piece) word_size some_room wrote_piece.0)))
              ]
        ]
      ]
    ])

-- The text of a format.
abbrev pub rendering : (fmt : Text) → List Argument → Option Text
rendering fmt args = render (suc (length fmt)) fmt args

-- Words for arguments, a format that is defined for them, and a buffer that its text and a terminator
-- fit in: `format_string` ends, writes exactly these to the front of the buffer and leaves the rest as it was.
pub format_string-rendering :
    (out : Buffer) (out_size : ℕ) (fmt : Text) (args : List Argument) (text : Text)
    → out_size < 2 ^ 64
    → Words args
    → rendering fmt args ≡ some text
    → length text < out_size
    → format_string out out_size fmt args ≡ some (written out 0 (text ++ 0 ∷ []))
unfolding format_string
format_string-rendering out out_size fmt args text word_size words defined fits =
    subst
      (λ (r : Option Text).
        Prints out_size 0 out r (format_loop (suc (length fmt)) fmt args out_size 0 out))
      defined
      (format_loop-Prints (suc (length fmt)) fmt args out_size 0 out word_size (omega arith) words)
      (omega (arith, fits))

-- No character of the text ends it.
abbrev pub unbroken : Text → Bool
unbroken [] = true
unbroken (c ∷ text) = not (c == 0) && unbroken text

text_from-written :
    (room at : ℕ) (buffer : Buffer) (text : Text)
    → unbroken text ≡ true
    → length text < room
    → text_from room at (written buffer at (text ++ 0 ∷ [])) ≡ some text
unfolding text_from
text_from-written zero at buffer text whole fits = absurd (omega arith)
text_from-written (suc room) at buffer [] whole fits =
    let here : at - at ≡ 0 = omega arith in rw here (ground arith)
text_from-written (suc room) at buffer (c ∷ text) whole fits =
    let here : at - at ≡ 0 = omega arith in
    let first : written buffer at (c ∷ text ++ 0 ∷ []) at ≡ c = rw here (ground arith) in
    let rest =
      text_from-written room (at + 1) (update buffer at c) text (ground arith) (omega arith) in
    let same = ap (text_from room (at + 1)) (sym (written-cons buffer at c (text ++ 0 ∷ []))) in
    rw (text_from, first, same ∙ rest) (ground arith)

-- `uart_puts` gets the tag, the text of the format and the end of the line.
log_lem :
    (tag : Text) (buffer : Buffer) (fmt : Text) (args : List Argument) (text : Text)
    → Words args
    → rendering fmt args ≡ some text
    → length text < 1024
    → unbroken text ≡ true
    → log tag buffer fmt args ≡ some (tag ∷ text ∷ codes "\r\n" ∷ [])
unfolding log
log_lem tag buffer fmt args text words defined fits whole =
    rw
      (
        log,
        format_string-rendering buffer 1024 fmt args text (omega arith) words defined fits,
        text_from-written 1024 0 buffer text whole fits,
      )
      refl

-- `info` and `error`, where the text of the format has less than 1024 characters and no terminator: they print
-- their tag, that text and the end of the line, whatever the stack held.
pub info-error :
    (buffer : Buffer) (fmt : Text) (args : List Argument) (text : Text)
    → Words args
    → rendering fmt args ≡ some text
    → length text < 1024
    → unbroken text ≡ true
    → (info buffer fmt args ≡ some (codes "[INFO] " ∷ text ∷ codes "\r\n" ∷ []))
      × (error buffer fmt args ≡ some (codes "[ERROR] " ∷ text ∷ codes "\r\n" ∷ []))
unfolding info error
info-error buffer fmt args text words defined fits whole = (
  log_lem (codes "[INFO] ") buffer fmt args text words defined fits whole,
  log_lem (codes "[ERROR] ") buffer fmt args text words defined fits whole,
)
