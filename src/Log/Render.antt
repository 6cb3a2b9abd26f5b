-- ===== src/Log/Render.antt =====
-- What a format of kernel/core/log.cpp stands for, as a text, and that `format_string` writes it.
use planetoid_os.Base.{
  ℕ, zero, suc, ◌+◌, ◌-◌, ◌%◌, ◌^◌, ◌<◌, ◌≡◌, refl, sym, ap, ap₂, true, not, Option, none, some,
  List, [], ◌∷◌, ◌++◌, arith, ltb, leb, ◌==◌, if◌then◌else◌, length, sub64, update,
}
use planetoid_os.Log.{
  Text, Buffer, Argument, word, pointer, FormatSpec, Progress, codes, copy_string, put_string,
  put_word,
}
use planetoid_os.Log.Buffers.{written, written-nil, written-cons}
use planetoid_os.Log.Numbers.{wrote, decimal, hexadecimal, binary, shaped}
use planetoid_os.Log.Directive.{directive}

-- The text of one directive, and the arguments that it leaves.
abbrev pub Piece : Type 0
Piece = Option (List Argument × Text)

abbrev pub string_text : List Argument → Piece
string_text (pointer none ∷ args) = some (args, codes "(null)")
string_text (pointer (some str) ∷ args) = some (args, str)
string_text (word v ∷ args) = none
string_text [] = none

abbrev pub word_text : (ℕ → Text) → List Argument → Piece
word_text f (word v ∷ args) = some (args, f v)
word_text f (pointer str ∷ args) = none
word_text f [] = none

-- An `int` of 32 bits in two's complement.
abbrev pub int_text : ℕ → Text
int_text low = if leb (2 ^ 31) low then b'-' ∷ decimal (2 ^ 32 - low) else decimal low

abbrev pub directive_text : FormatSpec → List Argument → Piece
directive_text spec args =
    if spec.type == b's'
    then string_text args
    else if spec.type == b'u'
    then word_text (λ v. decimal (v % 2 ^ 32)) args
    else if spec.type == b'i'
    then word_text (λ v. int_text (v % 2 ^ 32)) args
    else if spec.type == b'x'
    then word_text (λ v. shaped spec.prefix b'x' spec.width (hexadecimal v)) args
    else if spec.type == b'b'
    then word_text (λ v. shaped spec.prefix b'b' spec.width (binary v)) args
    else some (args, b'%' ∷ spec.type ∷ [])

-- The text of a format, where its arguments are there and of the types that it names.
unfoldable pub render : (fuel : ℕ) (fmt : Text) → List Argument → Option Text
render zero fmt args = none
render (suc fuel) [] args = some []
render (suc fuel) (c ∷ fmt) args =
    let rest = render fuel fmt args in
    let (spec, at_type) = directive fmt in
    if not (c == b'%')
    then elim rest [ none ↦ none | some text ↦ some (c ∷ text) ]
    else elim at_type [
      | [] ↦ none
      | ◌∷◌ t after ↦ elim (directive_text spec args) [
        | none ↦ none
        | some (args', piece) ↦ elim (render fuel after args') [
          | none ↦ none
          | some text ↦ some (piece ++ text)
        ]
      ]
    ]

-- The words are words.
abbrev pub Words : List Argument → Type 0
Words [] = Unit
Words (word v ∷ args) = (v < 2 ^ 64) × Words args
Words (pointer str ∷ args) = Words args

-- The directive wrote the piece, if it fits.
abbrev pub Puts : (out_size pos : ℕ) → Buffer → Piece → Option Progress → Type 0
Puts out_size pos out none p = Unit
Puts out_size pos out (some (args, text)) p =
    Words args
    × (pos + length text < out_size → p ≡ some (args, pos + length text, written out pos text))

copy_string-written :
    (str : Text) (out_size pos : ℕ) (out : Buffer)
    → out_size < 2 ^ 64
    → pos + length str < out_size
    → copy_string str out_size pos out ≡ (pos + length str, written out pos str)
unfolding copy_string
copy_string-written [] out_size pos out word_size fits =
    ap₂ (λ (n : ℕ) (b : Buffer). (n, b)) (omega arith) (sym (written-nil out pos))
copy_string-written (c ∷ str) out_size pos out word_size fits =
    let room : ltb pos (sub64 out_size 1) ≡ true = ground arith in
    rw
      (
        room,
        copy_string-written str out_size (pos + 1) (update out pos c) word_size (omega arith),
        written-cons out pos c str,
      )
      (ap (λ (n : ℕ). (n, written out pos (c ∷ str))) (omega arith))

pub put_word-Puts :
    (f : ℕ → Option (ℕ × Buffer)) (g : ℕ → Text) (args : List Argument) (out_size pos : ℕ)
    (out : Buffer)
    → ((v : ℕ) → v < 2 ^ 64 → f v ≡ some (wrote out pos (g v)))
    → Words args
    → Puts out_size pos out (word_text g args) (put_word f args pos)
unfolding put_word
put_word-Puts f g [] out_size pos out agree words = tt
put_word-Puts f g (word v ∷ args) out_size pos out agree words =
    (words.1, λ fits. rw (agree v words.0) refl)
put_word-Puts f g (pointer str ∷ args) out_size pos out agree words = tt

pub put_string-Puts :
    (args : List Argument) (out_size pos : ℕ) (out : Buffer)
    → out_size < 2 ^ 64
    → Words args
    → Puts out_size pos out (string_text args) (put_string args out_size pos out)
unfolding put_string
put_string-Puts [] out_size pos out word_size words = tt
put_string-Puts (word v ∷ args) out_size pos out word_size words = tt
put_string-Puts (pointer none ∷ args) out_size pos out word_size words =
    (words, λ fits. rw (copy_string-written (codes "(null)") out_size pos out word_size fits) refl)
put_string-Puts (pointer (some str) ∷ args) out_size pos out word_size words =
    (words, λ fits. rw (copy_string-written str out_size pos out word_size fits) refl)
