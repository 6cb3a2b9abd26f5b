-- ===== src/Log.antt =====
-- kernel/core/log.cpp: the formatter, and the lines that `info` and `error` print.
--
-- A text is a list of character codes without the terminator, a buffer a function from indices to
-- characters. `none` is undefined behaviour: an argument that is missing or of another type, a format
-- that ends in the middle of a directive, and a write past the end of a local array.
pub mod Numerals
pub mod Buffers
pub mod Numbers
pub mod Directive
pub mod Render
pub mod Refine
pub mod Print
pub mod ReadBack
pub mod Ends
use Prim.Native.Char.{code}
use Prim.Native.String.{String}
use planetoid_os.Base.{
  ℕ, zero, suc, ◌+◌, ◌-◌, ◌*◌, ◌/◌, ◌%◌, ◌^◌, Bool, true, false, not, ◌&&◌, Option, none, some,
  List, [], ◌∷◌, ◌++◌, reverse, bit_and, ltb, leb, ◌==◌, if◌then◌else◌, length, u64_mod, u32_mod,
  sub64, ◌>>◌, update, for_range,
}

abbrev pub codes : String → List ℕ
codes String.[] = []
codes (String.◌∷◌ c s) = code c ∷ codes s

abbrev pub Text : Type 0
Text = List ℕ

abbrev pub Buffer : Type 0
Buffer = ℕ → ℕ

-- What `va_arg` takes from the list: a machine word, or a pointer to a text, `none` for the null one.
pub data Argument : Type 0 where
  word : ℕ → Argument
  pointer : Option Text → Argument

pub record FormatSpec : Type 0 where
  pub prefix : Bool
  pub width : ℕ
  pub type : ℕ

-- The loop of `parse_format`, and where it leaves the format.
unfoldable pub parse_width : (fmt : Text) (width : ℕ) → ℕ × Text
parse_width [] width = (width, [])
parse_width (c ∷ fmt) width =
    let rest = parse_width fmt ((width * 10 + (c - b'0')) % u32_mod) in
    if leb b'0' c && leb c b'9' then rest else (width, c ∷ fmt)

-- The character that `fmt` points at, the terminator at its end.
abbrev pub at_front : Text → ℕ
at_front [] = 0
at_front (c ∷ fmt) = c

abbrev pub skip : Text → Text
skip [] = []
skip (c ∷ fmt) = fmt

unfoldable pub parse_format : (fmt : Text) → FormatSpec × Text
parse_format fmt =
    let prefix = at_front fmt == b'#' in
    let (width, rest) = parse_width (if prefix then skip fmt else fmt) 0 in
    (record { prefix = prefix; width = width; type = at_front rest }, rest)

-- The first loop of `pad_left`, and the one that makes room for a prefix: the `count` characters from
-- `at` move up by `by`, the last one first.
unfoldable pub move_up : (count by at : ℕ) → Buffer → Buffer
move_up zero by at buffer = buffer
move_up (suc i) by at buffer = move_up i by at (update buffer (at + i + by) (buffer (at + i)))

unfoldable pub pad_left : (at count width : ℕ) → Buffer → ℕ × Buffer
pad_left at count width buffer =
    if leb width count
    then (count, buffer)
    else let pad = width - count in
      (
        width,
        for_range pad 0 (λ i (b : Buffer). update b (at + i) b'0') (move_up count pad at buffer),
      )

-- The loops that take a number apart, the last digit first. The array `temp` has `room` characters.
unfoldable pub take_digits : (room : ℕ) (digit next : ℕ → ℕ) (value : ℕ) → Option Text
take_digits zero digit next value = if value == 0 then some [] else none
take_digits (suc room) digit next value =
    let rest = take_digits room digit next (next value) in
    if value == 0
    then some []
    else elim rest [ none ↦ none | some temp ↦ some (digit value ∷ temp) ]

-- The loops that copy `temp` to the buffer, from its last character on.
unfoldable pub copy_text : (text : Text) (at : ℕ) → Buffer → Buffer
copy_text [] at buffer = buffer
copy_text (c ∷ text) at buffer = copy_text text (at + 1) (update buffer at c)

abbrev pub decimal_digit : ℕ → ℕ
decimal_digit value = b'0' + value % 10

unfoldable pub format_uint : (value at : ℕ) → Buffer → Option (ℕ × Buffer)
format_uint value at buffer =
    if value == 0
    then some (1, update buffer at b'0')
    else elim (take_digits 20 decimal_digit (λ v. v / 10) value) [
      | none ↦ none
      | some temp ↦ some (length temp, copy_text (reverse temp) at buffer)
    ]

-- `value` is an `int64_t` in two's complement.
unfoldable pub format_int : (value at : ℕ) → Buffer → Option (ℕ × Buffer)
format_int value at buffer =
    if leb (2 ^ 63) value
    then elim (format_uint (sub64 0 value) (at + 1) (update buffer at b'-')) [
      | none ↦ none
      | some (count, written) ↦ some (1 + count, written)
    ]
    else format_uint value at buffer

-- What `format_hex` and `format_bin` do with the digits.
unfoldable pub put_digits :
    (letter : ℕ) (temp : Text) (at : ℕ) (prefix : Bool) (width : ℕ) → Buffer → ℕ × Buffer
put_digits letter temp at prefix width buffer =
    let (count, padded) = pad_left at (length temp) width (copy_text (reverse temp) at buffer) in
    if prefix
    then (count + 2, update (update (move_up count 2 at padded) at b'0') (at + 1) letter)
    else (count, padded)

-- `"0123456789ABCDEF"[value & 0xF]`
abbrev pub hex_digit : ℕ → ℕ
hex_digit value =
    let digit = bit_and value 0xF in if ltb digit 10 then b'0' + digit else b'A' + (digit - 10)

unfoldable pub format_hex :
    (value at : ℕ) (prefix : Bool) (width : ℕ) → Buffer → Option (ℕ × Buffer)
format_hex value at prefix width buffer =
    elim (if value == 0 then some (b'0' ∷ []) else take_digits 32 hex_digit (λ v. v >> 4) value) [
      | none ↦ none
      | some temp ↦ some (put_digits b'x' temp at prefix width buffer)
    ]

abbrev pub binary_digit : ℕ → ℕ
binary_digit value = if bit_and value 1 == 0 then b'0' else b'1'

unfoldable pub format_bin :
    (value at : ℕ) (prefix : Bool) (width : ℕ) → Buffer → Option (ℕ × Buffer)
format_bin value at prefix width buffer =
    elim (if value == 0
      then some (b'0' ∷ [])
      else take_digits 66 binary_digit (λ v. v >> 1) value) [
        | none ↦ none
        | some temp ↦ some (put_digits b'b' temp at prefix width buffer)
      ]

-- The loop of `%s`.
unfoldable pub copy_string : (str : Text) (out_size pos : ℕ) → Buffer → ℕ × Buffer
copy_string [] out_size pos out = (pos, out)
copy_string (c ∷ str) out_size pos out =
    let rest = copy_string str out_size (pos + 1) (update out pos c) in
    if ltb pos (sub64 out_size 1) then rest else (pos, out)

-- `(int64_t)(int)v`
abbrev pub sign_extend : ℕ → ℕ
sign_extend v = let low = v % u32_mod in if leb (2 ^ 31) low then low + (2 ^ 64 - 2 ^ 32) else low

-- Behind the arguments that are left: how far `out` is written.
abbrev pub Progress : Type 0
Progress = List Argument × ℕ × Buffer

abbrev pub advance : (args : List Argument) (pos : ℕ) → Option (ℕ × Buffer) → Option Progress
advance args pos none = none
advance args pos (some (count, out)) = some (args, pos + count, out)

unfoldable pub put_string : List Argument → (out_size pos : ℕ) → Buffer → Option Progress
put_string (pointer none ∷ args) out_size pos out =
    let (pos', out') = copy_string (codes "(null)") out_size pos out in some (args, pos', out')
put_string (pointer (some str) ∷ args) out_size pos out =
    let (pos', out') = copy_string str out_size pos out in some (args, pos', out')
put_string (word v ∷ args) out_size pos out = none
put_string [] out_size pos out = none

-- A directive that formats a word by `f`.
unfoldable pub put_word :
    (f : ℕ → Option (ℕ × Buffer)) → List Argument → (pos : ℕ) → Option Progress
put_word f (word v ∷ args) pos = advance args pos (f v)
put_word f (pointer str ∷ args) pos = none
put_word f [] pos = none

-- The cases of `format_string`'s `switch`.
unfoldable pub put_directive :
    FormatSpec → List Argument → (out_size pos : ℕ) → Buffer → Option Progress
put_directive spec args out_size pos out =
    if spec.type == b's'
    then put_string args out_size pos out
    else if spec.type == b'u'
    then put_word (λ v. format_uint (v % u32_mod) pos out) args pos
    else if spec.type == b'i'
    then put_word (λ v. format_int (sign_extend v) pos out) args pos
    else if spec.type == b'x'
    then put_word (λ v. format_hex v pos spec.prefix spec.width out) args pos
    else if spec.type == b'b'
    then put_word (λ v. format_bin v pos spec.prefix spec.width out) args pos
    else some (args, pos + 2, update (update out pos b'%') (pos + 1) spec.type)

-- The loop of `format_string`. The format is one character shorter in each round, so fuel beyond
-- its length is enough.
unfoldable pub format_loop :
    (fuel : ℕ) (fmt : Text) → List Argument → (out_size pos : ℕ) → Buffer → Option Buffer
format_loop zero fmt args out_size pos out = none
format_loop (suc fuel) [] args out_size pos out = some (update out pos 0)
format_loop (suc fuel) (c ∷ fmt) args out_size pos out =
    let copied = format_loop fuel fmt args out_size (pos + 1) (update out pos c) in
    let (spec, at_type) = parse_format fmt in
    if not (ltb pos (sub64 out_size 1))
    then some (update out pos 0)
    else if not (c == b'%')
    then copied
    else elim at_type [
      | [] ↦ none
      | ◌∷◌ t after ↦ elim (put_directive spec args out_size pos out) [
        | none ↦ none
        | some (args', pos', out') ↦ format_loop fuel after args' out_size pos' out'
      ]
    ]

unfoldable pub format_string :
    (out : Buffer) (out_size : ℕ) (fmt : Text) → List Argument → Option Buffer
format_string out out_size fmt args = format_loop (suc (length fmt)) fmt args out_size 0 out

-- The text that starts at `at`, if it ends within `room` characters.
unfoldable pub text_from : (room at : ℕ) → Buffer → Option Text
text_from zero at buffer = none
text_from (suc room) at buffer =
    let rest = text_from room (at + 1) buffer in
    if buffer at == 0
    then some []
    else elim rest [ none ↦ none | some text ↦ some (buffer at ∷ text) ]

-- The calls of `uart_puts` by `info` and `error`. `buffer` is what the stack holds before.
unfoldable pub log :
    (tag : Text) (buffer : Buffer) (fmt : Text) → List Argument → Option (List Text)
log tag buffer fmt args = elim (format_string buffer 1024 fmt args) [
  | none ↦ none
  | some written ↦ elim (text_from 1024 0 written) [
    | none ↦ none
    | some text ↦ some (tag ∷ text ∷ codes "\r\n" ∷ [])
  ]
]

unfoldable pub info : (buffer : Buffer) (fmt : Text) → List Argument → Option (List Text)
info = log (codes "[INFO] ")

unfoldable pub error : (buffer : Buffer) (fmt : Text) → List Argument → Option (List Text)
error = log (codes "[ERROR] ")
