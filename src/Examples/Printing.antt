-- ===== src/Examples/Printing.antt =====
-- Formats and numbers for kernel/core/log.cpp.
use planetoid_os.Base.{ℕ, ◌+◌, ◌≡◌, refl, true, none, some, List, [], ◌∷◌, ◌++◌, arith, max}
use planetoid_os.Log.{
  Text, Buffer, Argument, word, pointer, codes, format_string, format_uint, format_hex, format_bin,
  info, error,
}
use planetoid_os.Log.Numerals.{numeral}
use planetoid_os.Log.Buffers.{written}
use planetoid_os.Log.Render.{Words, render}
use planetoid_os.Log.Print.{rendering, format_string-rendering, info-error}
use planetoid_os.Log.ReadBack.{IsPrinted, skipped_by, format_number-IsPrinted}
use planetoid_os.Log.Directive.{directive}

abbrev noise : Buffer
noise x = 0xFF

abbrev line : Text
line = codes "x=%#4x, %u%% of %s"

abbrev arguments : List Argument
arguments = word 0xAB ∷ word 7 ∷ pointer none ∷ []

abbrev line_text : Text
line_text = codes "x=0x00AB, 7%% of (null)"

line-rendering : rendering line arguments ≡ some line_text
unfolding render directive numeral
line-rendering = refl

arguments-Words : Words arguments
arguments-Words = (omega arith, (omega arith, tt))

format_string-rendering_example :
    format_string noise 64 line arguments ≡ some (written noise 0 (line_text ++ 0 ∷ []))
format_string-rendering_example =
    format_string-rendering noise 64 line arguments line_text (omega arith) arguments-Words
      line-rendering (omega arith)

info-error_example :
    (info noise line arguments ≡ some (codes "[INFO] " ∷ line_text ∷ codes "\r\n" ∷ []))
    × (error noise line arguments ≡ some (codes "[ERROR] " ∷ line_text ∷ codes "\r\n" ∷ []))
info-error_example =
    info-error noise line arguments line_text arguments-Words line-rendering (omega arith) refl

format_number-IsPrinted_example :
    ((r : ℕ × Buffer) × (format_uint 0xAB 3 noise ≡ some r) × IsPrinted 10 0xAB noise 3 0 20 r)
    × ((r : ℕ × Buffer) × (format_hex 0xAB 3 true 4 noise ≡ some r)
        × IsPrinted 16 0xAB noise 3 (skipped_by true) (skipped_by true + max 4 16) r)
    × ((r : ℕ × Buffer) × (format_bin 0xAB 3 true 4 noise ≡ some r)
        × IsPrinted 2 0xAB noise 3 (skipped_by true) (skipped_by true + max 4 64) r)
format_number-IsPrinted_example = format_number-IsPrinted 0xAB 3 4 true noise (omega arith)
