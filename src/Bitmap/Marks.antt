-- ===== src/Bitmap/Marks.antt =====
-- Setting and clearing the bit of one frame, and of a range of frames, seen through
-- `is_frame_used`.
use planetoid_os.Base.{ℕ, ◌/◌, ◌%◌, ◌<◌, ◌≡◌, true, false, ◌==◌, if◌then◌else◌, update, arith}
use planetoid_os.Bitmap.{Bitmap, set_frame_used, set_frame_free, is_frame_used}
use planetoid_os.Bitmap.Bytes.{set-lt, clear-lt, test_bit-set, test_bit-clear, test_bit-full}
use planetoid_os.Base.Bits.{zero-bit_and}

-- Every cell is a `uint8_t`.
abbrev pub IsBytes : Bitmap → Type 0
IsBytes bitmap = (i : ℕ) → bitmap i < 256

update-IsBytes :
    (bitmap : Bitmap) (i v : ℕ) → IsBytes bitmap → v < 256 → IsBytes (update bitmap i v)
unfolding update
update-IsBytes bitmap i v bytes h j = ground (arith, bytes j)

module _ (bitmap : Bitmap) (frame : ℕ) (bytes : IsBytes bitmap) where
  pub set_frame_used-IsBytes : IsBytes (set_frame_used bitmap frame)
  unfolding set_frame_used
  set_frame_used-IsBytes =
      update-IsBytes bitmap (frame / 8) _ bytes
        (set-lt (bitmap (frame / 8)) (frame % 8) (bytes (frame / 8)) (omega arith))

  pub set_frame_free-IsBytes : IsBytes (set_frame_free bitmap frame)
  unfolding set_frame_free
  set_frame_free-IsBytes =
      update-IsBytes bitmap (frame / 8) _ bytes
        (clear-lt (bitmap (frame / 8)) (frame % 8) (bytes (frame / 8)) (omega arith))

  pub is_frame_used-set_frame_used :
      (g : ℕ)
      → is_frame_used (set_frame_used bitmap frame) g
        ≡ (if frame == g then true else is_frame_used bitmap g)
  unfolding is_frame_used set_frame_used update
  is_frame_used-set_frame_used g = ground (
    arith,
    test_bit-set (bitmap (frame / 8)) (frame % 8) (bytes (frame / 8)) (omega arith) (g % 8),
  )

  pub is_frame_used-set_frame_free :
      (g : ℕ)
      → is_frame_used (set_frame_free bitmap frame) g
        ≡ (if frame == g then false else is_frame_used bitmap g)
  unfolding is_frame_used set_frame_free update
  is_frame_used-set_frame_free g = ground (
    arith,
    test_bit-clear (bitmap (frame / 8)) (frame % 8) (bytes (frame / 8)) (omega arith) (g % 8),
  )

-- A byte 0xFF says that its eight frames are in use, a byte 0 that none is.
pub is_frame_used-full :
    (bitmap : Bitmap) (g : ℕ) → bitmap (g / 8) ≡ 0xFF → is_frame_used bitmap g ≡ true
unfolding is_frame_used
is_frame_used-full bitmap g full = rw full (test_bit-full (g % 8) (omega arith))

pub is_frame_used-zero :
    (bitmap : Bitmap) (g : ℕ) → bitmap (g / 8) ≡ 0 → is_frame_used bitmap g ≡ false
unfolding is_frame_used
is_frame_used-zero bitmap g empty = rw (empty, zero-bit_and)
