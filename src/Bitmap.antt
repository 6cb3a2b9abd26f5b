-- ===== src/Bitmap.antt =====
-- The bitmaps of kernel/memory/physical_memory.cpp and kernel/memory/virtual_memory.cpp, which hold
-- one bit for each frame or page: the two files spell the same three functions. A bitmap is the
-- memory behind its first byte, as a function from the byte's offset.
pub mod Bytes
pub mod Marks
use planetoid_os.Base.{ℕ, ◌-◌, ◌/◌, ◌%◌, ◌^◌, ◌<<◌, Bool, not, bit_and, bit_or}
use planetoid_os.Base.{◌==◌, update, u32_mod, for_range}

abbrev pub Bitmap : Type 0
Bitmap = ℕ → ℕ

-- `(uint8_t)(1U << bit_index)`
abbrev pub bit_mask : ℕ → ℕ
bit_mask bit_index = (1 << bit_index) % 2 ^ 8

-- `(uint8_t)(~(1U << bit_index))`
abbrev pub clear_mask : ℕ → ℕ
clear_mask bit_index = (u32_mod - 1 - (1 << bit_index)) % 2 ^ 8

unfoldable pub set_frame_used : Bitmap → ℕ → Bitmap
set_frame_used bitmap frame =
    let byte_index = frame / 8 in
    let bit_index = frame % 8 in
    update bitmap byte_index (bit_or (bitmap byte_index) (bit_mask bit_index))

unfoldable pub set_frame_free : Bitmap → ℕ → Bitmap
set_frame_free bitmap frame =
    let byte_index = frame / 8 in
    let bit_index = frame % 8 in
    update bitmap byte_index (bit_and (bitmap byte_index) (clear_mask bit_index))

unfoldable pub is_frame_used : Bitmap → ℕ → Bool
is_frame_used bitmap frame =
    let byte_index = frame / 8 in
    let bit_index = frame % 8 in not (bit_and (bitmap byte_index) (bit_mask bit_index) == 0)
