-- ===== src/PhysicalMemory/Ranges.antt =====
-- The loops of kernel/memory/physical_memory.cpp that mark a run of frames, and the rounding of
-- `set_frame_range_used`.
use planetoid_os.Base.{
  ℕ, zero, suc, ◌+◌, ◌-◌, ◌*◌, ◌/◌, ◌%◌, ◌^◌, ◌≤◌, ◌<◌, ◌≡◌, ap, ap₂, ◌∙◌, inl, inr, Bool, true,
  false, ◌&&◌, arith, ltb, leb, if◌then◌else◌, Bool-cases, add64, sub64, for_range,
}
use planetoid_os.Base.Bits.{bit_and_shifted, bit_and_mask}
use planetoid_os.Bitmap.{Bitmap, set_frame_used, set_frame_free, is_frame_used}
use planetoid_os.Bitmap.Marks.{
  IsBytes, set_frame_used-IsBytes, set_frame_free-IsBytes, is_frame_used-set_frame_used,
  is_frame_used-set_frame_free,
}
use planetoid_os.PhysicalMemory.{
  Platform, page_size, physical_memory_base, get_frame_number, mark_used, mark_free, align_down,
  set_frame_range_used,
}

-- `g` is one of the `count` frames from `first` on.
abbrev pub within : (first count g : ℕ) → Bool
within first count g = leb first g && ltb g (first + count)

abbrev used_body : ℕ → ℕ → Bitmap → Bitmap
used_body first frame bitmap = set_frame_used bitmap (add64 first frame)

abbrev free_body : ℕ → ℕ → Bitmap → Bitmap
free_body first frame bitmap = set_frame_free bitmap (add64 first frame)

used_loop :
    (n i first : ℕ) (bitmap : Bitmap) (g : ℕ)
    → IsBytes bitmap
    → first + i + n ≤ 2 ^ 64
    → is_frame_used (for_range n i (used_body first) bitmap) g
      ≡ (if within (first + i) n g then true else is_frame_used bitmap g)
unfolding for_range
used_loop zero i first bitmap g bytes h = ground arith
used_loop (suc n) i first bitmap g bytes h = ground (
  arith,
  used_loop n (i + 1) first (set_frame_used bitmap (add64 first i)) g
      (set_frame_used-IsBytes bitmap (add64 first i) bytes) (omega arith),
  is_frame_used-set_frame_used bitmap (add64 first i) bytes g,
)

used_loop-IsBytes :
    (n i first : ℕ) (bitmap : Bitmap)
    → IsBytes bitmap
    → IsBytes (for_range n i (used_body first) bitmap)
unfolding for_range
used_loop-IsBytes zero i first bitmap bytes = bytes
used_loop-IsBytes (suc n) i first bitmap bytes =
    used_loop-IsBytes n (i + 1) first _ (set_frame_used-IsBytes bitmap (add64 first i) bytes)

free_loop :
    (n i first : ℕ) (bitmap : Bitmap) (g : ℕ)
    → IsBytes bitmap
    → first + i + n ≤ 2 ^ 64
    → is_frame_used (for_range n i (free_body first) bitmap) g
      ≡ (if within (first + i) n g then false else is_frame_used bitmap g)
unfolding for_range
free_loop zero i first bitmap g bytes h = ground arith
free_loop (suc n) i first bitmap g bytes h = ground (
  arith,
  free_loop n (i + 1) first (set_frame_free bitmap (add64 first i)) g
      (set_frame_free-IsBytes bitmap (add64 first i) bytes) (omega arith),
  is_frame_used-set_frame_free bitmap (add64 first i) bytes g,
)

free_loop-IsBytes :
    (n i first : ℕ) (bitmap : Bitmap)
    → IsBytes bitmap
    → IsBytes (for_range n i (free_body first) bitmap)
unfolding for_range
free_loop-IsBytes zero i first bitmap bytes = bytes
free_loop-IsBytes (suc n) i first bitmap bytes =
    free_loop-IsBytes n (i + 1) first _ (set_frame_free-IsBytes bitmap (add64 first i) bytes)

module _ (count first : ℕ) (bitmap : Bitmap) (bytes : IsBytes bitmap) where
  pub mark_used-IsBytes : IsBytes (mark_used count first bitmap)
  mark_used-IsBytes = used_loop-IsBytes count 0 first bitmap bytes

  pub mark_free-IsBytes : IsBytes (mark_free count first bitmap)
  mark_free-IsBytes = free_loop-IsBytes count 0 first bitmap bytes

  pub is_frame_used-mark_used :
      (g : ℕ)
      → first + count ≤ 2 ^ 64
      → is_frame_used (mark_used count first bitmap) g
        ≡ (if within first count g then true else is_frame_used bitmap g)
  is_frame_used-mark_used g h = ground (arith, used_loop count 0 first bitmap g bytes (omega arith))

  pub is_frame_used-mark_free :
      (g : ℕ)
      → first + count ≤ 2 ^ 64
      → is_frame_used (mark_free count first bitmap) g
        ≡ (if within first count g then false else is_frame_used bitmap g)
  is_frame_used-mark_free g h = ground (arith, free_loop count 0 first bitmap g bytes (omega arith))

-- `address & ~(PAGE_SIZE - 1)` rounds down to a page.
pub align_down_lem : (address : ℕ) → address < 2 ^ 64 → align_down address ≡ address / 4096 * 4096
align_down_lem address h =
    bit_and_shifted 12 address (2 ^ 52 - 1) ∙ omega (arith, bit_and_mask 52 (address / 4096))

pub base_lem :
    (p : Platform) → (physical_memory_base p % 4096 ≡ 0) × (physical_memory_base p ≤ 2 ^ 30)
base_lem p = ground arith

pub get_frame_number_lem :
    (p : Platform) (a : ℕ)
    → physical_memory_base p ≤ a
    → a < 2 ^ 64
    → get_frame_number p a ≡ a / 4096 - physical_memory_base p / 4096
unfolding get_frame_number
get_frame_number_lem p a low h = elim (Bool-cases p.pi5) [
  | inl e ↦ rw e (omega arith)
  | inr e ↦ rw e (omega (arith, rw e at low))
]

module _ (p : Platform) (address size : ℕ) (low : physical_memory_base p ≤ address)
    (fits : address + size + 4096 ≤ 2 ^ 64) where
  aligned_end_lem :
      align_down (sub64 (add64 (add64 address size) page_size) 1)
      ≡ (address + size + 4095) / 4096 * 4096
  aligned_end_lem = align_down_lem _ (omega arith) ∙ ap (λ (t : ℕ). t / 4096 * 4096) (omega arith)

  range-mark_used :
      (bitmap : Bitmap)
      → set_frame_range_used p address size bitmap
        ≡ mark_used
            ((address + size + 4095) / 4096 - address / 4096)
            (address / 4096 - physical_memory_base p / 4096)
            bitmap
  unfolding set_frame_range_used
  range-mark_used bitmap =
      rw (align_down_lem address (omega arith), aligned_end_lem)
        (ap₂ (λ count first. mark_used count first bitmap) (omega arith)
          (get_frame_number_lem p _ (omega (arith, base_lem p)) (omega arith) ∙ omega arith))

pub set_frame_range_used-IsBytes :
    (p : Platform) (address size : ℕ) (bitmap : Bitmap)
    → IsBytes bitmap
    → IsBytes (set_frame_range_used p address size bitmap)
unfolding set_frame_range_used
set_frame_range_used-IsBytes p address size bitmap bytes = mark_used-IsBytes _ _ bitmap bytes

-- The frames of `[address, address + size)` on a platform whose memory starts at or below
-- `address`: those whose page meets the range. `set_frame_range_used` marks these and no other.
pub is_frame_used-set_frame_range_used :
    (p : Platform) (address size : ℕ) (bitmap : Bitmap) (g : ℕ)
    → IsBytes bitmap
    → physical_memory_base p ≤ address
    → address + size + 4096 ≤ 2 ^ 64
    → is_frame_used (set_frame_range_used p address size bitmap) g ≡ (
        if leb (address / 4096) (g + physical_memory_base p / 4096)
          && ltb ((g + physical_memory_base p / 4096) * 4096) (address + size)
        then true
        else is_frame_used bitmap g)
is_frame_used-set_frame_range_used p address size bitmap g bytes low fits = ground (
  arith,
  range-mark_used p address size low fits bitmap,
  is_frame_used-mark_used ((address + size + 4095) / 4096 - address / 4096)
      (address / 4096 - physical_memory_base p / 4096) bitmap bytes g (omega arith),
  base_lem p,
)
