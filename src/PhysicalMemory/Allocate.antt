-- ===== src/PhysicalMemory/Allocate.antt =====
-- `allocate_frame` and `free_frame` of kernel/memory/physical_memory.cpp against a set of free
-- addresses.
use planetoid_os.Base.{
  ℕ, zero, suc, ◌+◌, ◌-◌, ◌*◌, ◌/◌, ◌%◌, ◌^◌, ◌≤◌, ◌<◌, ◌≡◌, ◌≢◌, refl, sym, ap, ◌∙◌, ◌⊎◌, inl, inr,
  Bool, true, false, not, ◌&&◌, arith, ltb, leb, ◌==◌, if◌then◌else◌, ==→eq, ==→ne, Bool-cases,
}
use planetoid_os.Bitmap.{set_frame_used, is_frame_used}
use planetoid_os.Bitmap.Marks.{IsBytes, set_frame_used-IsBytes, is_frame_used-set_frame_used}
use planetoid_os.PhysicalMemory.{
  Platform, PhysicalMemory, physical_memory_base, frame_address, allocate_from, allocate_frame,
}
use planetoid_os.PhysicalMemory.Ranges.{base_lem}

-- The state between two calls: cells are bytes, every frame has a 64-bit address, and a frame at
-- address 0, which `allocate_frame` could not tell from a failure, is never free.
pub record IsWellFormed (p : Platform) (m : PhysicalMemory) : Type 0 where
  pub bytes : IsBytes m.bitmap
  pub fits : physical_memory_base p + m.frame_count * 4096 < 2 ^ 64
  pub zero_reserved : physical_memory_base p ≡ 0 → is_frame_used m.bitmap 0 ≡ true

-- `address` is the address of a frame that the allocator manages.
abbrev pub managed : Platform → PhysicalMemory → ℕ → Bool
managed p m address =
    leb (physical_memory_base p) address
    && (address % 4096 == 0)
    && ltb ((address - physical_memory_base p) / 4096) m.frame_count

-- `address` is the address of a free frame.
abbrev pub available : Platform → PhysicalMemory → ℕ → Bool
available p m address =
    managed p m address && not (is_frame_used m.bitmap ((address - physical_memory_base p) / 4096))

abbrev pub NoneAvailable : Platform → PhysicalMemory → Type 0
NoneAvailable p m = (address : ℕ) → available p m address ≡ false

-- `frame` is the lowest free frame.
record IsFirstFree (m : PhysicalMemory) (frame : ℕ) : Type 0 where
  below : frame < m.frame_count
  free : is_frame_used m.bitmap frame ≡ false
  lower : (g : ℕ) → g < frame → is_frame_used m.bitmap g ≡ true

abbrev AllUsed : PhysicalMemory → Type 0
AllUsed m = (g : ℕ) → g < m.frame_count → is_frame_used m.bitmap g ≡ true

abbrev taken : PhysicalMemory → ℕ → PhysicalMemory
taken m frame = record m { bitmap = set_frame_used m.bitmap frame }

allocate_from-cases :
    (p : Platform) (left frame : ℕ) (m : PhysicalMemory)
    → frame + left ≡ m.frame_count
    → ((g : ℕ) → g < frame → is_frame_used m.bitmap g ≡ true)
    → (AllUsed m × (allocate_from p left frame m ≡ (0, m)))
      ⊎ ((f : ℕ) × IsFirstFree m f
          × (allocate_from p left frame m ≡ (frame_address p f, taken m f)))
unfolding allocate_from
allocate_from-cases p zero frame m e lower = inl ((λ g h. lower g (omega arith)), refl)
allocate_from-cases p (suc left) frame m e lower =
    elim (Bool-cases (is_frame_used m.bitmap frame)) [
      | inl used ↦ rw used (
          allocate_from-cases p left (frame + 1) m (omega arith) (λ g h.
            elim (Bool-cases (g == frame)) [
              | inl same ↦ rw (==→eq g frame same) used
              | inr other ↦ lower g (omega (arith, ==→ne g frame other))
            ]))
      | inr free ↦
          rw free (inr (frame, record { below = omega arith; free = free; lower = lower }, refl))
    ]

allocate_frame-cases :
    (p : Platform) (m : PhysicalMemory)
    → (AllUsed m × (allocate_frame p m ≡ (0, m)))
      ⊎ ((f : ℕ) × IsFirstFree m f × (allocate_frame p m ≡ (frame_address p f, taken m f)))
unfolding allocate_frame
allocate_frame-cases p m =
    allocate_from-cases p m.frame_count 0 m (omega arith) (λ g h. absurd (omega arith))

-- What a caller may rely on: a nonzero result is a free frame, the lowest, and exactly this frame
-- stops being free; a zero result means that no frame is free, and nothing changes.
pub record IsAllocation (p : Platform) (m : PhysicalMemory) (r : ℕ × PhysicalMemory) : Type 0 where
  pub was_free : available p m r.0 ≡ true
  pub lowest : (b : ℕ) → available p m b ≡ true → r.0 ≤ b
  pub now_taken : (b : ℕ) → available p r.1 b ≡ (if r.0 == b then false else available p m b)
  pub same_count : r.1.frame_count ≡ m.frame_count
  pub kept : IsWellFormed p r.1

module _ (p : Platform) (m : PhysicalMemory) (wf : IsWellFormed p m) where
  frame_address_lem :
      (f : ℕ) → f < m.frame_count → frame_address p f ≡ physical_memory_base p + f * 4096
  frame_address_lem f h = omega (arith, wf.fits)

  first-IsAllocation : (f : ℕ) → IsFirstFree m f → IsAllocation p m (frame_address p f, taken m f)
  first-IsAllocation f first = rw (frame_address_lem f first.below) (record {
    was_free = ground (arith, base_lem p, first.free);
    lowest = λ b h. ground (arith, base_lem p, first.lower ((b - physical_memory_base p) / 4096));
    now_taken = λ b. ground (
      arith,
      base_lem p,
      is_frame_used-set_frame_used m.bitmap f wf.bytes ((b - physical_memory_base p) / 4096),
    );
    same_count = refl;
    kept = record {
      bytes = set_frame_used-IsBytes m.bitmap f wf.bytes;
      fits = wf.fits;
      zero_reserved = λ e.
          ground (arith, wf.zero_reserved e, is_frame_used-set_frame_used m.bitmap f wf.bytes 0);
    };
  })

  none-available : AllUsed m → NoneAvailable p m
  none-available all address = ground (arith, all ((address - physical_memory_base p) / 4096))

  frame_address-ne-zero : (f : ℕ) → IsFirstFree m f → frame_address p f ≢ 0
  frame_address-ne-zero f first e = elim (Bool-cases p.pi5) [
    | inl pi5 ↦ ground (arith, frame_address_lem f first.below, first.free, wf.zero_reserved)
    | inr virt ↦ ground (arith, frame_address_lem f first.below)
  ]

  -- `allocate_frame` on a well-formed allocator, in which a frame at address 0 is not free, either takes
  -- the lowest free frame, at an address that is not 0, or finds none free, returns 0 and changes nothing.
  pub allocate_frame_lem :
      (((allocate_frame p m).0 ≢ 0) × IsAllocation p m (allocate_frame p m))
      ⊎ (NoneAvailable p m × (allocate_frame p m ≡ (0, m)))
  allocate_frame_lem = elim (allocate_frame-cases p m) [
    | inl (all, e) ↦ inr (none-available all, e)
    | inr (f, first, e) ↦ inl (rw e (frame_address-ne-zero f first, first-IsAllocation f first))
  ]

  pub allocated_of_nonzero : (allocate_frame p m).0 ≢ 0 → IsAllocation p m (allocate_frame p m)
  allocated_of_nonzero ne = elim allocate_frame_lem [
    | inl (_, a) ↦ a
    | inr (_, failed) ↦ absurd (ne (ap (λ (r : ℕ × PhysicalMemory). r.0) failed))
  ]

-- Two allocations in a row give different frames.
pub allocate_frame_twice :
    (p : Platform) (m : PhysicalMemory)
    → IsWellFormed p m
    → let (first, m') = allocate_frame p m in first ≢ 0 → (allocate_frame p m').0 ≢ first
allocate_frame_twice p m wf ne e = elim (allocate_frame_lem p (allocate_frame p m).1 first.kept) [
  | inl (_, second) ↦
      ground (arith, second.was_free, first.now_taken (allocate_frame p (allocate_frame p m).1).0)
  | inr (_, failed) ↦ ne (sym e ∙ ap (λ (r : ℕ × PhysicalMemory). r.0) failed)
]
  where
    first : IsAllocation p m (allocate_frame p m)
    first = allocated_of_nonzero p m wf ne
