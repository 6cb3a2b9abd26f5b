-- ===== src/PhysicalMemory/Free.antt =====
-- `free_frame` of kernel/memory/physical_memory.cpp against the set of free addresses.
use planetoid_os.Base.{
  ℕ, ◌-◌, ◌/◌, ◌^◌, ◌≤◌, ◌<◌, ◌≡◌, ◌≢◌, inl, inr, true, ◌&&◌, arith, ltb, ◌==◌, if◌then◌else◌,
  ltb→le, Bool-cases,
}
use planetoid_os.Bitmap.{set_frame_free}
use planetoid_os.Bitmap.Marks.{set_frame_free-IsBytes, is_frame_used-set_frame_free}
use planetoid_os.PhysicalMemory.{
  Platform, PhysicalMemory, physical_memory_base, get_frame_number, allocate_frame, free_frame,
}
use planetoid_os.PhysicalMemory.Ranges.{base_lem, get_frame_number_lem}
use planetoid_os.PhysicalMemory.Allocate.{
  IsWellFormed, managed, available, IsAllocation, allocated_of_nonzero,
}

module _ (p : Platform) (m : PhysicalMemory) (wf : IsWellFormed p m) where
  frame_of :
      (a : ℕ)
      → physical_memory_base p ≤ a
      → a < 2 ^ 64
      → get_frame_number p a ≡ (a - physical_memory_base p) / 4096
  frame_of a low h = omega (arith, get_frame_number_lem p a low h, base_lem p)

  free_frame-eq :
      (address : ℕ)
      → address < 2 ^ 64
      → free_frame p address m ≡ (
          if managed p m address
          then record m {
            bitmap = set_frame_free m.bitmap ((address - physical_memory_base p) / 4096);
          }
          else m)
  unfolding free_frame
  free_frame-eq address h = elim (Bool-cases (ltb address (physical_memory_base p))) [
    | inl low ↦ rw low (ground arith)
    | inr high ↦ rw high (rw (frame_of address (ltb→le _ _ high) h) (ground arith))
  ]

  -- `free_frame` frees the frame at a managed address, no other, and ignores every other address.
  pub free_frame-available :
      (address b : ℕ)
      → address < 2 ^ 64
      → available p (free_frame p address m) b
        ≡ (if managed p m address && (address == b) then true else available p m b)
  free_frame-available address b h = ground (
    arith,
    free_frame-eq address h,
    is_frame_used-set_frame_free m.bitmap ((address - physical_memory_base p) / 4096) wf.bytes
        ((b - physical_memory_base p) / 4096),
    base_lem p,
  )

  pub free_frame-IsWellFormed :
      (address : ℕ) → address ≢ 0 → address < 2 ^ 64 → IsWellFormed p (free_frame p address m)
  free_frame-IsWellFormed address ne h =
      rw (free_frame-eq address h) (elim (Bool-cases (managed p m address)) [
        | inl yes_managed ↦ rw yes_managed (record {
          bytes = set_frame_free-IsBytes m.bitmap _ wf.bytes;
          fits = wf.fits;
          zero_reserved = λ e. ground (
            arith,
            wf.zero_reserved e,
            is_frame_used-set_frame_free m.bitmap ((address - physical_memory_base p) / 4096)
                wf.bytes 0,
            base_lem p,
          );
        })
        | inr unmanaged ↦ rw unmanaged wf
      ])

  pub free_frame-count : (address : ℕ) → (free_frame p address m).frame_count ≡ m.frame_count
  unfolding free_frame
  free_frame-count address = ground arith

-- Giving back the frame that was just taken makes the set of free frames what it was.
pub free_frame-allocate_frame :
    (p : Platform) (m : PhysicalMemory)
    → IsWellFormed p m
    → let (address, m') = allocate_frame p m in
      address ≢ 0 → (b : ℕ) → available p (free_frame p address m') b ≡ available p m b
free_frame-allocate_frame p m wf ne b = ground (
  arith,
  first.was_free,
  first.same_count,
  first.now_taken b,
  wf.fits,
  free_frame-available p (allocate_frame p m).1 first.kept (allocate_frame p m).0 b,
)
  where
    first : IsAllocation p m (allocate_frame p m)
    first = allocated_of_nonzero p m wf ne
