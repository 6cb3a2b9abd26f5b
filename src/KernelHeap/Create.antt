-- ===== src/KernelHeap/Create.antt =====
-- `create_block` of kernel/memory/kernel_heap.cpp.
use planetoid_os.Base.{
  ℕ, ◌+◌, ◌-◌, ◌*◌, ◌/◌, ◌^◌, ◌≤◌, ◌<◌, ◌≡◌, ◌≢◌, refl, ◌⊎◌, inl, inr, true, false, ◌&&◌, ◌||◌,
  arith, ltb, leb, ◌==◌, ne→==, update,
}
use planetoid_os.Bitmap.Marks.{IsBytes, set_frame_used-IsBytes, is_frame_used-set_frame_used}
use planetoid_os.PhysicalMemory.{Platform}
use planetoid_os.Mmu.Tree.{Role, IsMmu}
use planetoid_os.VirtualMemory.{VirtualMemory, allocate_page}
use planetoid_os.VirtualMemory.Allocate.{allocate_page_lem}
use planetoid_os.KernelHeap.{Heap, create_block}
use planetoid_os.KernelHeap.Extend.{fresh, in_page}
use planetoid_os.KernelHeap.Allocate.{paged}

-- A page at `a` for the heap: it was not given out, now it is, and its header is written.
pub record IsCreated (h : Heap) (r : ℕ × Heap) : Type 0 where
  pub address : ℕ
  pub nonnull : address ≢ 0
  pub high : address + 4096 ≤ 2 ^ 63
  pub memory : VirtualMemory
  pub result : r ≡ (address, record h { blocks = update h.blocks address fresh; memory = memory })
  pub unpaged : (x : ℕ) → in_page address x ≡ true → paged h.memory x ≡ false
  pub now_paged : (x : ℕ) → paged memory x ≡ (paged h.memory x || in_page address x)
  pub bytes : IsBytes memory.virtual_bitmap

page_at :
    (page x : ℕ)
    → page < 4096
    → (leb 0x80000000 x && ltb x 0x81000000 && (page == (x - 0x80000000) / 4096))
      ≡ in_page (0x80000000 + page * 4096) x
page_at page x small = ground arith

-- The page of a byte.
page_byte :
    (page x : ℕ)
    → page < 4096
    → in_page (0x80000000 + page * 4096) x ≡ true
    → (x - 0x80000000) / 4096 ≡ page
page_byte page x small inside = ground arith

pub create_block-cases :
    (p : Platform) (top : ℕ) (owner : ℕ → Role) (h : Heap)
    → IsMmu p top owner h.memory.mmu
    → IsBytes h.memory.virtual_bitmap
    → let r = create_block p (top * 4096) h in
      IsCreated h r
      ⊎ ((r.0 ≡ 0)
          × (r.1.blocks ≡ h.blocks)
          × (r.1.first_block ≡ h.first_block)
          × (r.1.memory.virtual_bitmap ≡ h.memory.virtual_bitmap))
unfolding create_block
create_block-cases p top owner h mmu bytes = elim (allocate_page_lem p top owner h.memory mmu) [
  | inr (null, unbacked) ↦ rw null (inr (refl, refl, refl, unbacked.unmarked))
  | inl (page, small, at, unused, backed) ↦
      let r = allocate_page p (top * 4096) h.memory in
      let a = 0x80000000 + page * 4096 in
      rw (ne→== r.0 0 (λ e. absurd (omega (arith, at, e))), at)
        (inl (record {
          address = a;
          nonnull = λ e. absurd (omega (arith, e));
          high = omega arith;
          memory = r.1;
          result = refl;
          unpaged =
              λ x inside. ground (arith, page_at page x small, unused, page_byte page x small);
          now_paged = λ x.
              rw
                (
                  backed.marked,
                  is_frame_used-set_frame_used h.memory.virtual_bitmap page bytes
                      ((x - 0x80000000) / 4096),
                )
                (ground (arith, page_at page x small));
          bytes = rw backed.marked (set_frame_used-IsBytes h.memory.virtual_bitmap page bytes);
        }))
]
