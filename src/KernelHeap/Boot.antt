-- ===== src/KernelHeap/Boot.antt =====
-- `KernelHeapAllocator::init` of kernel/memory/kernel_heap.cpp.
use planetoid_os.Base.{
  ℕ, ◌*◌, ◌≡◌, refl, sym, ◌⊎◌, inl, inr, false, List, [], ◌∷◌, arith, ◌==◌, ==→eq, Bool-cases,
}
use planetoid_os.Bitmap.Marks.{IsBytes}
use planetoid_os.PhysicalMemory.{Platform}
use planetoid_os.Mmu.Tree.{Role, IsMmu}
use planetoid_os.VirtualMemory.{allocate_page}
use planetoid_os.KernelHeap.{Heap, create_block, init}
use planetoid_os.KernelHeap.Chain.{in_use}
use planetoid_os.KernelHeap.Extend.{fresh, first-IsExtended}
use planetoid_os.KernelHeap.Allocate.{IsHeap}
use planetoid_os.KernelHeap.Create.{create_block-cases}

-- A heap of one free block, or none.
pub record IsFresh (h : Heap) : Type 0 where
  pub blocks_after : List ℕ
  pub heap : IsHeap h blocks_after
  pub one_page :
      (blocks_after ≡ []) ⊎ ((blocks_after ≡ h.first_block ∷ []) × (h.blocks h.first_block ≡ fresh))
  pub unused : (x : ℕ) → in_use h.blocks blocks_after x ≡ false

pub no_blocks-IsHeap :
    (h : Heap) → h.first_block ≡ 0 → IsBytes h.memory.virtual_bitmap → IsHeap h []
no_blocks-IsHeap h first bytes = record {
  list = record { chain = first; apart = λ x. omega arith; small = λ x ne. absurd (ne refl) };
  placed = λ x ne. absurd (ne refl);
  bytes = bytes;
}

init-fresh :
    (p : Platform) (top : ℕ) (owner : ℕ → Role) (h : Heap)
    → IsMmu p top owner h.memory.mmu
    → IsBytes h.memory.virtual_bitmap
    → IsFresh (init p (top * 4096) h)
unfolding init
init-fresh p top owner h mmu bytes = elim (create_block-cases p top owner h mmu bytes) [
  | inr (none_left, same_blocks, same_first, same_pages) ↦ record {
    blocks_after = [];
    heap = no_blocks-IsHeap (init p (top * 4096) h) none_left (rw same_pages bytes);
    one_page = inl refl;
    unused = λ x. refl;
  }
  | inl made ↦
      let extended = first-IsExtended h.blocks h.first_block made.address made.nonnull made.high in
      rw made.result (record {
        blocks_after = made.address ∷ [];
        heap = record {
          list = extended.list;
          placed = λ x. rw (extended.bytes x, made.now_paged x) (ground arith);
          bytes = made.bytes;
        };
        one_page = inr (refl, extended.block);
        unused = extended.same_use;
      })
]

-- On well-formed tables and a bitmap of bytes, `init` leaves a list of blocks, of which none is given
-- out: it begins at the page that `allocate_page` gives, which is one block, and is empty where
-- `allocate_page` returns 0.
pub init-IsFresh :
    (p : Platform) (top : ℕ) (owner : ℕ → Role) (h : Heap)
    → IsMmu p top owner h.memory.mmu
    → IsBytes h.memory.virtual_bitmap
    → IsFresh (init p (top * 4096) h)
      × ((init p (top * 4096) h).first_block ≡ (allocate_page p (top * 4096) h.memory).0)
      × ((init p (top * 4096) h).memory ≡ (allocate_page p (top * 4096) h.memory).1)
unfolding init create_block
init-IsFresh p top owner h mmu bytes = (
  init-fresh p top owner h mmu bytes,
  elim (Bool-cases ((allocate_page p (top * 4096) h.memory).0 == 0)) [
    | inl nothing ↦ rw nothing (sym (==→eq _ 0 nothing))
    | inr page ↦ rw page refl
  ],
  ground arith,
)
