-- ===== src/KernelHeap/Allocate.antt =====
-- `kmalloc` of kernel/memory/kernel_heap.cpp for sizes that a page holds.
use planetoid_os.Base.{
  length, ◌≤◌, ℕ, ◌+◌, ◌-◌, ◌*◌, ◌/◌, ◌^◌, ◌<◌, ◌≡◌, ◌≢◌, sym, ◌∙◌, subst, Bool, true, ◌&&◌, List,
  arith, ltb, leb, add64,
}
use planetoid_os.Base.Bits.{bit_and_shifted, bit_and_mask}
use planetoid_os.Bitmap.{is_frame_used}
use planetoid_os.Bitmap.Marks.{IsBytes}
use planetoid_os.VirtualMemory.{VirtualMemory}
use planetoid_os.KernelHeap.{Heap, align_size, allocate_from_block}
use planetoid_os.KernelHeap.Chain.{covering}
use planetoid_os.KernelHeap.Invariant.{IsList}
use planetoid_os.KernelHeap.Split.{IsGiven, Gives, allocate_from_block-Gives}
use planetoid_os.KernelHeap.Search.{IsFirstFit, NoneFits}

-- Byte `x` lies in a page that the virtual memory has given out.
abbrev pub paged : VirtualMemory → ℕ → Bool
paged v x =
    leb 0x80000000 x && ltb x 0x81000000 && is_frame_used v.virtual_bitmap ((x - 0x80000000) / 4096)

-- The blocks are a list in pages of the kernel.
pub record IsHeap (h : Heap) (cs : List ℕ) : Type 0 where
  pub list : IsList h.blocks h.first_block cs
  pub placed : (x : ℕ) → covering h.blocks cs x ≢ 0 → paged h.memory x ≡ true
  pub bytes : IsBytes h.memory.virtual_bitmap

-- `kmalloc` gave out memory of at least `size` bytes.
pub record IsAllocated (h : Heap) (cs : List ℕ) (size : ℕ) (r : ℕ × Heap) : Type 0 where
  pub blocks_after : List ℕ
  pub few : length blocks_after ≤ length cs + 2
  pub heap : IsHeap r.1 blocks_after
  pub given : IsGiven h.blocks cs size r.0 r.1.blocks blocks_after

-- `kmalloc` failed: no block of the list fits and no page was to be had.
pub record IsExhausted (h : Heap) (cs : List ℕ) (size : ℕ) (r : ℕ × Heap) : Type 0 where
  pub null : r.0 ≡ 0
  pub heap : IsHeap r.1 cs
  pub none_fits : NoneFits h.blocks size cs
  pub same_blocks : r.1.blocks ≡ h.blocks

-- The size is rounded up to a multiple of 8.
pub align_size_lem : (size : ℕ) → size + 7 < 2 ^ 64 → align_size size ≡ (size + 7) / 8 * 8
align_size_lem size small =
    bit_and_shifted 3 (add64 size 7) (2 ^ 61 - 1)
    ∙ omega (arith, bit_and_mask 61 (add64 size 7 / 2 ^ 3))

-- From a block of the list.
pub Gives-IsAllocated :
    (h : Heap) (cs : List ℕ) (size : ℕ) (r : ℕ × Heap)
    → IsHeap h cs
    → Gives h cs size r
    → IsAllocated h cs size r
Gives-IsAllocated h cs size r heap g = record {
  blocks_after = g.blocks_after;
  few = omega (arith, g.few);
  heap = record {
    list = g.list;
    placed = λ x. rw (g.same_bytes x, g.same_memory) (heap.placed x);
    bytes = rw g.same_memory heap.bytes;
  };
  given = g.given;
}

pub first_fit-IsAllocated :
    (h : Heap) (cs : List ℕ) (size c : ℕ)
    → IsHeap h cs
    → IsFirstFit h.blocks size cs c
    → IsAllocated h cs size (allocate_from_block c size h)
first_fit-IsAllocated h cs size c heap f =
    Gives-IsAllocated h cs size (allocate_from_block c size h) heap (
      subst (λ (l : List ℕ). Gives h l size (allocate_from_block c size h)) (sym f.splits)
        (allocate_from_block-Gives h f.pre c f.post size
          (subst (λ (l : List ℕ). IsList h.blocks h.first_block l) f.splits heap.list) f.free
          f.enough))
