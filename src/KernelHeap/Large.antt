-- ===== src/KernelHeap/Large.antt =====
-- Memory of more than a page holds in kernel/memory/kernel_heap.cpp: pages of its own, behind a block
-- that is not in the list.
use planetoid_os.Base.{
  ℕ, ◌+◌, ◌-◌, ◌*◌, ◌/◌, ◌^◌, ◌≤◌, ◌<◌, ◌≡◌, refl, ap, ◌⊎◌, inl, inr, true, false, some, List,
  arith, ◌==◌, add64, sub64, update, update_self, update-ne,
}
use planetoid_os.Bitmap.Marks.{IsBytes}
use planetoid_os.PhysicalMemory.{Platform}
use planetoid_os.WaitQueue.Fifo.{member}
use planetoid_os.VirtualMemory.{VirtualMemory, allocate_pages}
use planetoid_os.VirtualMemory.Invariant.{IsVirtual}
use planetoid_os.VirtualMemory.AllocatePages.{IsRestored, IsRunAllocated, allocate_pages_lem}
use planetoid_os.VirtualMemory.FreePages.{free_pages-IsRunAllocated}
use planetoid_os.KernelHeap.{Block, Heap, pages_of, allocate_large, kmalloc, free_large, kfree}
use planetoid_os.KernelHeap.Chain.{
  SameOn, Seg-same, covering-member, covering-same, in_use, in_use-same,
}
use planetoid_os.KernelHeap.Allocate.{paged, IsHeap, align_size_lem}

-- The block in front of `size` bytes on pages of their own.
abbrev pub large_block : ℕ → Block
large_block size = record { size = size; free = false; large = true; next = 0 }

-- `r` is the memory behind such a block: the pages were not marked and are just enough, and the list
-- of blocks is as it was.
pub record IsLarge (p : Platform) (top : ℕ) (h : Heap) (cs : List ℕ) (size : ℕ) (r : ℕ × Heap)
    : Type 0 where
  pub count : ℕ
  pub first : ℕ
  pub run : IsRunAllocated p top count h.memory (0x80000000 + first * 4096, r.1.memory) first
  pub at : r.0 ≡ 0x80000000 + first * 4096 + 24
  pub counts : count ≡ pages_of (add64 size 24)
  pub fits : (size + 24 ≤ count * 4096) × (count * 4096 < size + 24 + 4096)
  pub blocks : r.1.blocks ≡ update h.blocks (0x80000000 + first * 4096) (large_block size)
  pub heap : IsHeap r.1 cs
  pub same_use : (x : ℕ) → in_use r.1.blocks cs x ≡ in_use h.blocks cs x

-- The list of blocks survives marks of further pages and changes of blocks outside it.
heap-same :
    (h h' : Heap) (cs : List ℕ)
    → IsHeap h cs
    → SameOn h.blocks h'.blocks cs
    → h'.first_block ≡ h.first_block
    → ((x : ℕ) → paged h.memory x ≡ true → paged h'.memory x ≡ true)
    → IsBytes h'.memory.virtual_bitmap
    → IsHeap h' cs
heap-same h h' cs heap same same_first marks bytes = record {
  list = record {
    chain = rw same_first (Seg-same h.blocks h'.blocks h.first_block cs 0 same heap.list.chain);
    apart = λ x. rw (covering-same h.blocks h'.blocks cs x same) (heap.list.apart x);
    small = λ x. rw (covering-same h.blocks h'.blocks cs x same) (heap.list.small x);
  };
  placed = λ x covered.
      marks x (heap.placed x (rw (covering-same h.blocks h'.blocks cs x same) at covered));
  bytes = bytes;
}

-- A block at a page that is not marked is not in the list.
unpaged-member :
    (h : Heap) (cs : List ℕ) (x : ℕ) → IsHeap h cs → paged h.memory x ≡ false → member x cs ≡ false
unpaged-member h cs x heap unpaged = ground (arith, heap.placed x, covering-member h.blocks x cs x)

module _ (p : Platform) (top : ℕ) (h : Heap) (cs : List ℕ) (heap : IsHeap h cs)
    (virtual : IsVirtual p top h.memory) where
  pages_of_lem :
      (size : ℕ)
      → size + 24 < 2 ^ 64
      → (size + 24 ≤ pages_of (add64 size 24) * 4096)
        × (pages_of (add64 size 24) * 4096 < size + 24 + 4096)
  pages_of_lem size small = ground arith

  -- The memory behind a run of pages that were just allocated.
  pub pages-IsLarge :
      (size first : ℕ) (memory : VirtualMemory)
      → size + 24 < 2 ^ 64
      → IsRunAllocated p top
          (pages_of (add64 size 24))
          h.memory
          (0x80000000 + first * 4096, memory)
          first
      → IsLarge p top h cs size (
        0x80000000 + first * 4096 + 24,
        record h {
          blocks = update h.blocks (0x80000000 + first * 4096) (large_block size);
          memory = memory;
        },
      )
  pages-IsLarge size first memory small run =
      let address = 0x80000000 + first * 4096 in
      let in_range = run.run.in_range in
      let unmarked = run.run.free first (omega arith) (omega (arith, run.positive)) in
      let outside : member address cs ≡ false = unpaged-member h cs address heap (
        let page : (address - 0x80000000) / 4096 ≡ first = omega arith in
        rw (page, unmarked) (ground arith)) in
      let same : SameOn h.blocks (update h.blocks address (large_block size)) cs =
        λ c listed. update-ne h.blocks address _ c (λ e. cc (ap (λ (a : ℕ). member a cs) e)) in
      record {
        count = pages_of (add64 size 24);
        first = first;
        run = run;
        at = refl;
        counts = refl;
        fits = pages_of_lem size small;
        blocks = refl;
        heap =
            heap-same h _ cs heap same refl
              (λ x marked. ground (arith, run.filled.marks ((x - 0x80000000) / 4096)))
              run.filled.virtual.bytes;
        same_use = λ x. in_use-same h.blocks _ cs x same;
      }

  allocate_large-cases :
      (size : ℕ)
      → size + 24 < 2 ^ 64
      → let r = allocate_large p (top * 4096) size h in
        IsLarge p top h cs size r
        ⊎ ((r.0 ≡ 0)
            × IsRestored p top h.memory r.1.memory
            × (r.1 ≡ record h { memory = r.1.memory }))
  unfolding allocate_large
  allocate_large-cases size small =
      elim (allocate_pages_lem p top (pages_of (add64 size 24)) h.memory virtual) [
        | inr (failed, restored) ↦ rw failed (inr (refl, restored, refl))
        | inl (first, run) ↦
            let nonzero : (0x80000000 + first * 4096 == 0) ≡ false = ground arith in
            let address : add64 (0x80000000 + first * 4096) 24 ≡ 0x80000000 + first * 4096 + 24 =
              omega (arith, run.run.in_range) in
            rw (run.address, nonzero, address)
              (inl (
                pages-IsLarge size first
                  (allocate_pages p (top * 4096) (pages_of (add64 size 24)) h.memory).1 small
                  (record {
                    positive = run.positive;
                    run = run.run;
                    address = refl;
                    filled = run.filled;
                  })))
      ]

  -- `kmalloc` of more than 4072 and less than 2^64 - 40 bytes either gives memory of that size, rounded up to a multiple of 8,
  -- on pages of its own that were not marked, or returns null with the same pages marked and
  -- mapped; the list of blocks is as it was, and any fuel is enough.
  pub kmalloc-IsLarge :
      (fuel size : ℕ)
      → 4072 < size
      → size + 40 < 2 ^ 64
      → (r : ℕ × Heap) × (kmalloc p (top * 4096) fuel size h ≡ some r)
        × (IsLarge p top h cs ((size + 7) / 8 * 8) r
            ⊎ ((r.0 ≡ 0)
                × IsRestored p top h.memory r.1.memory
                × (r.1 ≡ record h { memory = r.1.memory })))
  unfolding kmalloc
  kmalloc-IsLarge fuel size large word =
      let aligned = align_size_lem size (omega arith) in
      (
        allocate_large p (top * 4096) ((size + 7) / 8 * 8) h,
        rw aligned (ground arith),
        allocate_large-cases ((size + 7) / 8 * 8) (omega arith),
      )

  -- `kfree` of such memory ends with any fuel and gives the pages back: the same pages are marked and
  -- mapped as before the allocation, and no block changes.
  pub kfree-IsLarge :
      (fuel size : ℕ) (r : ℕ × Heap)
      → IsLarge p top h cs size r
      → (h' : Heap) × (kfree p (top * 4096) fuel r.0 r.1 ≡ some h')
        × IsRestored p top h.memory h'.memory
        × (h' ≡ record (r.1) { memory = h'.memory })
  unfolding kfree free_large
  kfree-IsLarge fuel size r l =
      let in_range = l.run.run.in_range in
      let address : sub64 r.0 24 ≡ 0x80000000 + l.first * 4096 = omega (arith, l.at) in
      let nonzero : (r.0 == 0) ≡ false = ground (arith, l.at) in
      let block : r.1.blocks (0x80000000 + l.first * 4096) ≡ large_block size =
        rw l.blocks (update_self h.blocks _ _) in
      (
        free_large p (top * 4096) (0x80000000 + l.first * 4096) r.1,
        rw (nonzero, address, block) refl,
        rw (block, ← l.counts)
            (free_pages-IsRunAllocated p top l.count l.first h.memory _ virtual l.run).1,
        refl,
      )
