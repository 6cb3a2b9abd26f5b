-- ===== src/KernelHeap/Kmalloc.antt =====
-- `kmalloc` of kernel/memory/kernel_heap.cpp for sizes that a page holds, new pages included.
use planetoid_os.Base.{
  length-append, ℕ, ◌+◌, ◌-◌, ◌*◌, ◌/◌, ◌≤◌, ◌<◌, ◌≡◌, ◌≢◌, refl, sym, ap, ◌∙◌, subst, ◌⊎◌, inl,
  inr, true, false, ◌||◌, some, List, [], ◌∷◌, ◌++◌, arith, ltb, ne→==, length, update,
}
use planetoid_os.Bitmap.Marks.{IsBytes}
use planetoid_os.PhysicalMemory.{Platform}
use planetoid_os.Mmu.Tree.{Role, IsMmu}
use planetoid_os.WaitQueue.Fifo.{last_or}
use planetoid_os.KernelHeap.{
  Block, Heap, align_size, allocate_from_block, create_block, allocate_new, kmalloc,
}
use planetoid_os.KernelHeap.Chain.{covering}
use planetoid_os.KernelHeap.Invariant.{IsList, nonzero}
use planetoid_os.KernelHeap.Split.{allocate_from_block-Gives}
use planetoid_os.KernelHeap.Search.{NoneFits, find_block-cases}
use planetoid_os.KernelHeap.Extend.{
  fresh, in_page, IsExtended, first-IsExtended, linked-IsExtended, last-splits,
}
use planetoid_os.KernelHeap.Allocate.{
  paged, IsHeap, IsAllocated, IsExhausted, align_size_lem, first_fit-IsAllocated,
}
use planetoid_os.KernelHeap.Create.{IsCreated, create_block-cases}

-- The new page is the last block of the list when it is asked for its memory.
record IsLinked (h : Heap) (cs : List ℕ) (size : ℕ) (r : ℕ × Heap) : Type 0 where
  address : ℕ
  linked : Heap
  result : r ≡ allocate_from_block address size linked
  extended : IsExtended h.blocks cs address linked.blocks linked.first_block
  now_paged : (x : ℕ) → paged linked.memory x ≡ (paged h.memory x || in_page address x)
  bytes : IsBytes linked.memory.virtual_bitmap

-- A page that was not given out holds no byte of the list.
created-unused :
    (h : Heap) (cs : List ℕ) (r : ℕ × Heap)
    → IsHeap h cs
    → (made : IsCreated h r) → (x : ℕ) → in_page made.address x ≡ true
    → covering h.blocks cs x ≡ 0
created-unused h cs r heap made x inside = ground (arith, heap.placed x, made.unpaged x inside)

allocate_new-IsLinked :
    (p : Platform) (top size : ℕ) (h : Heap) (cs : List ℕ)
    → IsHeap h cs
    → IsCreated h (create_block p (top * 4096) h)
    → IsLinked h cs size (allocate_new p (top * 4096) size (last_or 0 cs) h)
unfolding allocate_new
allocate_new-IsLinked p top size h [] heap made =
    rw (made.result, ne→== made.address 0 made.nonnull)
      (record {
        address = made.address;
        linked = record {
          blocks = update h.blocks made.address fresh;
          first_block = made.address;
          memory = made.memory;
        };
        result = refl;
        extended = first-IsExtended h.blocks h.first_block made.address made.nonnull made.high;
        now_paged = made.now_paged;
        bytes = made.bytes;
      })
allocate_new-IsLinked p top size h (c ∷ cs) heap made =
    let split = last-splits c cs in
    let l = last_or c cs in
    let list = subst (λ (ds : List ℕ). IsList h.blocks h.first_block ds) split.1 heap.list in
    let l_nonzero : l ≢ 0 = nonzero h.blocks h.first_block split.0 l [] list in
    let unused : (x : ℕ)
        → in_page made.address x ≡ true
        → covering h.blocks (split.0 ++ l ∷ []) x ≡ 0 =
      subst (λ (ds : List ℕ). (x : ℕ) → in_page made.address x ≡ true → covering h.blocks ds x ≡ 0)
        split.1 (created-unused h (c ∷ cs) (create_block p (top * 4096) h) heap made) in
    rw (made.result, ne→== made.address 0 made.nonnull, ne→== l 0 l_nonzero)
      (record {
        address = made.address;
        linked = record {
          blocks =
              update (update h.blocks made.address fresh) l
                (record (update h.blocks made.address fresh l) { next = made.address });
          first_block = h.first_block;
          memory = made.memory;
        };
        result = refl;
        extended =
            subst
              (λ (ds : List ℕ).
                IsExtended h.blocks ds made.address
                  (update (update h.blocks made.address fresh) l
                    (record (update h.blocks made.address fresh l) { next = made.address }))
                  h.first_block)
              (sym split.1)
              (linked-IsExtended h.blocks h.first_block made.address made.nonnull made.high split.0
                l list unused);
        now_paged = made.now_paged;
        bytes = made.bytes;
      })

-- The new block is large enough for what a page holds.
linked-IsAllocated :
    (h : Heap) (cs : List ℕ) (size : ℕ) (r : ℕ × Heap)
    → IsHeap h cs
    → size ≤ 4072
    → IsLinked h cs size r
    → IsAllocated h cs size r
linked-IsAllocated h cs size r heap small l =
    let e = l.extended in
    let g =
      allocate_from_block-Gives l.linked cs l.address [] size e.list
        (ap (λ (b : Block). b.free) e.block) (rw e.block small) in
    rw l.result (record {
      blocks_after = g.blocks_after;
      few = omega (arith, g.few, length-append cs (l.address ∷ []));
      heap = record {
        list = g.list;
        placed = λ x.
            rw (g.same_bytes x, g.same_memory, e.bytes x, l.now_paged x)
              (ground (arith, heap.placed x));
        bytes = rw g.same_memory l.bytes;
      };
      given = record {
        block = g.given.block;
        at = g.given.at;
        listed = g.given.listed;
        extent = g.given.extent;
        size_of = g.given.size_of;
        enough = g.given.enough;
        nonnull = g.given.nonnull;
        was_unused = λ x h. sym (e.same_use x) ∙ g.given.was_unused x h;
        now_used = λ x. g.given.now_used x ∙ rw (e.same_use x) refl;
      };
    })

-- No page was to be had.
allocate_new-IsExhausted :
    (p : Platform) (level1_table size previous : ℕ) (h : Heap) (cs : List ℕ)
    → IsHeap h cs
    → NoneFits h.blocks size cs
    → let made = create_block p level1_table h in
      (made.0 ≡ 0)
      → (made.1.blocks ≡ h.blocks)
      → (made.1.first_block ≡ h.first_block)
      → (made.1.memory.virtual_bitmap ≡ h.memory.virtual_bitmap)
      → IsExhausted h cs size (allocate_new p level1_table size previous h)
unfolding allocate_new
allocate_new-IsExhausted p level1_table size previous h cs heap none_fits null same_blocks
      same_first same_pages =
    rw null (record {
      null = refl;
      heap = record {
        list = rw (same_blocks, same_first) heap.list;
        placed = λ x. rw (same_blocks, same_pages) (heap.placed x);
        bytes = rw same_pages heap.bytes;
      };
      none_fits = none_fits;
      same_blocks = same_blocks;
    })

-- The branches of `kmalloc` behind its checks of the size.
kmalloc_aligned :
    (p : Platform) (top fuel size : ℕ) (owner : ℕ → Role) (h : Heap) (cs : List ℕ)
    → IsHeap h cs
    → IsMmu p top owner h.memory.mmu
    → length cs < fuel
    → size ≢ 0
    → align_size size ≤ 4072
    → (r : ℕ × Heap) × (kmalloc p (top * 4096) fuel size h ≡ some r)
      × (IsAllocated h cs (align_size size) r ⊎ IsExhausted h cs (align_size size) r)
unfolding kmalloc
kmalloc_aligned p top fuel size owner h cs heap mmu enough nonzero small =
    let a = align_size size in
    let test : ltb (18446744073709551615 - 24) a ≡ false = ground arith in
    let page_holds : ltb 4072 a ≡ false = ground arith in
    rw (ne→== size 0 nonzero, test, page_holds)
      (elim (find_block-cases fuel h.blocks a 0 h.first_block cs heap.list.chain enough) [
        | inl (c, q, found, e, f) ↦
            rw (e, ne→== c 0 found)
              (allocate_from_block c a h, refl, inl (first_fit-IsAllocated h cs a c heap f))
        | inr (e, none_fits) ↦ rw e (
          allocate_new p (top * 4096) a (last_or 0 cs) h,
          refl,
          elim (create_block-cases p top owner h mmu heap.bytes) [
            | inl made ↦ inl (
                linked-IsAllocated h cs a _ heap small
                  (allocate_new-IsLinked p top a h cs heap made))
            | inr (null, same_blocks, same_first, same_pages) ↦ inr (
                allocate_new-IsExhausted p (top * 4096) a (last_or 0 cs) h cs heap none_fits null
                  same_blocks same_first same_pages)
          ],
        )
      ])

-- `kmalloc` of at most 4072 bytes, where the fuel exceeds the number of blocks: it ends, and either
-- returns memory of `size` bytes rounded up to a multiple of 8, none of which was given out before, so
-- that exactly the bytes returned are given out in addition; or it returns null, no block
-- of the list is free and large enough, and the blocks are as before. The blocks form a list either way.
pub kmalloc_lem :
    (p : Platform) (top fuel size : ℕ) (owner : ℕ → Role) (h : Heap) (cs : List ℕ)
    → IsHeap h cs
    → IsMmu p top owner h.memory.mmu
    → length cs < fuel
    → 0 < size
    → size ≤ 4072
    → let aligned = (size + 7) / 8 * 8 in
      (r : ℕ × Heap) × (kmalloc p (top * 4096) fuel size h ≡ some r)
      × (IsAllocated h cs aligned r ⊎ IsExhausted h cs aligned r)
kmalloc_lem p top fuel size owner h cs heap mmu enough some_bytes small =
    let aligned = align_size_lem size (omega arith) in
    subst
      (λ (a : ℕ).
        (r : ℕ × Heap) × (kmalloc p (top * 4096) fuel size h ≡ some r)
        × (IsAllocated h cs a r ⊎ IsExhausted h cs a r))
      aligned
      (kmalloc_aligned p top fuel size owner h cs heap mmu enough (λ e. absurd (omega (arith, e)))
        (omega (arith, aligned)))
