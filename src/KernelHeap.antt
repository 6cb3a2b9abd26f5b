-- ===== src/KernelHeap.antt =====
-- kernel/memory/kernel_heap.cpp: `kmalloc` and `kfree` on a linked list of blocks.
--
-- A block's header is a cell of its own at the block's address, `sizeof(Block)` bytes long, and its
-- memory follows it. The walks of the list take fuel; `none` means that it ran out.
pub mod Chain
pub mod Invariant
pub mod Split
pub mod Extend
pub mod Search
pub mod Allocate
pub mod Create
pub mod Kmalloc
pub mod Release
pub mod Merge
pub mod Kfree
pub mod Cycle
pub mod Large
pub mod Pages
pub mod Boot
use planetoid_os.Base.{
  ℕ, zero, suc, ◌+◌, ◌-◌, ◌/◌, ◌%◌, Bool, true, false, not, ◌&&◌, ◌||◌, Option, none, some, bit_and,
  ltb, leb, ◌==◌, if◌then◌else◌, add64, sub64, not64, update, u64_mod,
}
use planetoid_os.PhysicalMemory.{Platform, page_size}
use planetoid_os.VirtualMemory.{VirtualMemory, allocate_page, allocate_pages, free_pages}

pub record Block : Type 0 where
  pub size : ℕ
  pub free : Bool
  pub large : Bool
  pub next : ℕ

abbrev pub Blocks : Type 0
Blocks = ℕ → Block

pub record Heap : Type 0 where
  pub blocks : Blocks
  pub first_block : ℕ
  pub memory : VirtualMemory

abbrev pub null : ℕ
null = 0

-- `sizeof(Block)`: 8 bytes of size, two flags padded to 8, 8 bytes of pointer.
abbrev pub block_size : ℕ
block_size = 24

abbrev pub align_size : ℕ → ℕ
align_size size = bit_and (add64 size 7) (not64 7)

-- `total_size / PAGE_SIZE`, rounded up
abbrev pub pages_of : (total_size : ℕ) → ℕ
pages_of total_size = total_size / page_size + (if total_size % page_size == 0 then 0 else 1)

-- `(uint8_t*)(block + 1) + size`
abbrev pub behind : (block size : ℕ) → ℕ
behind block size = add64 (add64 block block_size) size

-- The first `size` bytes of the block stay with it, the rest becomes a free block behind it, whose
-- `large` is what stood there.
unfoldable pub split_block : (block size : ℕ) → Blocks → Blocks
split_block block size blocks =
    let b = blocks block in
    let rest = behind block size in
    let cut = update blocks block (record b { free = false; size = size; next = rest }) in
    update cut rest (record (cut rest) {
      size = sub64 (sub64 b.size size) block_size;
      free = true;
      next = b.next;
    })

unfoldable pub allocate_from_block : (block size : ℕ) → Heap → ℕ × Heap
allocate_from_block block size h =
    let b = h.blocks block in
    if (block == null) || not b.free || ltb b.size size
    then (null, h)
    else if leb (add64 (add64 size block_size) 8) b.size
    then (add64 block block_size, record h { blocks = split_block block size h.blocks })
    else (
      add64 block block_size,
      record h { blocks = update h.blocks block (record b { free = false }) },
    )

-- The loop of `kmalloc`: the first free block that is large enough, null if there is none, and the
-- block before it, the last block in the other case.
unfoldable pub find_block : (fuel : ℕ) → Blocks → (size previous block : ℕ) → Option (ℕ × ℕ)
find_block zero blocks size previous block = none
find_block (suc fuel) blocks size previous block =
    let rest = find_block fuel blocks size block (blocks block).next in
    if block == null
    then some (null, previous)
    else if (blocks block).free && leb size (blocks block).size
    then some (block, previous)
    else rest

-- The first loop of `kfree`: how far the free blocks behind `block` join it, and what follows them.
unfoldable pub merge_next : (fuel : ℕ) → Blocks → (block gained_size next : ℕ) → Option (ℕ × ℕ)
merge_next zero blocks block gained_size next = none
merge_next (suc fuel) blocks block gained_size next =
    let rest =
      merge_next fuel blocks block (add64 gained_size (add64 block_size (blocks next).size))
        (blocks next).next in
    if next == null
    then some (gained_size, next)
    else if not (blocks next).free || not (next == behind block gained_size)
    then some (gained_size, next)
    else rest

-- The second loop of `kfree`: the block before `block`, null if it is the first.
unfoldable pub find_previous : (fuel : ℕ) → Blocks → (block previous current : ℕ) → Option ℕ
find_previous zero blocks block previous current = none
find_previous (suc fuel) blocks block previous current =
    let rest = find_previous fuel blocks block current (blocks current).next in
    if (current == null) || (current == block) then some previous else rest

-- The end of `kfree`: `block` joins the block before it, if that is free and adjacent.
unfoldable pub merge_previous : (block previous : ℕ) → Blocks → Blocks
merge_previous block previous blocks =
    let before = blocks previous in
    if not (previous == null) && before.free && (behind previous before.size == block)
    then update blocks previous (record before {
      size = add64 before.size (add64 block_size (blocks block).size);
      next = (blocks block).next;
    })
    else blocks

module _ (p : Platform) (level1_table : ℕ) where
  unfoldable pub create_block : Heap → ℕ × Heap
  create_block h =
      let (address, memory) = allocate_page p level1_table h.memory in
      if address == 0
      then (null, record h { memory = memory })
      else let block : Block = record {
        size = page_size - block_size;
        free = true;
        large = false;
        next = null;
      } in
        (address, record h { blocks = update h.blocks address block; memory = memory })

  unfoldable pub init : Heap → Heap
  init h = let (block, h') = create_block h in record h' { first_block = block }

  -- `kmalloc` of more than a page holds: pages of its own.
  unfoldable pub allocate_large : (size : ℕ) → Heap → ℕ × Heap
  allocate_large size h =
      let page_count = pages_of (add64 size block_size) in
      let (address, memory) = allocate_pages p level1_table page_count h.memory in
      if address == 0
      then (null, record h { memory = memory })
      else let block : Block = record { size = size; free = false; large = true; next = null } in
        (
          add64 address block_size,
          record h { blocks = update h.blocks address block; memory = memory },
        )

  -- `kmalloc` where no block of the list is large enough: a new one behind the last.
  unfoldable pub allocate_new : (size previous : ℕ) → Heap → ℕ × Heap
  allocate_new size previous h =
      let (new_block, h') = create_block h in
      if new_block == null
      then (null, h')
      else allocate_from_block new_block size (
          if previous == null then record h' { first_block = new_block } else record h' {
            blocks = update h'.blocks previous (record (h'.blocks previous) { next = new_block });
          })

  unfoldable pub kmalloc : (fuel size : ℕ) → Heap → Option (ℕ × Heap)
  kmalloc fuel size h =
      let aligned = align_size size in
      if (size == 0) || ltb (u64_mod - 1 - block_size) aligned
      then some (null, h)
      else if ltb (page_size - block_size) aligned
      then some (allocate_large aligned h)
      else elim (find_block fuel h.blocks aligned null h.first_block) [
        | none ↦ none
        | some (block, previous) ↦
            if not (block == null)
            then some (allocate_from_block block aligned h)
            else some (allocate_new aligned previous h)
      ]

  -- `kfree` of a block of the list.
  unfoldable pub free_block : (fuel block : ℕ) → Heap → Option Heap
  free_block fuel block h =
      let b = h.blocks block in
      let freed = update h.blocks block (record b { free = true }) in
      elim (merge_next fuel freed block b.size b.next) [
        | none ↦ none
        | some (gained_size, next) ↦
            let grown =
              update freed block (record b { free = true; size = gained_size; next = next }) in
            elim (find_previous fuel grown block null h.first_block) [
              | none ↦ none
              | some previous ↦ some (record h { blocks = merge_previous block previous grown })
            ]
      ]

  -- `kfree` of pages of their own.
  unfoldable pub free_large : (block : ℕ) → Heap → Heap
  free_large block h =
      let page_count = pages_of (add64 (h.blocks block).size block_size) in
      record h { memory = (free_pages p level1_table block page_count h.memory).1 }

  unfoldable pub kfree : (fuel memory : ℕ) → Heap → Option Heap
  kfree fuel memory h =
      let block = sub64 memory block_size in
      if memory == null
      then some h
      else if (h.blocks block).large
      then some (free_large block h)
      else free_block fuel block h
