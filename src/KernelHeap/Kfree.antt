-- ===== src/KernelHeap/Kfree.antt =====
-- `kfree` of kernel/memory/kernel_heap.cpp on a block of the list.
use planetoid_os.Base.{
  ℕ, ◌+◌, ◌<◌, ◌≡◌, refl, sym, ap, ◌∙◌, subst, inl, inr, Bool, true, false, not, ◌&&◌, some, List,
  [], ◌∷◌, ◌++◌, arith, ltb, leb, ◌==◌, ==→eq, ne→==, Bool-cases, length, length-append, sub64,
  update, update_self,
}
use planetoid_os.PhysicalMemory.{Platform}
use planetoid_os.WaitQueue.Fifo.{member, last_or}
use planetoid_os.KernelHeap.{Block, Blocks, Heap, free_block, kfree, merge_previous}
use planetoid_os.KernelHeap.Chain.{Seg, covering, covering-append, in_use}
use planetoid_os.KernelHeap.Invariant.{IsList, Seg-split, end-lt, outside}
use planetoid_os.KernelHeap.Allocate.{IsHeap}
use planetoid_os.KernelHeap.Release.{merge_next-IsAbsorbed, find_previous_lem}
use planetoid_os.KernelHeap.Merge.{
  freed, freed_self, freed-IsList, freed-covering, freed-in_use, grown-IsMerged,
  merge_previous-IsMerged,
}

-- The bytes that `kfree` gives back.
abbrev pub of_block : Blocks → (c x : ℕ) → Bool
of_block blocks c x = leb (c + 24) x && ltb x (c + 24 + (blocks c).size)

-- The same, of the list alone.
pub record IsReleased (h : Heap) (cs : List ℕ) (c : ℕ) (h' : Heap) : Type 0 where
  pub blocks_after : List ℕ
  pub list : IsList h'.blocks h'.first_block blocks_after
  pub same_memory : h'.memory ≡ h.memory
  pub same_bytes : (x : ℕ) → covering h'.blocks blocks_after x ≡ covering h.blocks cs x
  pub now_used :
      (x : ℕ)
      → in_use h'.blocks blocks_after x ≡ (in_use h.blocks cs x && not (of_block h.blocks c x))

-- The block `c` of the list is freed: its bytes are no longer given out, all others as before.
pub record IsFreed (h : Heap) (cs : List ℕ) (c : ℕ) (h' : Heap) : Type 0 where
  pub blocks_after : List ℕ
  pub heap : IsHeap h' blocks_after
  pub same_bytes : (x : ℕ) → covering h'.blocks blocks_after x ≡ covering h.blocks cs x
  pub now_used :
      (x : ℕ)
      → in_use h'.blocks blocks_after x ≡ (in_use h.blocks cs x && not (of_block h.blocks c x))

free_block-IsReleased :
    (p : Platform) (level1_table fuel : ℕ) (h : Heap) (pre : List ℕ) (c : ℕ) (post : List ℕ)
    → IsList h.blocks h.first_block (pre ++ c ∷ post)
    → length (pre ++ c ∷ post) < fuel
    → (h' : Heap) × (free_block p level1_table fuel c h ≡ some h')
      × IsReleased h (pre ++ c ∷ post) c h'
unfolding free_block
free_block-IsReleased p level1_table fuel h pre c post given_list enough =
    let blocks = h.blocks in
    let first = h.first_block in
    let fr = freed blocks first pre c post given_list in
    let list = freed-IsList blocks first pre c post given_list in
    let self = freed_self blocks first pre c post given_list in
    let size : (fr c).size ≡ (blocks c).size = ap (λ (b : Block). b.size) self in
    let counts = length-append pre (c ∷ post) in
    let s = Seg-split fr first pre c post 0 list.chain in
    let absorbed =
      merge_next-IsAbsorbed fuel fr c (blocks c).size (blocks c).next post
        (subst (λ (n : ℕ). Seg fr n post 0) (ap (λ (b : Block). b.next) self) s.2)
        (λ x inside.
          list.small x (λ e. inside (omega (arith, e, covering-append fr pre (c ∷ post) x))))
        (omega (arith, size, end-lt fr first pre c post list)) (omega (arith, counts)) in
    let b : Block = record (blocks c) {
      free = true;
      size = absorbed.gained;
      next = absorbed.next;
    } in
    let grown = update fr c b in
    let merged =
      grown-IsMerged fr first pre c post list (ap (λ (b : Block). b.free) self) (blocks c).size size
        _ absorbed b refl refl refl in
    let joined =
      merge_previous-IsMerged grown first pre c absorbed.after merged.list
        (ap (λ (b : Block). b.free) (update_self fr c b)) in
    rw
      (
        free_block,
        absorbed.result,
        find_previous_lem fuel grown c 0 first pre
            (Seg-split grown first pre c absorbed.after 0 merged.list.chain).0
            (outside fr first pre c post list c (ground arith)).0 (omega (arith, counts)),
      )
      (
        record h { blocks = merge_previous c (last_or 0 pre) grown },
        refl,
        record {
          blocks_after = joined.0;
          list = joined.1.list;
          same_memory = refl;
          same_bytes = λ x.
              joined.1.same_bytes x
              ∙ merged.same_bytes x
              ∙ freed-covering blocks first pre c post given_list x;
          now_used = λ x.
              joined.1.same_use x
              ∙ merged.same_use x
              ∙ freed-in_use blocks first pre c post given_list x;
        },
      )

member-splits :
    (c : ℕ) (cs : List ℕ)
    → member c cs ≡ true
    → (pre : List ℕ) × (post : List ℕ) × (cs ≡ pre ++ c ∷ post)
member-splits c [] h = absurd (ground arith)
member-splits c (d ∷ cs) h = elim (Bool-cases (c == d)) [
  | inl same ↦ ([], cs, ap (λ (e : ℕ). e ∷ cs) (sym (==→eq c d same)))
  | inr other ↦
      let (pre, post, e) = member-splits c cs (ground arith) in
      (d ∷ pre, post, ap (λ (l : List ℕ). d ∷ l) e)
]

-- The list of blocks, when the memory of a block of it is freed.
pub kfree-IsReleased :
    (p : Platform) (level1_table fuel : ℕ) (h : Heap) (cs : List ℕ) (c : ℕ)
    → IsList h.blocks h.first_block cs
    → member c cs ≡ true
    → (h.blocks c).large ≡ false
    → length cs < fuel
    → (h' : Heap) × (kfree p level1_table fuel (c + 24) h ≡ some h') × IsReleased h cs c h'
unfolding kfree
kfree-IsReleased p level1_table fuel h cs c list in_list small enough =
    let (pre, post, splits) = member-splits c cs in_list in
    let list' = subst (λ (l : List ℕ). IsList h.blocks h.first_block l) splits list in
    let c_end = end-lt h.blocks h.first_block pre c post list' in
    let at : sub64 (c + 24) 24 ≡ c = omega (arith, c_end) in
    rw (at, ne→== (c + 24) 0 (λ e. absurd (omega (arith, e))), small)
      (subst
        (λ (l : List ℕ).
          (h' : Heap) × (free_block p level1_table fuel c h ≡ some h') × IsReleased h l c h')
        (sym splits)
        (free_block-IsReleased p level1_table fuel h pre c post list'
          (subst (λ (l : List ℕ). length l < fuel) splits enough)))

-- `kfree` of the memory of a block of the list whose `large` is false, where the fuel exceeds the number
-- of blocks: it ends, the blocks still form a list that covers the same bytes, the
-- bytes of that block are no longer given out, and every other byte is given out as before.
pub kfree_lem :
    (p : Platform) (level1_table fuel : ℕ) (h : Heap) (cs : List ℕ) (c : ℕ)
    → IsHeap h cs
    → member c cs ≡ true
    → (h.blocks c).large ≡ false
    → length cs < fuel
    → (h' : Heap) × (kfree p level1_table fuel (c + 24) h ≡ some h') × IsFreed h cs c h'
kfree_lem p level1_table fuel h cs c heap in_list small enough =
    let (h', ends, released) =
      kfree-IsReleased p level1_table fuel h cs c heap.list in_list small enough in
    (
      h',
      ends,
      record {
        blocks_after = released.blocks_after;
        heap = record {
          list = released.list;
          placed = λ x. rw (released.same_bytes x, released.same_memory) (heap.placed x);
          bytes = rw released.same_memory heap.bytes;
        };
        same_bytes = released.same_bytes;
        now_used = released.now_used;
      },
    )
