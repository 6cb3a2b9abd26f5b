-- ===== src/KernelHeap/Merge.antt =====
-- How the blocks of kernel/memory/kernel_heap.cpp change when one is freed and joined.
use planetoid_os.Base.{
  ℕ, ◌+◌, ◌≡◌, refl, sym, ap, ◌∙◌, subst, inl, inr, true, not, ◌&&◌, Option, List, [], ◌∷◌, ◌++◌,
  arith, ltb, leb, ◌==◌, ne→==, Bool-cases, add64, update, update_self, update-ne,
}
use mathlib.Core.List.{append_assoc}
use planetoid_os.WaitQueue.Fifo.{last_or}
use planetoid_os.KernelHeap.{Block, Blocks, behind, merge_previous}
use planetoid_os.KernelHeap.Chain.{covering, in_use, in_use-append, member_behind, SameOn}
use planetoid_os.KernelHeap.Invariant.{
  IsList, Seg-split, nonzero, end-lt, outside, unused_around, covering-replace, in_use-replace,
  replace-IsList,
}
use planetoid_os.KernelHeap.Release.{IsMerged, replace-IsMerged, IsAbsorbed}
use planetoid_os.KernelHeap.Extend.{last-splits}

module _ (blocks : Blocks) (first : ℕ) (pre : List ℕ) (c : ℕ) (post : List ℕ)
    (list : IsList blocks first (pre ++ c ∷ post)) where
  -- A change of `c` alone is none of the others.
  other-pre : (b : Block) → SameOn blocks (update blocks c b) pre
  other-pre b d h =
      update-ne blocks c b d
        (λ e. cc (h, e, (outside blocks first pre c post list c (ground arith)).0))

  other-post : (b : Block) → SameOn blocks (update blocks c b) post
  other-post b d h =
      update-ne blocks c b d
        (λ e. cc (h, e, (outside blocks first pre c post list c (ground arith)).1))

  -- The block is marked free.
  abbrev pub freed : Blocks
  freed = update blocks c (record (blocks c) { free = true })

  pub freed_self : freed c ≡ record (blocks c) { free = true }
  freed_self = update_self blocks c _

  freed-bytes : (x : ℕ) → covering freed (c ∷ []) x ≡ covering blocks (c ∷ []) x
  freed-bytes x = rw freed_self refl

  pub freed-IsList : IsList freed first (pre ++ c ∷ post)
  freed-IsList =
      let s = Seg-split blocks first pre c post 0 list.chain in
      replace-IsList blocks freed first pre (c ∷ []) (c ∷ []) post c (blocks c).next list
        (other-pre _) (other-post _) freed-bytes s.0
        (refl, s.1, ap (λ (b : Block). b.next) freed_self) s.2

  pub freed-covering :
      (x : ℕ) → covering freed (pre ++ c ∷ post) x ≡ covering blocks (pre ++ c ∷ post) x
  freed-covering =
      covering-replace blocks freed first pre (c ∷ []) (c ∷ []) post c (blocks c).next list
        (other-pre _) (other-post _) freed-bytes

  -- Its bytes, and no others, are no longer given out.
  pub freed-in_use :
      (x : ℕ)
      → in_use freed (pre ++ c ∷ post) x ≡ (
          in_use blocks (pre ++ c ∷ post) x
          && not (leb (c + 24) x && ltb x (c + 24 + (blocks c).size)))
  freed-in_use x =
      in_use-replace blocks freed first pre (c ∷ []) (c ∷ []) post c (blocks c).next list
        (other-pre _) (other-post _) freed-bytes x
      ∙ rw (freed_self, in_use-append blocks pre (c ∷ post) x)
          (ground (arith, unused_around blocks first pre c post list x))

  -- The free blocks behind it have joined it.
  module _ (free : (blocks c).free ≡ true) (size : ℕ) (same_size : (blocks c).size ≡ size)
      (r : Option (ℕ × ℕ)) (absorbed : IsAbsorbed blocks c size post r) (b : Block)
      (b_size : b.size ≡ absorbed.gained) (b_free : b.free ≡ true)
      (b_next : b.next ≡ absorbed.next) where
    pub grown-IsMerged :
        IsMerged blocks (pre ++ c ∷ post) (update blocks c b) first (pre ++ c ∷ absorbed.after)
    grown-IsMerged =
        let s = Seg-split blocks first pre c post 0 list.chain in
        subst
          (λ (l : List ℕ).
            IsMerged blocks (pre ++ c ∷ l) (update blocks c b) first (pre ++ c ∷ absorbed.after))
          (sym absorbed.splits)
          (replace-IsMerged blocks (update blocks c b) first pre (c ∷ absorbed.mid) (c ∷ [])
            absorbed.after c absorbed.next
            (subst (λ (l : List ℕ). IsList blocks first (pre ++ c ∷ l)) absorbed.splits list)
            (other-pre b)
            (λ d h.
              other-post b d (rw absorbed.splits (member_behind d absorbed.mid absorbed.after h)))
            (λ x. rw (update_self blocks c b, b_size) (ground (arith, absorbed.bytes x)))
            (λ x. rw (update_self blocks c b, b_free, free) (sym (absorbed.unused x))) s.0
            (refl, s.1, ap (λ (b : Block). b.next) (update_self blocks c b) ∙ b_next) absorbed.seg)

-- Two free blocks that are adjacent become one.
module _ (blocks : Blocks) (first : ℕ) (pre : List ℕ) (l c : ℕ) (post : List ℕ)
    (list : IsList blocks first (pre ++ l ∷ c ∷ post)) (b : Block) (l_free : (blocks l).free ≡ true)
    (c_free : (blocks c).free ≡ true) (adjacent : l + 24 + (blocks l).size ≡ c)
    (b_size : b.size ≡ (blocks l).size + 24 + (blocks c).size) (b_free : b.free ≡ true)
    (b_next : b.next ≡ (blocks c).next) where
  pub joined-IsMerged :
      IsMerged blocks (pre ++ l ∷ c ∷ post) (update blocks l b) first (pre ++ l ∷ post)
  joined-IsMerged =
      let s = Seg-split blocks first pre l (c ∷ post) 0 list.chain in
      replace-IsMerged blocks (update blocks l b) first pre (l ∷ c ∷ []) (l ∷ []) post l
        (blocks c).next list (other-pre blocks first pre l (c ∷ post) list b)
        (λ d h. other-post blocks first pre l (c ∷ post) list b d (ground arith))
        (λ x. rw (update_self blocks l b, b_size) (ground arith))
        (λ x. rw (update_self blocks l b, b_free, l_free, c_free) refl) s.0
        (refl, s.1, ap (λ (b : Block). b.next) (update_self blocks l b) ∙ b_next) s.2.2

pub merge_previous-IsMerged :
    (blocks : Blocks) (first : ℕ) (pre : List ℕ) (c : ℕ) (post : List ℕ)
    → IsList blocks first (pre ++ c ∷ post)
    → (blocks c).free ≡ true
    → (cs : List ℕ) × IsMerged blocks
        (pre ++ c ∷ post)
        (merge_previous c (last_or 0 pre) blocks)
        first
        cs
unfolding merge_previous
merge_previous-IsMerged blocks first [] c post list free =
    (c ∷ post, record { list = list; same_bytes = λ x. refl; same_use = λ x. refl })
merge_previous-IsMerged blocks first (d ∷ ds) c post list free =
    let l = last_or d ds in
    let split = last-splits d ds in
    let again : (d ∷ ds) ++ c ∷ post ≡ split.0 ++ l ∷ c ∷ post =
      ap (λ (m : List ℕ). m ++ c ∷ post) split.1 ∙ append_assoc split.0 (l ∷ []) (c ∷ post) in
    let list' = subst (λ (m : List ℕ). IsList blocks first m) again list in
    let l_end = end-lt blocks first split.0 l (c ∷ post) list' in
    let c_end = end-lt blocks first (d ∷ ds) c post list in
    let joined : Block = record (blocks l) {
      size = add64 (blocks l).size (add64 24 (blocks c).size);
      next = (blocks c).next;
    } in
    let at : behind l (blocks l).size ≡ l + 24 + (blocks l).size = omega (arith, l_end) in
    elim (Bool-cases ((blocks l).free && (behind l (blocks l).size == c))) [
      | inr apart ↦
          rw (ne→== l 0 (nonzero blocks first split.0 l (c ∷ post) list'), apart)
            (
              (d ∷ ds) ++ c ∷ post,
              record { list = list; same_bytes = λ x. refl; same_use = λ x. refl },
            )
      | inl joins ↦
          rw (ne→== l 0 (nonzero blocks first split.0 l (c ∷ post) list'), joins)
            (
              split.0 ++ l ∷ post,
              subst
                  (λ (m : List ℕ).
                    IsMerged blocks m (update blocks l joined) first (split.0 ++ l ∷ post))
                  (sym again)
                  (joined-IsMerged blocks first split.0 l c post list' joined (ground arith) free
                    (ground arith) (omega (arith, l_end, c_end)) (ground arith) refl),
            )
    ]
