-- ===== src/KernelHeap/Split.antt =====
-- `allocate_from_block` of kernel/memory/kernel_heap.cpp on a block of the list.
use planetoid_os.Base.{
  suc, length, length-append, ℕ, ◌+◌, ◌-◌, ◌≤◌, ◌≡◌, ◌≢◌, refl, ap, ◌∙◌, inl, inr, true, false,
  ◌&&◌, ◌||◌, List, [], ◌∷◌, ◌++◌, arith, ltb, leb, ne→==, Bool-cases, add64, update, update_self,
  update-ne,
}
use planetoid_os.WaitQueue.Fifo.{member}
use planetoid_os.KernelHeap.{Block, Blocks, Heap, behind, allocate_from_block, split_block}
use planetoid_os.KernelHeap.Chain.{covers, covering, in_use, in_use-append, member_behind, SameOn}
use planetoid_os.KernelHeap.Invariant.{
  IsList, Seg-split, nonzero, end-lt, outside, unused_around, covering-replace, in_use-replace,
  replace-IsList,
}

-- `memory` is that of a block of the list, of at least `size` bytes, none of which was given out; now they are, and no other.
pub record IsGiven (blocks : Blocks) (cs : List ℕ) (size memory : ℕ) (blocks' : Blocks)
    (cs' : List ℕ) : Type 0 where
  pub block : ℕ
  pub at : memory ≡ block + 24
  pub listed : member block cs' ≡ true
  pub extent : ℕ
  pub size_of : (blocks' block).size ≡ extent
  pub enough : size ≤ extent
  pub nonnull : memory ≢ 0
  pub was_unused :
      (x : ℕ) → leb memory x && ltb x (memory + extent) ≡ true → in_use blocks cs x ≡ false
  pub now_used :
      (x : ℕ)
      → in_use blocks' cs' x ≡ (in_use blocks cs x || (leb memory x && ltb x (memory + extent)))

module _ (blocks : Blocks) (first : ℕ) (pre : List ℕ) (c : ℕ) (post : List ℕ)
    (list : IsList blocks first (pre ++ c ∷ post)) (size : ℕ) (free : (blocks c).free ≡ true) where
  inside_self : covers blocks c c ≡ true
  inside_self = ground arith

  -- `d` is no other block of the list.
  not_c : (d : ℕ) (ds : List ℕ) → member d ds ≡ true → member c ds ≡ false → c ≢ d
  not_c d ds h out e = cc (h, out, e)

  -- The block is given out whole.
  abbrev whole : Blocks
  whole = update blocks c (record (blocks c) { free = false })

  whole-pre : SameOn blocks whole pre
  whole-pre d h =
      update-ne blocks c _ d (not_c d pre h (outside blocks first pre c post list c inside_self).0)

  whole-post : SameOn blocks whole post
  whole-post d h =
      update-ne blocks c _ d (not_c d post h (outside blocks first pre c post list c inside_self).1)

  whole-bytes : (x : ℕ) → covering whole (c ∷ []) x ≡ covering blocks (c ∷ []) x
  whole-bytes x = rw (update_self blocks c (record (blocks c) { free = false })) refl

  pub whole-IsList : IsList whole first (pre ++ c ∷ post)
  whole-IsList =
      let s = Seg-split blocks first pre c post 0 list.chain in
      replace-IsList blocks whole first pre (c ∷ []) (c ∷ []) post c (blocks c).next list whole-pre
        whole-post whole-bytes s.0 (refl, s.1, ap (λ (b : Block). b.next) (update_self blocks c _))
        s.2

  whole-covering :
      (x : ℕ) → covering whole (pre ++ c ∷ post) x ≡ covering blocks (pre ++ c ∷ post) x
  whole-covering =
      covering-replace blocks whole first pre (c ∷ []) (c ∷ []) post c (blocks c).next list
        whole-pre whole-post whole-bytes

  pub whole-IsGiven :
      size ≤ (blocks c).size
      → IsGiven blocks (pre ++ c ∷ post) size (c + 24) whole (pre ++ c ∷ post)
  whole-IsGiven fits = record {
    block = c;
    at = refl;
    listed = member_behind c pre (c ∷ post) (ground arith);
    extent = (blocks c).size;
    size_of = ap (λ (b : Block). b.size) (update_self blocks c _);
    enough = fits;
    nonnull = ground arith;
    was_unused = λ x h. ground (
      arith,
      in_use-append blocks pre (c ∷ post) x,
      unused_around blocks first pre c post list x,
    );
    now_used = λ x.
        in_use-replace blocks whole first pre (c ∷ []) (c ∷ []) post c (blocks c).next list
          whole-pre whole-post whole-bytes x
        ∙ rw
            (
              update_self blocks c (record (blocks c) { free = false }),
              in_use-append blocks pre (c ∷ post) x,
            )
            (ground arith);
  }

  module _ (fits : size + 32 ≤ (blocks c).size) where
    -- Where the rest of the block begins.
    abbrev pub rest : ℕ
    rest = c + 24 + size

    rest-behind : behind c size ≡ rest
    rest-behind = omega (arith, end-lt blocks first pre c post list)

    rest-inside : covers blocks c rest ≡ true
    rest-inside = ground arith

    abbrev cut : Blocks
    cut = split_block c size blocks

    cut_self : cut c ≡ record (blocks c) { free = false; size = size; next = rest }
    unfolding split_block update
    cut_self = rw rest-behind (ground arith)

    cut-rest : (cut rest).size ≡ (blocks c).size - size - 24
    unfolding split_block update
    cut-rest = rw rest-behind (ground (arith, end-lt blocks first pre c post list))

    cut-rest_free : (cut rest).free ≡ true
    unfolding split_block update
    cut-rest_free = rw rest-behind (ground arith)

    cut-rest_next : (cut rest).next ≡ (blocks c).next
    unfolding split_block update
    cut-rest_next = rw rest-behind (ground arith)

    cut-other : (d : ℕ) → c ≢ d → rest ≢ d → cut d ≡ blocks d
    unfolding split_block
    cut-other d not_c not_rest =
        rw rest-behind (update-ne _ rest _ d not_rest ∙ update-ne blocks c _ d not_c)

    cut-pre : SameOn blocks cut pre
    cut-pre d h =
        cut-other d (not_c d pre h (outside blocks first pre c post list c inside_self).0)
          (λ e. cc (h, e, (outside blocks first pre c post list rest rest-inside).0))

    cut-post : SameOn blocks cut post
    cut-post d h =
        cut-other d (not_c d post h (outside blocks first pre c post list c inside_self).1)
          (λ e. cc (h, e, (outside blocks first pre c post list rest rest-inside).1))

    cut-bytes : (x : ℕ) → covering cut (c ∷ rest ∷ []) x ≡ covering blocks (c ∷ []) x
    cut-bytes x = rw (cut_self, cut-rest) (ground arith)

    pub cut-IsList : IsList cut first (pre ++ c ∷ rest ∷ post)
    cut-IsList =
        let s = Seg-split blocks first pre c post 0 list.chain in
        replace-IsList blocks cut first pre (c ∷ []) (c ∷ rest ∷ []) post c (blocks c).next list
          cut-pre cut-post cut-bytes s.0
          (
            refl,
            s.1,
            (ap (λ (b : Block). b.next) cut_self, (λ e. absurd (omega arith)), cut-rest_next),
          )
          s.2

    cut-given : (x : ℕ) → in_use cut (c ∷ rest ∷ []) x ≡ (leb (c + 24) x && ltb x (c + 24 + size))
    cut-given x = rw (cut_self, cut-rest_free) (ground arith)

    cut-covering :
        (x : ℕ) → covering cut (pre ++ c ∷ rest ∷ post) x ≡ covering blocks (pre ++ c ∷ post) x
    cut-covering =
        covering-replace blocks cut first pre (c ∷ []) (c ∷ rest ∷ []) post c (blocks c).next list
          cut-pre cut-post cut-bytes

    pub cut-IsGiven : IsGiven blocks (pre ++ c ∷ post) size (c + 24) cut (pre ++ c ∷ rest ∷ post)
    cut-IsGiven = record {
      block = c;
      at = refl;
      listed = member_behind c pre (c ∷ rest ∷ post) (ground arith);
      extent = size;
      size_of = ap (λ (b : Block). b.size) cut_self;
      enough = omega arith;
      nonnull = ground arith;
      was_unused = λ x h. ground (
        arith,
        in_use-append blocks pre (c ∷ post) x,
        unused_around blocks first pre c post list x,
      );
      now_used = λ x.
          in_use-replace blocks cut first pre (c ∷ []) (c ∷ rest ∷ []) post c (blocks c).next list
            cut-pre cut-post cut-bytes x
          ∙ rw (cut-given x, in_use-append blocks pre (c ∷ post) x) (ground arith);
    }

-- The heap `h` with the blocks `blocks'`: what a block of the list gives out.
pub record Gives (h : Heap) (cs : List ℕ) (size : ℕ) (r : ℕ × Heap) : Type 0 where
  pub blocks_after : List ℕ
  pub few : length blocks_after ≤ suc (length cs)
  pub list : IsList r.1.blocks r.1.first_block blocks_after
  pub given : IsGiven h.blocks cs size r.0 r.1.blocks blocks_after
  pub same_memory : r.1.memory ≡ h.memory
  pub same_bytes : (x : ℕ) → covering r.1.blocks blocks_after x ≡ covering h.blocks cs x

-- A free block of the list that is large enough gives its memory, or the first part of it.
pub allocate_from_block-Gives :
    (h : Heap) (pre : List ℕ) (c : ℕ) (post : List ℕ) (size : ℕ)
    → IsList h.blocks h.first_block (pre ++ c ∷ post)
    → (h.blocks c).free ≡ true
    → size ≤ (h.blocks c).size
    → Gives h (pre ++ c ∷ post) size (allocate_from_block c size h)
unfolding allocate_from_block
allocate_from_block-Gives h pre c post size list free fits =
    let fits_word = end-lt h.blocks h.first_block pre c post list in
    let address : add64 c 24 ≡ c + 24 = omega arith in
    let test : leb (add64 (add64 size 24) 8) (h.blocks c).size ≡ leb (size + 32) (h.blocks c).size =
      ground arith in
    let at_least : ltb (h.blocks c).size size ≡ false = ground arith in
    rw (ne→== c 0 (nonzero h.blocks h.first_block pre c post list), free, at_least, test, address)
      (elim (Bool-cases (leb (size + 32) (h.blocks c).size)) [
        | inl large ↦ rw large (record {
          blocks_after = pre ++ c ∷ (c + 24 + size) ∷ post;
          few =
              omega (
                arith,
                length-append pre (c ∷ (c + 24 + size) ∷ post),
                length-append pre (c ∷ post),
              );
          list = cut-IsList h.blocks h.first_block pre c post list size free (ground arith);
          given = cut-IsGiven h.blocks h.first_block pre c post list size free (ground arith);
          same_memory = refl;
          same_bytes = cut-covering h.blocks h.first_block pre c post list size free (ground arith);
        })
        | inr tight ↦ rw tight (record {
          blocks_after = pre ++ c ∷ post;
          few = omega arith;
          list = whole-IsList h.blocks h.first_block pre c post list size free;
          given = whole-IsGiven h.blocks h.first_block pre c post list size free fits;
          same_memory = refl;
          same_bytes = whole-covering h.blocks h.first_block pre c post list size free;
        })
      ])
