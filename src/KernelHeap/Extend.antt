-- ===== src/KernelHeap/Extend.antt =====
-- A new block behind the last one of the list, in kernel/memory/kernel_heap.cpp.
use planetoid_os.Base.{
  ℕ, ◌+◌, ◌^◌, ◌≤◌, ◌≡◌, ◌≢◌, refl, sym, ap, ◌∙◌, Bool, true, false, ◌&&◌, List, [], ◌∷◌, ◌++◌,
  arith, ltb, leb, update, update_self, update-ne,
}
use planetoid_os.WaitQueue.Fifo.{member, last_or}
use planetoid_os.KernelHeap.{Block, Blocks}
use planetoid_os.KernelHeap.Chain.{
  Seg-append, covers, covering, covering-append, covering-member, covering-same, in_use,
  in_use-append, in_use-same, one_if, Seg-same, SameOn,
}
use planetoid_os.KernelHeap.Invariant.{IsList, Seg-split, covering-at, outside}

-- What `create_block` writes.
abbrev pub fresh : Block
fresh = record { size = 4072; free = true; large = false; next = 0 }

-- Byte `x` belongs to the page at `a`.
abbrev pub in_page : (a x : ℕ) → Bool
in_page a x = leb a x && ltb x (a + 4096)

-- The list with the new block, and nothing else.
pub record IsExtended (blocks : Blocks) (cs : List ℕ) (a : ℕ) (blocks' : Blocks) (first' : ℕ)
    : Type 0 where
  pub list : IsList blocks' first' (cs ++ a ∷ [])
  pub block : blocks' a ≡ fresh
  pub bytes :
      (x : ℕ) → covering blocks' (cs ++ a ∷ []) x ≡ covering blocks cs x + one_if (in_page a x)
  pub same_use : (x : ℕ) → in_use blocks' (cs ++ a ∷ []) x ≡ in_use blocks cs x

module _ (blocks : Blocks) (first a : ℕ) (nonzero : a ≢ 0) (high : a + 4096 ≤ 2 ^ 63) where
  abbrev made : Blocks
  made = update blocks a fresh

  made_self : made a ≡ fresh
  made_self = update_self blocks a fresh

  pub first-IsExtended : IsExtended blocks [] a made a
  first-IsExtended = record {
    list = record {
      chain = (refl, nonzero, ap (λ (b : Block). b.next) made_self);
      apart = λ x. rw made_self (ground arith);
      small = λ x. rw made_self (ground arith);
    };
    block = made_self;
    bytes = λ x. rw made_self (ground arith);
    same_use = λ x. rw made_self (ground arith);
  }

  module _ (pre : List ℕ) (l : ℕ) (list : IsList blocks first (pre ++ l ∷ []))
      (unused : (x : ℕ) → in_page a x ≡ true → covering blocks (pre ++ l ∷ []) x ≡ 0) where
    abbrev linked : Blocks
    linked = update made l (record (made l) { next = a })

    a-not : (member a pre ≡ false) × (l ≢ a)
    a-not = (
      ground (
        arith,
        unused a,
        covering-at blocks first pre l [] list a,
        covering-member blocks a pre a,
      ),
      λ e. ground (
        arith,
        unused a,
        covering-at blocks first pre l [] list a,
        ap (λ (b : ℕ). covers blocks b a) e,
      ),
    )

    linked-last : linked l ≡ record (blocks l) { next = a }
    linked-last =
        update_self made l _
        ∙ ap (λ (b : Block). record b { next = a })
            (update-ne blocks a fresh l (λ e. a-not.1 (sym e)))

    linked-new : linked a ≡ fresh
    linked-new = update-ne made l _ a a-not.1 ∙ made_self

    linked-pre : SameOn blocks linked pre
    linked-pre d h =
        update-ne made l _ d
          (λ e. cc (h, e, (outside blocks first pre l [] list l (ground arith)).0))
        ∙ update-ne blocks a fresh d (λ e. cc (h, e, a-not.0))

    linked-covering :
        (x : ℕ)
        → covering linked ((pre ++ l ∷ []) ++ a ∷ []) x
          ≡ covering blocks (pre ++ l ∷ []) x + one_if (in_page a x)
    linked-covering x =
        covering-append linked (pre ++ l ∷ []) (a ∷ []) x
        ∙ rw
            (
              covering-append linked pre (l ∷ []) x,
              covering-same blocks linked pre x linked-pre,
              covering-append blocks pre (l ∷ []) x,
              linked-last,
              linked-new,
            )
            (ground arith)

    linked-in_use :
        (x : ℕ) → in_use linked ((pre ++ l ∷ []) ++ a ∷ []) x ≡ in_use blocks (pre ++ l ∷ []) x
    linked-in_use x =
        in_use-append linked (pre ++ l ∷ []) (a ∷ []) x
        ∙ rw
            (
              in_use-append linked pre (l ∷ []) x,
              in_use-same blocks linked pre x linked-pre,
              in_use-append blocks pre (l ∷ []) x,
              linked-last,
              linked-new,
            )
            (ground arith)

    pub linked-IsExtended : IsExtended blocks (pre ++ l ∷ []) a linked first
    linked-IsExtended =
        let s = Seg-split blocks first pre l [] 0 list.chain in
        record {
          list = record {
            chain =
                Seg-append linked first (pre ++ l ∷ []) (a ∷ []) a 0
                  (Seg-append linked first pre (l ∷ []) l a
                    (Seg-same blocks linked first pre l linked-pre s.0)
                    (refl, s.1, ap (λ (b : Block). b.next) linked-last))
                  (refl, nonzero, ap (λ (b : Block). b.next) linked-new);
            apart = λ x. ground (arith, linked-covering x, list.apart x, unused x);
            small = λ x. ground (arith, linked-covering x, list.small x);
          };
          block = linked-new;
          bytes = linked-covering;
          same_use = linked-in_use;
        }

-- A list that is not empty ends with its last block.
pub last-splits : (c : ℕ) (cs : List ℕ) → (pre : List ℕ) × (c ∷ cs ≡ pre ++ last_or c cs ∷ [])
last-splits c [] = ([], refl)
last-splits c (d ∷ cs) = let r = last-splits d cs in (c ∷ r.0, ap (λ (l : List ℕ). c ∷ l) r.1)
