-- ===== src/KernelHeap/Invariant.antt =====
-- The list of blocks of kernel/memory/kernel_heap.cpp: linked, and no byte in two blocks.
use planetoid_os.Base.{
  ℕ, ◌+◌, ◌^◌, ◌≤◌, ◌<◌, ◌≡◌, ◌≢◌, refl, ◌∙◌, true, false, ◌||◌, List, [], ◌∷◌, ◌++◌, arith,
}
use planetoid_os.WaitQueue.Fifo.{member}
use planetoid_os.KernelHeap.{Blocks}
use planetoid_os.KernelHeap.Chain.{
  Seg, Seg-append, covers, covering, covering-append, covering-member, covering-same, in_use,
  in_use-append, in_use-same, in_use-covering, one_if, Seg-same, SameOn,
}

-- The blocks `cs` are linked from `first`, and no byte belongs to two.
pub record IsList (blocks : Blocks) (first : ℕ) (cs : List ℕ) : Type 0 where
  pub chain : Seg blocks first cs 0
  pub apart : (x : ℕ) → covering blocks cs x ≤ 1
  pub small : (x : ℕ) → covering blocks cs x ≢ 0 → x < 2 ^ 63

pub Seg-split :
    (blocks : Blocks) (a : ℕ) (pre : List ℕ) (c : ℕ) (post : List ℕ) (b : ℕ)
    → Seg blocks a (pre ++ c ∷ post) b
    → Seg blocks a pre c × (c ≢ 0) × Seg blocks (blocks c).next post b
Seg-split blocks a [] c post b s = (s.0, s.1, s.2)
Seg-split blocks a (d ∷ pre) c post b s =
    let rest = Seg-split blocks (blocks d).next pre c post b s.2 in
    ((s.0, s.1, rest.0), rest.1, rest.2)

-- One block of the list, those before it and those behind it.
module _ (blocks : Blocks) (first : ℕ) (pre : List ℕ) (c : ℕ) (post : List ℕ)
    (list : IsList blocks first (pre ++ c ∷ post)) where
  pub covering-at :
      (x : ℕ)
      → covering blocks (pre ++ c ∷ post) x
        ≡ covering blocks pre x + (one_if (covers blocks c x) + covering blocks post x)
  covering-at x = covering-append blocks pre (c ∷ post) x

  pub nonzero : c ≢ 0
  nonzero = (Seg-split blocks first pre c post 0 list.chain).1

  pub end-lt : c + 24 + (blocks c).size ≤ 2 ^ 63
  end-lt = let last = c + 23 + (blocks c).size in ground (arith, list.small last, covering-at last)

  -- No other block begins inside the block.
  pub outside :
      (x : ℕ) → covers blocks c x ≡ true → (member x pre ≡ false) × (member x post ≡ false)
  outside x inside = ground (
    arith,
    list.apart x,
    covering-at x,
    covering-member blocks x pre x,
    covering-member blocks x post x,
  )

  -- The bytes of the block are no memory of another.
  pub unused_around :
      (x : ℕ)
      → covers blocks c x ≡ true
      → (in_use blocks pre x ≡ false) × (in_use blocks post x ≡ false)
  unused_around x inside = ground (
    arith,
    list.apart x,
    covering-at x,
    in_use-covering blocks pre x,
    in_use-covering blocks post x,
  )

-- A stretch `mid` of the list makes way for `mid'`, which covers the same bytes.
module _ (blocks blocks' : Blocks) (first : ℕ) (pre mid mid' post : List ℕ) (a b : ℕ)
    (list : IsList blocks first (pre ++ (mid ++ post))) (before : SameOn blocks blocks' pre)
    (behind : SameOn blocks blocks' post)
    (same_bytes : (x : ℕ) → covering blocks' mid' x ≡ covering blocks mid x) where
  pub covering-replace :
      (x : ℕ)
      → covering blocks' (pre ++ (mid' ++ post)) x ≡ covering blocks (pre ++ (mid ++ post)) x
  covering-replace x = omega (
    arith,
    covering-append blocks' pre (mid' ++ post) x,
    covering-append blocks' mid' post x,
    covering-append blocks pre (mid ++ post) x,
    covering-append blocks mid post x,
    covering-same blocks blocks' pre x before,
    covering-same blocks blocks' post x behind,
    same_bytes x,
  )

  pub in_use-replace :
      (x : ℕ)
      → in_use blocks' (pre ++ (mid' ++ post)) x
        ≡ (in_use blocks pre x || (in_use blocks' mid' x || in_use blocks post x))
  in_use-replace x =
      in_use-append blocks' pre (mid' ++ post) x
      ∙ rw
          (
            in_use-append blocks' mid' post x,
            in_use-same blocks blocks' pre x before,
            in_use-same blocks blocks' post x behind,
          )
          refl

  pub replace-IsList :
      Seg blocks first pre a
      → Seg blocks' a mid' b
      → Seg blocks b post 0
      → IsList blocks' first (pre ++ (mid' ++ post))
  replace-IsList s t u = record {
    chain =
        Seg-append blocks' first pre (mid' ++ post) a 0
          (Seg-same blocks blocks' first pre a before s)
          (Seg-append blocks' a mid' post b 0 t (Seg-same blocks blocks' b post 0 behind u));
    apart = λ x. rw (covering-replace x) (list.apart x);
    small = λ x. rw (covering-replace x) (list.small x);
  }
