-- ===== src/KernelHeap/Chain.antt =====
-- The blocks of kernel/memory/kernel_heap.cpp as a list of addresses, and the bytes that they cover.
use planetoid_os.Base.{
  ℕ, ◌+◌, ◌≤◌, ◌≡◌, ◌≢◌, refl, sym, ap, subst, inl, inr, Bool, true, false, not, ◌&&◌, ◌||◌, List,
  [], ◌∷◌, ◌++◌, arith, ltb, leb, ◌==◌, if◌then◌else◌, ==→eq, Bool-cases,
}
use planetoid_os.WaitQueue.Fifo.{member}
use planetoid_os.KernelHeap.{Blocks}

-- From `a` the `next` pointers lead through the blocks `cs` to `b`.
abbrev pub Seg : Blocks → ℕ → List ℕ → ℕ → Type 0
Seg blocks a [] b = a ≡ b
Seg blocks a (c ∷ cs) b = (a ≡ c) × (c ≢ 0) × Seg blocks (blocks c).next cs b

-- Byte `x` belongs to the header or the memory of the block.
abbrev pub covers : Blocks → (c x : ℕ) → Bool
covers blocks c x = leb c x && ltb x (c + 24 + (blocks c).size)

abbrev pub one_if : Bool → ℕ
one_if b = if b then 1 else 0

-- How many of the blocks byte `x` belongs to.
abbrev pub covering : Blocks → List ℕ → (x : ℕ) → ℕ
covering blocks [] x = 0
covering blocks (c ∷ cs) x = one_if (covers blocks c x) + covering blocks cs x

-- Byte `x` is memory of the block, and the block is given out.
abbrev pub given : Blocks → (c x : ℕ) → Bool
given blocks c x = not (blocks c).free && leb (c + 24) x && ltb x (c + 24 + (blocks c).size)

-- Byte `x` is memory that is given out.
abbrev pub in_use : Blocks → List ℕ → (x : ℕ) → Bool
in_use blocks [] x = false
in_use blocks (c ∷ cs) x = given blocks c x || in_use blocks cs x

pub Seg-append :
    (blocks : Blocks) (a : ℕ) (cs ds : List ℕ) (m b : ℕ)
    → Seg blocks a cs m
    → Seg blocks m ds b
    → Seg blocks a (cs ++ ds) b
Seg-append blocks a [] ds m b s t = subst (λ (n : ℕ). Seg blocks n ds b) (sym s) t
Seg-append blocks a (c ∷ cs) ds m b s t =
    (s.0, s.1, Seg-append blocks (blocks c).next cs ds m b s.2 t)

pub covering-append :
    (blocks : Blocks) (cs ds : List ℕ) (x : ℕ)
    → covering blocks (cs ++ ds) x ≡ covering blocks cs x + covering blocks ds x
covering-append blocks [] ds x = omega arith
covering-append blocks (c ∷ cs) ds x = omega (arith, covering-append blocks cs ds x)

pub in_use-append :
    (blocks : Blocks) (cs ds : List ℕ) (x : ℕ)
    → in_use blocks (cs ++ ds) x ≡ (in_use blocks cs x || in_use blocks ds x)
in_use-append blocks [] ds x = refl
in_use-append blocks (c ∷ cs) ds x = ground (arith, in_use-append blocks cs ds x)

pub member_behind :
    (d : ℕ) (mid after : List ℕ) → member d after ≡ true → member d (mid ++ after) ≡ true
member_behind d [] after h = h
member_behind d (e ∷ mid) after h = ground (arith, member_behind d mid after h)

-- A block covers its own address, so it is counted there.
pub covering-member :
    (blocks : Blocks) (c : ℕ) (cs : List ℕ) (x : ℕ)
    → member c cs ≡ true
    → covers blocks c x ≡ true
    → 1 ≤ covering blocks cs x
covering-member blocks c [] x h e = absurd (ground arith)
covering-member blocks c (d ∷ cs) x h e = elim (Bool-cases (c == d)) [
  | inl same ↦
      let same_block : c ≡ d = ==→eq c d same in
      ground (arith, ap (λ (d : ℕ). covers blocks d x) same_block)
  | inr other ↦ ground (arith, covering-member blocks c cs x)
]

pub in_use-covering :
    (blocks : Blocks) (cs : List ℕ) (x : ℕ) → in_use blocks cs x ≡ true → 1 ≤ covering blocks cs x
in_use-covering blocks [] x h = absurd (ground arith)
in_use-covering blocks (c ∷ cs) x h = ground (arith, in_use-covering blocks cs x)

-- Changes of blocks that are not in the list.
module _ (blocks blocks' : Blocks) where
  abbrev pub SameOn : List ℕ → Type 0
  SameOn cs = (c : ℕ) → member c cs ≡ true → blocks' c ≡ blocks c

  pub Seg-same : (a : ℕ) (cs : List ℕ) (b : ℕ) → SameOn cs → Seg blocks a cs b → Seg blocks' a cs b
  Seg-same a [] b same s = s
  Seg-same a (c ∷ cs) b same s = (
    s.0,
    s.1,
    rw (same c (ground arith)) (Seg-same (blocks c).next cs b (λ d h. same d (ground arith)) s.2),
  )

  pub covering-same :
      (cs : List ℕ) (x : ℕ) → SameOn cs → covering blocks' cs x ≡ covering blocks cs x
  covering-same [] x same = refl
  covering-same (c ∷ cs) x same =
      rw (same c (ground arith), covering-same cs x (λ d h. same d (ground arith))) refl

  pub in_use-same : (cs : List ℕ) (x : ℕ) → SameOn cs → in_use blocks' cs x ≡ in_use blocks cs x
  in_use-same [] x same = refl
  in_use-same (c ∷ cs) x same =
      rw (same c (ground arith), in_use-same cs x (λ d h. same d (ground arith))) refl
