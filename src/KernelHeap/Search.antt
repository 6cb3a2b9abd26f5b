-- ===== src/KernelHeap/Search.antt =====
-- The search of `kmalloc` in kernel/memory/kernel_heap.cpp.
use planetoid_os.Base.{
  ℕ, zero, suc, ◌≤◌, ◌<◌, ◌≡◌, ◌≢◌, refl, ap, ◌⊎◌, inl, inr, Bool, true, false, ◌&&◌, some, List,
  [], ◌∷◌, ◌++◌, arith, leb, ◌==◌, ==→eq, ne→==, Bool-cases, length,
}
use planetoid_os.WaitQueue.Fifo.{member, last_or}
use planetoid_os.KernelHeap.{Blocks, find_block}
use planetoid_os.KernelHeap.Chain.{Seg}

-- The block can give out `size` bytes.
abbrev pub fitting : Blocks → (size c : ℕ) → Bool
fitting blocks size c = (blocks c).free && leb size (blocks c).size

-- The search found the first fitting block of the list, and it is `c`.
pub record IsFirstFit (blocks : Blocks) (size : ℕ) (cs : List ℕ) (c : ℕ) : Type 0 where
  pub pre : List ℕ
  pub post : List ℕ
  pub splits : cs ≡ pre ++ c ∷ post
  pub free : (blocks c).free ≡ true
  pub enough : size ≤ (blocks c).size
  pub first : (d : ℕ) → member d pre ≡ true → fitting blocks size d ≡ false

abbrev pub NoneFits : Blocks → (size : ℕ) → List ℕ → Type 0
NoneFits blocks size cs = (d : ℕ) → member d cs ≡ true → fitting blocks size d ≡ false

pub find_block-cases :
    (fuel : ℕ) (blocks : Blocks) (size previous a : ℕ) (cs : List ℕ)
    → Seg blocks a cs 0
    → length cs < fuel
    → ((c q : ℕ) × (c ≢ 0)
        × (find_block fuel blocks size previous a ≡ some (c, q))
        × IsFirstFit blocks size cs c)
      ⊎ ((find_block fuel blocks size previous a ≡ some (0, last_or previous cs))
          × NoneFits blocks size cs)
unfolding find_block
find_block-cases zero blocks size previous a cs s enough = absurd (omega arith)
find_block-cases (suc fuel) blocks size previous a [] s enough =
    inr (rw s refl, λ d h. absurd (ground arith))
find_block-cases (suc fuel) blocks size previous a (c ∷ cs) s enough =
    rw (s.0, ne→== c 0 s.1)
      (elim (Bool-cases (fitting blocks size c)) [
        | inl fits ↦ rw fits (
            inl (
              c,
              previous,
              s.1,
              refl,
              record {
                pre = [];
                post = cs;
                splits = refl;
                free = ground arith;
                enough = ground arith;
                first = λ d h. absurd (ground arith);
              },
            ))
        | inr full ↦
            rw full
              (elim (find_block-cases fuel blocks size c (blocks c).next cs s.2 (omega arith)) [
                | inl (d, q, nonzero, e, f) ↦ inl (
                  d,
                  q,
                  nonzero,
                  e,
                  record {
                    pre = c ∷ f.pre;
                    post = f.post;
                    splits = ap (λ (l : List ℕ). c ∷ l) f.splits;
                    free = f.free;
                    enough = f.enough;
                    first = λ g h. elim (Bool-cases (g == c)) [
                      | inl same ↦ rw (==→eq g c same) full
                      | inr other ↦ f.first g (ground arith)
                    ];
                  },
                )
                | inr (e, none_fits) ↦ inr (
                  e,
                  λ g h. elim (Bool-cases (g == c)) [
                    | inl same ↦ rw (==→eq g c same) full
                    | inr other ↦ none_fits g (ground arith)
                  ],
                )
              ])
      ])
