-- ===== src/KernelHeap/Release.antt =====
-- The loops of `kfree` in kernel/memory/kernel_heap.cpp, which join free blocks that are adjacent.
use planetoid_os.Base.{
  ℕ, zero, suc, ◌+◌, ◌^◌, ◌≤◌, ◌<◌, ◌≡◌, ◌≢◌, refl, ap, ◌∙◌, inl, inr, true, false, not, ◌&&◌, ◌||◌,
  Option, some, List, [], ◌∷◌, ◌++◌, arith, ltb, leb, ◌==◌, ne→==, Bool-cases, length, add64,
}
use planetoid_os.WaitQueue.Fifo.{member, last_or}
use planetoid_os.KernelHeap.{Blocks, behind, merge_next, find_previous}
use planetoid_os.KernelHeap.Chain.{Seg, covering, in_use, in_use-append, one_if, SameOn}
use planetoid_os.KernelHeap.Invariant.{IsList, covering-replace, in_use-replace, replace-IsList}

-- The blocks `cs'` cover the same bytes, and the same memory is given out.
pub record IsMerged (blocks : Blocks) (cs : List ℕ) (blocks' : Blocks) (first : ℕ) (cs' : List ℕ)
    : Type 0 where
  pub list : IsList blocks' first cs'
  pub same_bytes : (x : ℕ) → covering blocks' cs' x ≡ covering blocks cs x
  pub same_use : (x : ℕ) → in_use blocks' cs' x ≡ in_use blocks cs x

pub replace-IsMerged :
    (blocks blocks' : Blocks) (first : ℕ) (pre mid mid' post : List ℕ) (a b : ℕ)
    → IsList blocks first (pre ++ (mid ++ post))
    → SameOn blocks blocks' pre
    → SameOn blocks blocks' post
    → ((x : ℕ) → covering blocks' mid' x ≡ covering blocks mid x)
    → ((x : ℕ) → in_use blocks' mid' x ≡ in_use blocks mid x)
    → Seg blocks first pre a
    → Seg blocks' a mid' b
    → Seg blocks b post 0
    → IsMerged blocks (pre ++ (mid ++ post)) blocks' first (pre ++ (mid' ++ post))
replace-IsMerged blocks blocks' first pre mid mid' post a b list before after bytes uses s t u =
    record {
      list =
          replace-IsList blocks blocks' first pre mid mid' post a b list before after bytes s t u;
      same_bytes =
          covering-replace blocks blocks' first pre mid mid' post a b list before after bytes;
      same_use = λ x.
          in_use-replace blocks blocks' first pre mid mid' post a b list before after bytes x
          ∙ rw (uses x, in_use-append blocks pre (mid ++ post) x, in_use-append blocks mid post x)
              refl;
    }

-- The free blocks `mid` behind the block `c` of `gained_size` bytes join it.
pub record IsAbsorbed (blocks : Blocks) (c gained_size : ℕ) (post : List ℕ) (r : Option (ℕ × ℕ))
    : Type 0 where
  pub mid : List ℕ
  pub after : List ℕ
  pub gained : ℕ
  pub next : ℕ
  pub result : r ≡ some (gained, next)
  pub splits : post ≡ mid ++ after
  pub seg : Seg blocks next after 0
  pub bytes :
      (x : ℕ)
      → one_if (leb c x && ltb x (c + 24 + gained))
        ≡ one_if (leb c x && ltb x (c + 24 + gained_size)) + covering blocks mid x
  pub unused : (x : ℕ) → in_use blocks mid x ≡ false

absorbs_nothing :
    (blocks : Blocks) (c gained_size next : ℕ) (post : List ℕ)
    → Seg blocks next post 0
    → IsAbsorbed blocks c gained_size post (some (gained_size, next))
absorbs_nothing blocks c gained_size next post s = record {
  mid = [];
  after = post;
  gained = gained_size;
  next = next;
  result = refl;
  splits = refl;
  seg = s;
  bytes = λ x. omega arith;
  unused = λ x. refl;
}

pub merge_next-IsAbsorbed :
    (fuel : ℕ) (blocks : Blocks) (c gained_size next : ℕ) (post : List ℕ)
    → Seg blocks next post 0
    → ((x : ℕ) → covering blocks post x ≢ 0 → x < 2 ^ 63)
    → c + 24 + gained_size ≤ 2 ^ 63
    → length post < fuel
    → IsAbsorbed blocks c gained_size post (merge_next fuel blocks c gained_size next)
unfolding merge_next
merge_next-IsAbsorbed zero blocks c g n post s small end enough = absurd (omega arith)
merge_next-IsAbsorbed (suc fuel) blocks c g n [] s small end enough =
    rw s (absorbs_nothing blocks c g 0 [] refl)
merge_next-IsAbsorbed (suc fuel) blocks c g n (d ∷ post) s small end enough =
    rw (s.0, ne→== d 0 s.1)
      (elim (Bool-cases (not (blocks d).free || not (d == behind c g))) [
        | inl stop ↦ rw stop (absorbs_nothing blocks c g d (d ∷ post) (refl, s.1, s.2))
        | inr join ↦
            let is_free : (blocks d).free ≡ true = ground arith in
            let at : d ≡ c + 24 + g = ground arith in
            let d_end : d + 24 + (blocks d).size ≤ 2 ^ 63 =
              ground (arith, small (d + 23 + (blocks d).size)) in
            let sum : add64 g (add64 24 (blocks d).size) ≡ g + 24 + (blocks d).size = omega arith in
            let rest =
              merge_next-IsAbsorbed fuel blocks c (g + 24 + (blocks d).size) (blocks d).next post
                s.2 (λ x h. small x (λ e. h (omega (arith, e)))) (omega arith) (omega arith) in
            rw (join, sum)
              (record {
                mid = d ∷ rest.mid;
                after = rest.after;
                gained = rest.gained;
                next = rest.next;
                result = rest.result;
                splits = ap (λ (l : List ℕ). d ∷ l) rest.splits;
                seg = rest.seg;
                bytes = λ x. ground (arith, rest.bytes x);
                unused = λ x. rw is_free (rest.unused x);
              })
      ])

pub find_previous_lem :
    (fuel : ℕ) (blocks : Blocks) (c previous a : ℕ) (pre : List ℕ)
    → Seg blocks a pre c
    → member c pre ≡ false
    → length pre < fuel
    → find_previous fuel blocks c previous a ≡ some (last_or previous pre)
unfolding find_previous
find_previous_lem zero blocks c q a pre s out enough = absurd (omega arith)
find_previous_lem (suc fuel) blocks c q a [] s out enough = rw s (ground arith)
find_previous_lem (suc fuel) blocks c q a (d ∷ pre) s out enough =
    rw
      (
        s.0,
        ne→== d 0 s.1,
        find_previous_lem fuel blocks c d (blocks d).next pre s.2 (ground arith) (omega arith),
      )
      (ground arith)
