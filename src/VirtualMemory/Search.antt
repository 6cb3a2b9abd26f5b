-- ===== src/VirtualMemory/Search.antt =====
-- The search of `allocate_pages` of kernel/memory/virtual_memory.cpp.
use planetoid_os.Base.{
  ℕ, zero, suc, ◌+◌, ◌-◌, ◌≤◌, ◌<◌, ◌≡◌, ◌≢◌, refl, ◌⊎◌, inl, inr, true, false, arith, ◌==◌, ==→eq,
  ==→ne, Bool-cases, add64, sub64,
}
use planetoid_os.Bitmap.{Bitmap, is_frame_used}
use planetoid_os.VirtualMemory.{find_free_run}

-- The `count` pages from `first` on are not marked.
abbrev pub IsFreeRun : Bitmap → (first count : ℕ) → Type 0
IsFreeRun bitmap first count =
    (q : ℕ) → first ≤ q → q < first + count → is_frame_used bitmap q ≡ false

-- No free run ends at or before page `limit`.
abbrev pub NoRun : Bitmap → (count limit : ℕ) → Type 0
NoRun bitmap count limit = (f : ℕ) → f + count ≤ limit → ¬ IsFreeRun bitmap f count

-- The lowest free run.
pub record IsFirstRun (bitmap : Bitmap) (count first : ℕ) : Type 0 where
  pub in_range : first + count ≤ 4096
  pub free : IsFreeRun bitmap first count
  pub lowest : (f : ℕ) → f < first → ¬ IsFreeRun bitmap f count

-- What the loop knows at page `current`: the `consecutive` pages before it are free, the page before
-- those is not, and no run was missed.
record IsSearch (bitmap : Bitmap) (count current consecutive : ℕ) : Type 0 where
  enough : consecutive ≤ current
  short : consecutive < count
  behind : (q : ℕ) → current ≤ q + consecutive → q < current → is_frame_used bitmap q ≡ false
  stop : (q : ℕ) → q + 1 + consecutive ≡ current → is_frame_used bitmap q ≡ true
  missed : NoRun bitmap count current

module _ (bitmap : Bitmap) (count current consecutive : ℕ)
    (s : IsSearch bitmap count current consecutive) where
  used-IsSearch : is_frame_used bitmap current ≡ true → IsSearch bitmap count (current + 1) 0
  used-IsSearch used = record {
    enough = omega arith;
    short = omega (arith, s.short);
    behind = λ q low high. absurd (omega arith);
    stop = λ q e. let same : q ≡ current = omega arith in rw same used;
    missed = λ f h run. elim (Bool-cases (f + count == current + 1)) [
      | inl last ↦
          let here =
            run current (omega (arith, ==→eq _ _ last, s.short)) (omega (arith, ==→eq _ _ last)) in
          cc
      | inr earlier ↦ s.missed f (omega (arith, ==→ne _ _ earlier)) run
    ];
  }

  free-behind :
      is_frame_used bitmap current ≡ false
      → (q : ℕ) → current + 1 ≤ q + (consecutive + 1)
      → q < current + 1
      → is_frame_used bitmap q ≡ false
  free-behind free q low high = elim (Bool-cases (q == current)) [
    | inl here ↦ rw (==→eq q current here) free
    | inr before ↦ s.behind q (omega arith) (omega (arith, ==→ne q current before))
  ]

  free-IsSearch :
      is_frame_used bitmap current ≡ false
      → consecutive + 1 ≢ count
      → IsSearch bitmap count (current + 1) (consecutive + 1)
  free-IsSearch free differ = record {
    enough = omega (arith, s.enough);
    short = omega (arith, s.short);
    behind = free-behind free;
    stop = λ q e. s.stop q (omega arith);
    missed = λ f h run. elim (Bool-cases (f + count == current + 1)) [
      | inl last ↦
          let e = ==→eq _ _ last in
          let before = current - consecutive - 1 in
          let marked = s.stop before (omega (arith, s.short, s.enough)) in
          let unmarked = run before (omega (arith, s.short)) (omega (arith, s.short)) in cc
      | inr earlier ↦ s.missed f (omega (arith, ==→ne _ _ earlier)) run
    ];
  }

  found-IsFirstRun :
      current < 4096
      → is_frame_used bitmap current ≡ false
      → consecutive + 1 ≡ count
      → IsFirstRun bitmap count (current + 1 - count)
  found-IsFirstRun below free e = record {
    in_range = omega (arith, s.enough);
    free = λ q low high. free-behind free q (omega (arith, s.enough)) (omega (arith, s.enough));
    lowest = λ f h run. s.missed f (omega (arith, s.enough)) run;
  }

-- The search gives the lowest free run, or 4096 where there is none.
find_free_run-from :
    (left current consecutive count : ℕ) (bitmap : Bitmap)
    → current + left ≡ 4096
    → IsSearch bitmap count current consecutive
    → let found = find_free_run left current consecutive count bitmap in
      ((found ≡ 4096) × NoRun bitmap count 4096) ⊎ IsFirstRun bitmap count found
unfolding find_free_run
find_free_run-from zero current consecutive count bitmap e s =
    inl (refl, λ f h. s.missed f (omega arith))
find_free_run-from (suc left) current consecutive count bitmap e s =
    elim (Bool-cases (is_frame_used bitmap current)) [
      | inl used ↦ rw used (
          find_free_run-from left (current + 1) 0 count bitmap (omega arith)
            (used-IsSearch bitmap count current consecutive s used))
      | inr free ↦ rw free (elim (Bool-cases (consecutive + 1 == count)) [
        | inl done ↦
            let address : add64 (sub64 current count) 1 ≡ current + 1 - count =
              omega (arith, ==→eq _ _ done, s.enough) in
            rw (done, address)
              (inr (
                found-IsFirstRun bitmap count current consecutive s (omega arith) free
                  (==→eq _ _ done)))
        | inr more ↦ rw more (
            find_free_run-from left (current + 1) (consecutive + 1) count bitmap (omega arith)
              (free-IsSearch bitmap count current consecutive s free (==→ne _ _ more)))
      ])
    ]

pub find_free_run_lem :
    (count : ℕ) (bitmap : Bitmap)
    → 0 < count
    → let found = find_free_run 4096 0 0 count bitmap in
      ((found ≡ 4096) × NoRun bitmap count 4096) ⊎ IsFirstRun bitmap count found
find_free_run_lem count bitmap pos = find_free_run-from 4096 0 0 count bitmap refl (record {
  enough = omega arith;
  short = pos;
  behind = λ q low high. absurd (omega arith);
  stop = λ q e. absurd (omega arith);
  missed = λ f h run. absurd (omega arith);
})
