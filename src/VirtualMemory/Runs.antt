-- ===== src/VirtualMemory/Runs.antt =====
-- The loops of `allocate_pages` and `free_pages` of kernel/memory/virtual_memory.cpp that release the
-- pages of a run.
use planetoid_os.Base.{
  ℕ, zero, suc, ◌+◌, ◌*◌, ◌≤◌, ◌<◌, ◌≡◌, refl, ap, ◌∙◌, inl, inr, true, false, arith, ◌==◌,
  if◌then◌else◌, ==→eq, ==→ne, Bool-cases, add64, mul64,
}
use planetoid_os.PhysicalMemory.{Platform}
use planetoid_os.PhysicalMemory.Allocate.{available}
use planetoid_os.Mmu.Entry.{address_of}
use planetoid_os.VirtualMemory.{VirtualMemory, page_address, undo_pages, free_each}
use planetoid_os.VirtualMemory.Pages.{on_run, in_run, same_page-page_address}
use planetoid_os.VirtualMemory.Invariant.{is_marked, frame_behind, IsVirtual}
use planetoid_os.VirtualMemory.Release.{IsFreed, released, released-IsFreed, free_page-marked}

-- Every page of the run is marked.
abbrev pub AllMarked : VirtualMemory → (first count : ℕ) → Type 0
AllMarked v first count = (q : ℕ) → first ≤ q → q < first + count → is_marked v q ≡ true

-- No page of the run is marked.
abbrev pub NoneMarked : VirtualMemory → (first count : ℕ) → Type 0
NoneMarked v first count = (q : ℕ) → first ≤ q → q < first + count → is_marked v q ≡ false

-- No page of the run is marked or mapped; every other page is marked and mapped as before, and no
-- frame was taken.
pub record IsCleared (p : Platform) (top first count : ℕ) (v v' : VirtualMemory) : Type 0 where
  pub virtual : IsVirtual p top v'
  pub marks : (q : ℕ) → is_marked v' q ≡ (if in_run first count q then false else is_marked v q)
  pub translated :
      (vb : ℕ)
      → address_of top v'.mmu vb ≡ (if on_run first count vb then 0 else address_of top v.mmu vb)
  pub still_free :
      (b : ℕ) → available p v.mmu.physical b ≡ true → available p v'.mmu.physical b ≡ true
  pub freed :
      (q : ℕ)
      → first ≤ q
      → q < first + count
      → available p v'.mmu.physical (frame_behind top v q) ≡ true

module _ (p : Platform) (top : ℕ) where
  empty-IsCleared :
      (first : ℕ) (v : VirtualMemory) → IsVirtual p top v → IsCleared p top first 0 v v
  unfolding on_run
  empty-IsCleared first v virtual = record {
    virtual = virtual;
    marks = λ q. ground arith;
    translated = λ vb. refl;
    still_free = λ b h. h;
    freed = λ q low high. absurd (omega arith);
  }

  -- One page is released, then the rest of the run.
  next-IsCleared :
      (first count : ℕ) (v v' v'' : VirtualMemory)
      → first + suc count ≤ 4096
      → IsFreed p top first v v'
      → IsCleared p top (first + 1) count v' v''
      → IsCleared p top first (suc count) v v''
  unfolding on_run
  next-IsCleared first count v v' v'' h one rest = record {
    virtual = rest.virtual;
    marks = λ q. ground (arith, rest.marks q, one.marks q);
    translated = λ vb. ground (arith, rest.translated vb, one.translated vb);
    still_free = λ b free. rest.still_free b (ground (arith, one.freed b));
    freed = λ q low high. elim (Bool-cases (first == q)) [
      | inl here ↦ rest.still_free _ (one.freed _ ∙ rw (==→eq first q here) (ground arith))
      | inr later ↦
          let same : frame_behind top v' q ≡ frame_behind top v q =
            one.translated (page_address q)
            ∙ rw (same_page-page_address first q (omega arith) (omega arith), later) refl in
          rw (← same) (rest.freed q (omega (arith, ==→ne first q later)) (omega arith))
    ];
  }

  marked-after :
      (first count : ℕ) (v v' : VirtualMemory)
      → IsFreed p top first v v'
      → AllMarked v first (suc count)
      → AllMarked v' (first + 1) count
  marked-after first count v v' one all q low high =
      ground (arith, one.marks q, all q (omega arith) (omega arith))

  -- The rollback clears a run of marked pages.
  pub undo_pages-IsCleared :
      (count first : ℕ) (v : VirtualMemory)
      → first + count ≤ 4096
      → IsVirtual p top v
      → AllMarked v first count
      → IsCleared p top first count v (undo_pages p (top * 4096) count first v)
  unfolding undo_pages released
  undo_pages-IsCleared zero first v h virtual all = empty-IsCleared first v virtual
  undo_pages-IsCleared (suc count) first v h virtual all =
      let one =
        released-IsFreed p top first v virtual (omega arith)
          (all first (omega arith) (omega arith)) in
      next-IsCleared first count v (released p top first v) _ h one (
        undo_pages-IsCleared count (first + 1) (released p top first v) (omega arith) one.virtual
          (marked-after first count v (released p top first v) one all))

  -- Under the invariant the second loop of `free_pages` does what the rollback does.
  pub free_each-undo_pages :
      (count i first : ℕ) (v : VirtualMemory)
      → first + i + count ≤ 4096
      → IsVirtual p top v
      → AllMarked v (first + i) count
      → free_each p (top * 4096) count i (page_address first) v
        ≡ (true, undo_pages p (top * 4096) count (first + i) v)
  unfolding free_each undo_pages released
  free_each-undo_pages zero i first v h virtual all = refl
  free_each-undo_pages (suc count) i first v h virtual all =
      let marked = all (first + i) (omega arith) (omega arith) in
      let one = released-IsFreed p top (first + i) v virtual (omega arith) marked in
      let address : add64 (page_address first) (mul64 i 4096) ≡ page_address (first + i) =
        omega arith in
      let next : first + (i + 1) ≡ first + i + 1 = omega arith in
      rw (address, free_page-marked p top (first + i) v virtual (omega arith) marked)
        (free_each-undo_pages count (i + 1) first (released p top (first + i) v) (omega arith)
            one.virtual
            (rw next (marked-after (first + i) count v (released p top (first + i) v) one all))
          ∙ ap (λ (k : ℕ). (true, undo_pages p (top * 4096) count k (released p top (first + i) v)))
              next)
