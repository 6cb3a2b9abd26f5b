-- ===== src/VirtualMemory/Fill.antt =====
-- The loop of `allocate_pages` of kernel/memory/virtual_memory.cpp that backs the pages of a run.
use planetoid_os.Base.{
  ℕ, zero, suc, ◌+◌, ◌*◌, ◌%◌, ◌≤◌, ◌<◌, ◌≡◌, refl, sym, ap, ◌∙◌, inl, inr, true, false, arith,
  ◌==◌, if◌then◌else◌, ==→eq, ==→ne, Bool-cases,
}
use planetoid_os.PhysicalMemory.{Platform}
use planetoid_os.PhysicalMemory.Allocate.{available}
use planetoid_os.Mmu.Entry.{address_of, same_page}
use planetoid_os.VirtualMemory.{VirtualMemory, page_address, back_page, back_pages}
use planetoid_os.VirtualMemory.Pages.{on_run, in_run, on_run-in_run, same_page_self}
use planetoid_os.VirtualMemory.Back.{IsBacked, IsUnbacked, back_page_lem}
use planetoid_os.VirtualMemory.Invariant.{
  is_marked, frame_behind, IsVirtual, unbacked-IsVirtual, backed-IsVirtual, marked-backed,
}
use planetoid_os.VirtualMemory.Runs.{NoneMarked}

-- Every page of the run is marked and mapped to a frame that was free; every other page is marked and
-- mapped as before.
pub record IsFilled (p : Platform) (top first count : ℕ) (v v' : VirtualMemory) : Type 0 where
  pub virtual : IsVirtual p top v'
  pub marks : (q : ℕ) → is_marked v' q ≡ (if in_run first count q then true else is_marked v q)
  pub elsewhere :
      (vb : ℕ) → on_run first count vb ≡ false → address_of top v'.mmu vb ≡ address_of top v.mmu vb
  pub backed :
      (q vb : ℕ)
      → first ≤ q
      → q < first + count
      → same_page (page_address q) vb ≡ true
      → address_of top v'.mmu vb ≡ frame_behind top v' q + vb % 4096
  pub was_free :
      (q : ℕ)
      → first ≤ q
      → q < first + count
      → available p v.mmu.physical (frame_behind top v' q) ≡ true
  pub only_takes :
      (b : ℕ) → available p v'.mmu.physical b ≡ true → available p v.mmu.physical b ≡ true

module _ (p : Platform) (top : ℕ) where
  empty-IsFilled : (first : ℕ) (v : VirtualMemory) → IsVirtual p top v → IsFilled p top first 0 v v
  empty-IsFilled first v virtual = record {
    virtual = virtual;
    marks = λ q. ground arith;
    elsewhere = λ vb off. refl;
    backed = λ q vb low high. absurd (omega arith);
    was_free = λ q low high. absurd (omega arith);
    only_takes = λ b free. free;
  }

  -- One page is backed, then the rest of the run.
  module _ (first count : ℕ) (v v' v'' : VirtualMemory) (h : first + suc count ≤ 4096)
      (virtual : IsVirtual p top v) (one : IsBacked p top first virtual.roles v v')
      (rest : IsFilled p top (first + 1) count v' v'') where
    off_rest :
        (vb : ℕ) → same_page (page_address first) vb ≡ true → on_run (first + 1) count vb ≡ false
    off_rest vb on =
        on_run-in_run (first + 1) count first vb (omega arith) (omega arith) on ∙ ground arith

    first-kept :
        (vb : ℕ)
        → same_page (page_address first) vb ≡ true
        → address_of top v''.mmu vb ≡ one.frame + vb % 4096
    first-kept vb on = rest.elsewhere vb (off_rest vb on) ∙ one.translated vb ∙ rw on refl

    first-frame : frame_behind top v'' first ≡ one.frame
    first-frame =
        first-kept (page_address first) (same_page_self (page_address first)) ∙ omega arith

    next-IsFilled : IsFilled p top first (suc count) v v''
    unfolding on_run
    next-IsFilled = record {
      virtual = rest.virtual;
      marks = λ q. ground (arith, rest.marks q, marked-backed virtual first (omega arith) one q);
      elsewhere = λ vb off. rest.elsewhere vb (ground arith) ∙ one.translated vb ∙ ground arith;
      backed = λ q vb low high on. elim (Bool-cases (first == q)) [
        | inl here ↦
            let same = ==→eq first q here in
            rw (← same)
              (first-kept vb (rw (← same) at on) ∙ ap (λ (f : ℕ). f + vb % 4096) (sym first-frame))
        | inr later ↦ rest.backed q vb (omega (arith, ==→ne first q later)) (omega arith) on
      ];
      was_free = λ q low high. elim (Bool-cases (first == q)) [
        | inl here ↦ rw (← ==→eq first q here) (rw first-frame one.was_free)
        | inr later ↦
            one.kept.only_takes _
              (rest.was_free q (omega (arith, ==→ne first q later)) (omega arith))
      ];
      only_takes = λ b free. one.kept.only_takes b (rest.only_takes b free);
    }

  -- After a failure nothing more is filled.
  unbacked-IsFilled :
      (first : ℕ) (v v' : VirtualMemory) (virtual : IsVirtual p top v)
      → IsUnbacked p top virtual.roles v v'
      → IsFilled p top first 0 v v'
  unbacked-IsFilled first v v' virtual u = record {
    virtual = unbacked-IsVirtual virtual u;
    marks = λ q. rw u.unmarked (ground arith);
    elsewhere = λ vb off. u.translated vb;
    backed = λ q vb low high. absurd (omega arith);
    was_free = λ q low high. absurd (omega arith);
    only_takes = u.kept.only_takes;
  }

  unmarked-after :
      (first count : ℕ) (v v' : VirtualMemory) (h : first + suc count ≤ 4096)
      (virtual : IsVirtual p top v)
      → IsBacked p top first virtual.roles v v'
      → NoneMarked v first (suc count)
      → NoneMarked v' (first + 1) count
  unmarked-after first count v v' h virtual one none_marked q low high = ground (
    arith,
    marked-backed virtual first (omega arith) one q,
    none_marked q (omega arith) (omega arith),
  )

  -- The rounds of `allocate_pages` on a run of pages that are not marked fill the first of them, as
  -- many as the result counts.
  pub back_pages-IsFilled :
      (count first allocated : ℕ) (v : VirtualMemory)
      → first + count ≤ 4096
      → IsVirtual p top v
      → NoneMarked v first count
      → let r = back_pages p (top * 4096) count first allocated v in
        (k : ℕ) × (k ≤ count) × (r.0 ≡ allocated + k) × IsFilled p top first k v r.1
  unfolding back_pages
  back_pages-IsFilled zero first allocated v h virtual none_marked =
      (0, omega arith, omega arith, empty-IsFilled first v virtual)
  back_pages-IsFilled (suc count) first allocated v h virtual none_marked =
      elim (back_page_lem p top first virtual.roles v virtual.mmu) [
        | inr (e, u) ↦ rw e (0, omega arith, omega arith, unbacked-IsFilled first v _ virtual u)
        | inl (e, one) ↦
            let v' = (back_page p (top * 4096) first v).1 in
            let (k, le, counted, filled) =
              back_pages-IsFilled count (first + 1) (allocated + 1) v' (omega arith)
                (backed-IsVirtual virtual first (omega arith) one)
                (unmarked-after first count v v' h virtual one none_marked) in
            rw e (
              suc k,
              omega arith,
              omega (arith, counted),
              next-IsFilled first k v v' _ (omega arith) virtual one filled,
            )
      ]
