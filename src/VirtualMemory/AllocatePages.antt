-- ===== src/VirtualMemory/AllocatePages.antt =====
-- `allocate_pages` of kernel/memory/virtual_memory.cpp.
use planetoid_os.Base.{
  ℕ, ◌+◌, ◌*◌, ◌≤◌, ◌<◌, ◌≡◌, refl, sym, ◌∙◌, subst, ◌⊎◌, inl, inr, not, ◌||◌, arith, ltb, ◌==◌,
  if◌then◌else◌, ==→eq, ne→==, Bool-cases,
}
use planetoid_os.PhysicalMemory.{Platform}
use planetoid_os.Mmu.Entry.{address_of}
use planetoid_os.VirtualMemory.{
  VirtualMemory, page_address, find_free_run, back_pages, undo_pages, allocate_pages,
}
use planetoid_os.VirtualMemory.Pages.{on_run, on_run-page}
use planetoid_os.VirtualMemory.Invariant.{is_marked, IsVirtual}
use planetoid_os.VirtualMemory.Runs.{NoneMarked, IsCleared, undo_pages-IsCleared}
use planetoid_os.VirtualMemory.Fill.{IsFilled, back_pages-IsFilled}
use planetoid_os.VirtualMemory.Search.{IsFirstRun, find_free_run_lem}

-- The same pages are marked, and every address translates as before.
pub record IsRestored (p : Platform) (top : ℕ) (v v' : VirtualMemory) : Type 0 where
  pub virtual : IsVirtual p top v'
  pub marks : (q : ℕ) → is_marked v' q ≡ is_marked v q
  pub translated : (vb : ℕ) → address_of top v'.mmu vb ≡ address_of top v.mmu vb

-- The call at `v` gave the pages from `first` on.
pub record IsRunAllocated (p : Platform) (top count : ℕ) (v : VirtualMemory) (r : ℕ × VirtualMemory)
    (first : ℕ) : Type 0 where
  pub positive : 0 < count
  pub run : IsFirstRun v.virtual_bitmap count first
  pub address : r.0 ≡ 0x80000000 + first * 4096
  pub filled : IsFilled p top first count v r.1

module _ (p : Platform) (top : ℕ) where
  pub IsRestored-refl : (v : VirtualMemory) → IsVirtual p top v → IsRestored p top v v
  IsRestored-refl v virtual = record {
    virtual = virtual;
    marks = λ q. refl;
    translated = λ vb. refl;
  }

  -- Pages that are filled and then cleared are as before, if none was marked.
  pub cleared-filled :
      (first count : ℕ) (v v' v'' : VirtualMemory)
      → first + count ≤ 4096
      → IsVirtual p top v
      → NoneMarked v first count
      → IsFilled p top first count v v'
      → IsCleared p top first count v' v''
      → IsRestored p top v v''
  cleared-filled first count v v' v'' h virtual none_marked filled cleared = record {
    virtual = cleared.virtual;
    marks = λ q. ground (arith, cleared.marks q, filled.marks q, none_marked q);
    translated = λ vb. elim (Bool-cases (on_run first count vb)) [
      | inl on ↦
          let (q, low, high, same) = on_run-page first count vb on in
          cleared.translated vb
          ∙ rw on (sym (virtual.unmapped q vb (omega arith) (none_marked q low high) same))
      | inr off ↦ cleared.translated vb ∙ rw off (filled.elsewhere vb off)
    ];
  }

  undo_back_pages-IsRestored :
      (count k first : ℕ) (v v' : VirtualMemory)
      → first + count ≤ 4096
      → k ≤ count
      → IsVirtual p top v
      → NoneMarked v first count
      → IsFilled p top first k v v'
      → IsRestored p top v (undo_pages p (top * 4096) k first v')
  undo_back_pages-IsRestored count k first v v' h le virtual none_marked filled =
      cleared-filled first k v v' _ (omega arith) virtual
        (λ q low high. none_marked q low (omega arith)) filled
        (undo_pages-IsCleared p top k first v' (omega arith) filled.virtual
          (λ q low high. ground (arith, filled.marks q)))

  -- The rest of `allocate_pages` once the run is found.
  abbrev with_run : (count first : ℕ) → VirtualMemory → ℕ × VirtualMemory
  with_run count first v =
      let (allocated, v') = back_pages p (top * 4096) count first 0 v in
      if not (allocated == count)
      then (0, undo_pages p (top * 4096) allocated first v')
      else (page_address first, v')

  with_run_lem :
      (count first : ℕ) (v : VirtualMemory)
      → 0 < count
      → IsVirtual p top v
      → IsFirstRun v.virtual_bitmap count first
      → let r = with_run count first v in
        IsRunAllocated p top count v r first ⊎ ((r.0 ≡ 0) × IsRestored p top v r.1)
  with_run_lem count first v pos virtual run =
      let (k, le, counted, filled) =
        back_pages-IsFilled p top count first 0 v run.in_range virtual run.free in
      let total : (back_pages p (top * 4096) count first 0 v).0 ≡ k = omega (arith, counted) in
      elim (Bool-cases (k == count)) [
        | inl all ↦
            rw (total, all)
              (inl (record {
                positive = pos;
                run = run;
                address = omega (arith, run.in_range);
                filled =
                    subst
                      (λ (n : ℕ).
                        IsFilled p top first n v (back_pages p (top * 4096) count first 0 v).1)
                      (==→eq k count all) filled;
              }))
        | inr some_failed ↦
            rw (total, some_failed)
              (inr (
                refl,
                undo_back_pages-IsRestored count k first v _ run.in_range le virtual run.free
                    filled,
              ))
      ]

  -- `allocate_pages` under the invariant either gives the address of the lowest run of that many
  -- pages that are not marked, now marked and each mapped to a frame that was free, every other page
  -- as before; or it returns 0, with the same pages marked and every translation as before, also
  -- where it had to roll back. The invariant is kept.
  pub allocate_pages_lem :
      (count : ℕ) (v : VirtualMemory)
      → IsVirtual p top v
      → let r = allocate_pages p (top * 4096) count v in
        ((first : ℕ) × IsRunAllocated p top count v r first) ⊎ ((r.0 ≡ 0) × IsRestored p top v r.1)
  unfolding allocate_pages
  allocate_pages_lem count v virtual = elim (Bool-cases ((count == 0) || ltb 4096 count)) [
    | inl refused ↦ rw refused (inr (refl, IsRestored-refl v virtual))
    | inr fits ↦ rw fits (elim (find_free_run_lem count v.virtual_bitmap (ground arith)) [
      | inl (none_found, no_run) ↦ rw none_found (inr (refl, IsRestored-refl v virtual))
      | inr run ↦
          let first = find_free_run 4096 0 0 count v.virtual_bitmap in
          rw (ne→== first 4096 (ground (arith, run.in_range)))
            (elim (with_run_lem count first v (ground arith) virtual run) [
              | inl done ↦ inl (first, done)
              | inr failed ↦ inr failed
            ])
    ])
  ]
