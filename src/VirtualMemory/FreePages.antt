-- ===== src/VirtualMemory/FreePages.antt =====
-- `free_pages` of kernel/memory/virtual_memory.cpp.
use planetoid_os.Base.{
  ℕ, zero, suc, ◌+◌, ◌*◌, ◌≤◌, ◌<◌, ◌≡◌, ◌≢◌, refl, sym, ap, ◌∙◌, subst, ◌⊎◌, inl, inr, Bool, true,
  false, not, ◌||◌, arith, ltb, leb, ◌==◌, if◌then◌else◌, ==→eq, ==→ne, ne→==, Bool-cases, add64,
  sub64, mul64,
}
use planetoid_os.Descriptor.Fields.{low_twelve}
use planetoid_os.PhysicalMemory.{Platform}
use planetoid_os.VirtualMemory.{
  VirtualMemory, page_address, page_of, out_of_range, are_pages_used, free_each, allocate_pages,
  free_pages,
}
use planetoid_os.VirtualMemory.Pages.{page_address_lem}
use planetoid_os.VirtualMemory.Invariant.{is_marked, IsVirtual}
use planetoid_os.VirtualMemory.Runs.{
  AllMarked, IsCleared, undo_pages-IsCleared, free_each-undo_pages,
}
use planetoid_os.VirtualMemory.AllocatePages.{
  IsRestored, IsRunAllocated, cleared-filled, allocate_pages_lem,
}

-- The address and the count name a run of marked pages.
pub record IsMarkedRun (v : VirtualMemory) (virtual_address count first : ℕ) : Type 0 where
  pub address : virtual_address ≡ 0x80000000 + first * 4096
  pub positive : 0 < count
  pub in_range : first + count ≤ 4096
  pub marked : AllMarked v first count

module _ (p : Platform) (top : ℕ) where
  -- The first loop of `free_pages` tells whether every page of the run is marked.
  are_pages_used-cases :
      (count i first : ℕ) (v : VirtualMemory)
      → first + i + count ≤ 4096
      → IsVirtual p top v
      → ((are_pages_used p (top * 4096) count i (page_address first) v ≡ true)
          × AllMarked v (first + i) count)
        ⊎ ((are_pages_used p (top * 4096) count i (page_address first) v ≡ false)
            × ¬ AllMarked v (first + i) count)
  unfolding are_pages_used
  are_pages_used-cases zero i first v h virtual = inl (refl, λ q low high. absurd (omega arith))
  are_pages_used-cases (suc count) i first v h virtual =
      let address : add64 (page_address first) (mul64 i 4096) ≡ page_address (first + i) =
        omega arith in
      let page : page_of (page_address (first + i)) ≡ first + i = omega arith in
      let next : first + (i + 1) ≡ first + i + 1 = omega arith in
      elim (Bool-cases (is_marked v (first + i))) [
        | inr unmarked ↦
            rw (address, page, unmarked)
              (inr (refl, λ all. cc (all (first + i) (omega arith) (omega arith))))
        | inl marked ↦
            rw
              (
                address,
                page,
                marked,
                ne→== _ 0 (virtual.held (first + i) (omega arith) marked).nonzero,
              )
              (elim (are_pages_used-cases count (i + 1) first v (omega arith) virtual) [
                | inr (e, not_all) ↦
                    inr (e, λ all. not_all (λ q low high. all q (omega arith) (omega arith)))
                | inl (e, all) ↦ inl (
                  e,
                  λ q low high. elim (Bool-cases (q == first + i)) [
                    | inl here ↦ rw (==→eq q _ here) marked
                    | inr later ↦ all q (omega (arith, ==→ne q _ later)) (omega arith)
                  ],
                )
              ])
      ]

  -- The checks of `free_pages` before its loops.
  abbrev refused : (virtual_address count : ℕ) → Bool
  refused virtual_address count = (count == 0) || ltb 4096 count || out_of_range virtual_address

  free_pages-refused :
      (virtual_address count : ℕ) (v : VirtualMemory)
      → refused virtual_address count ≡ true
      → free_pages p (top * 4096) virtual_address count v ≡ (false, v)
  unfolding free_pages
  free_pages-refused virtual_address count v e = rw e

  -- An address that passes the range check is that of a page.
  pub page_address-page_of :
      (virtual_address : ℕ)
      → out_of_range virtual_address ≡ false
      → (page_of virtual_address < 4096)
        × (virtual_address ≡ 0x80000000 + page_of virtual_address * 4096)
  page_address-page_of virtual_address e = ground (arith, low_twelve virtual_address)

  -- A run of marked pages passes the checks.
  IsMarkedRun-passes :
      (virtual_address count first : ℕ) (v : VirtualMemory)
      → IsMarkedRun v virtual_address count first
      → refused virtual_address count ≡ false
  IsMarkedRun-passes virtual_address count first v run =
      ground (arith, low_twelve virtual_address, run.address, run.positive, run.in_range)

  -- The rest of `free_pages` at a page's address.
  abbrev with_pages : (first count : ℕ) → VirtualMemory → Bool × VirtualMemory
  with_pages first count v =
      if leb 0x81000000 (add64 (page_address first) (mul64 (sub64 count 1) 4096))
      then (false, v)
      else if not (are_pages_used p (top * 4096) count 0 (page_address first) v)
      then (false, v)
      else free_each p (top * 4096) count 0 (page_address first) v

  free_pages-with_pages :
      (first count : ℕ) (v : VirtualMemory)
      → refused (page_address first) count ≡ false
      → free_pages p (top * 4096) (page_address first) count v ≡ with_pages first count v
  unfolding free_pages
  free_pages-with_pages first count v e = rw e refl

  -- What `free_pages` may do.
  abbrev pub FreesRun : (virtual_address count : ℕ) → VirtualMemory → Bool × VirtualMemory → Type 0
  FreesRun virtual_address count v r =
      ((first : ℕ) × IsMarkedRun v virtual_address count first
        × (r.0 ≡ true)
        × IsCleared p top first count v r.1)
      ⊎ ((r.0 ≡ false) × (r.1 ≡ v) × ((first : ℕ) → ¬ IsMarkedRun v virtual_address count first))

  same_first :
      (virtual_address count first q : ℕ) (v : VirtualMemory)
      → virtual_address ≡ 0x80000000 + first * 4096
      → IsMarkedRun v virtual_address count q
      → first ≡ q
  same_first virtual_address count first q v e run = omega (arith, run.address)

  with_pages_lem :
      (first count : ℕ) (v : VirtualMemory)
      → first < 4096
      → 0 < count
      → count ≤ 4096
      → IsVirtual p top v
      → FreesRun (page_address first) count v (with_pages first count v)
  with_pages_lem first count v h pos small virtual =
      let address = page_address_lem first h in
      elim (Bool-cases (leb 0x81000000 (add64 (page_address first) (mul64 (sub64 count 1) 4096)))) [
        | inl beyond ↦ rw beyond (
            inr (
              refl,
              refl,
              λ q run.
                  absurd (ground (arith, same_first _ count first q v address run, run.in_range)),
            ))
        | inr inside ↦
            let in_range : first + 0 + count ≤ 4096 = ground arith in
            rw inside (elim (are_pages_used-cases count 0 first v in_range virtual) [
              | inr (e, not_all) ↦ rw e (
                  inr (
                    refl,
                    refl,
                    λ q run. not_all (λ k low high.
                        run.marked k (omega (arith, same_first _ count first q v address run))
                          (omega (arith, same_first _ count first q v address run))),
                  ))
              | inl (e, all) ↦
                  let same : first + 0 ≡ first = omega arith in
                  let all' : AllMarked v first count =
                    λ k low high. all k (omega arith) (omega arith) in
                  rw (e, free_each-undo_pages p top count 0 first v in_range virtual all, same)
                    (inl (
                      first,
                      record {
                        address = address;
                        positive = pos;
                        in_range = omega arith;
                        marked = all';
                      },
                      refl,
                      undo_pages-IsCleared p top count first v (omega arith) virtual all',
                    ))
            ])
      ]

  -- `free_pages` under the invariant frees exactly the runs of marked pages: it returns true where
  -- the address and the count name one, and then no page of it is marked or mapped, their frames are
  -- free, every other page is as before and the invariant is kept. Otherwise it returns false and
  -- changes nothing.
  pub free_pages_lem :
      (virtual_address count : ℕ) (v : VirtualMemory)
      → IsVirtual p top v
      → FreesRun virtual_address count v (free_pages p (top * 4096) virtual_address count v)
  free_pages_lem virtual_address count v virtual =
      elim (Bool-cases (refused virtual_address count)) [
        | inl e ↦
            rw (free_pages-refused virtual_address count v e)
              (inr (refl, refl, λ q run. cc (IsMarkedRun-passes virtual_address count q v run)))
        | inr e ↦
            let (h, address) = page_address-page_of virtual_address (ground arith) in
            let same : page_address (page_of virtual_address) ≡ virtual_address =
              page_address_lem _ h ∙ sym address in
            subst (λ (a : ℕ). FreesRun a count v (free_pages p (top * 4096) a count v)) same
              (rw
                (free_pages-with_pages (page_of virtual_address) count v
                  (ap (λ (a : ℕ). refused a count) same ∙ e))
                (with_pages_lem (page_of virtual_address) count v h (ground arith) (ground arith)
                  virtual))
      ]

  allocated-IsMarkedRun :
      (count first : ℕ) (v : VirtualMemory) (r : ℕ × VirtualMemory)
      → IsRunAllocated p top count v r first
      → IsMarkedRun r.1 r.0 count first
  allocated-IsMarkedRun count first v r run = record {
    address = run.address;
    positive = run.positive;
    in_range = run.run.in_range;
    marked = λ q low high. ground (arith, run.filled.marks q);
  }

  -- The pages that a call gave are freed again.
  pub free_pages-IsRunAllocated :
      (count first : ℕ) (v : VirtualMemory) (r : ℕ × VirtualMemory)
      → IsVirtual p top v
      → IsRunAllocated p top count v r first
      → let r' = free_pages p (top * 4096) r.0 count r.1 in (r'.0 ≡ true) × IsRestored p top v r'.1
  free_pages-IsRunAllocated count first v r virtual run =
      elim (free_pages_lem r.0 count r.1 run.filled.virtual) [
        | inr (e, same, none_there) ↦
            absurd (none_there first (allocated-IsMarkedRun count first v r run))
        | inl (q, run', done, cleared) ↦ (
          done,
          cleared-filled p top first count v _ _ run.run.in_range virtual run.run.free run.filled (
              subst
                (λ (k : ℕ). IsCleared p top k count r.1 (free_pages p (top * 4096) r.0 count r.1).1)
                (sym (same_first r.0 count first q r.1 run.address run')) cleared),
        )
      ]

  -- `free_pages` takes back what `allocate_pages` gave: it returns true, and the marked pages and all
  -- translations are those of before.
  pub free_pages-allocate_pages :
      (count : ℕ) (v : VirtualMemory)
      → IsVirtual p top v
      → let (address, v') = allocate_pages p (top * 4096) count v in
        address ≢ 0
        → let r = free_pages p (top * 4096) address count v' in
          (r.0 ≡ true) × IsRestored p top v r.1
  free_pages-allocate_pages count v virtual nonzero =
      elim (allocate_pages_lem p top count v virtual) [
        | inr (failed, restored) ↦ absurd (nonzero failed)
        | inl (first, run) ↦
            free_pages-IsRunAllocated count first v (allocate_pages p (top * 4096) count v) virtual
              run
      ]
