-- ===== src/VirtualMemory/Pages.antt =====
-- The addresses of the pages of kernel/memory/virtual_memory.cpp, and which page an address lies on.
use planetoid_os.Base.{
  ℕ, zero, suc, ◌+◌, ◌*◌, ◌%◌, ◌≤◌, ◌<◌, ◌≡◌, ◌≢◌, ap, ◌∙◌, inl, inr, Bool, true, false, ◌&&◌, ◌||◌,
  arith, ltb, leb, ◌==◌, ==→eq, ==→ne, Bool-cases,
}
use planetoid_os.Descriptor.Fields.{page_of_indices}
use planetoid_os.Mmu.Entry.{same_page}
use planetoid_os.VirtualMemory.{page_address}

-- The address lies on one of the `count` pages from `first` on.
unfoldable pub on_run : (first count : ℕ) → ℕ → Bool
on_run first zero vb = false
on_run first (suc count) vb = same_page (page_address first) vb || on_run (first + 1) count vb

abbrev pub in_run : (first count : ℕ) → ℕ → Bool
in_run first count page = leb first page && ltb page (first + count)

pub page_address_lem : (page : ℕ) → page < 4096 → page_address page ≡ 0x80000000 + page * 4096
page_address_lem page h = omega arith

pub same_page_self : (va : ℕ) → same_page va va ≡ true
same_page_self va = ground arith

-- No address lies on two pages.
pub same_page_unique :
    (page q vb : ℕ)
    → page < 4096
    → q < 4096
    → same_page (page_address page) vb ≡ true
    → same_page (page_address q) vb ≡ true
    → page ≡ q
same_page_unique page q vb h h' e e' =
    let here = page_of_indices (page_address page) (omega arith) in
    let there = page_of_indices (page_address q) (omega arith) in ground arith

pub same_page-page_address :
    (page q : ℕ)
    → page < 4096
    → q < 4096
    → same_page (page_address page) (page_address q) ≡ (page == q)
same_page-page_address page q h h' = elim (Bool-cases (page == q)) [
  | inl same ↦ rw (==→eq page q same) (same_page_self (page_address q) ∙ ground arith)
  | inr differ ↦ elim (Bool-cases (same_page (page_address page) (page_address q))) [
    | inl e ↦ absurd (
        ==→ne page q differ
          (same_page_unique page q (page_address q) h h' e (same_page_self (page_address q))))
    | inr e ↦ rw (e, differ)
  ]
]

-- An address on page `q` lies on a run exactly when `q` does.
pub on_run-in_run :
    (first count q vb : ℕ)
    → first + count ≤ 4096
    → q < 4096
    → same_page (page_address q) vb ≡ true
    → on_run first count vb ≡ in_run first count q
unfolding on_run
on_run-in_run first zero q vb h hq e = ground arith
on_run-in_run first (suc count) q vb h hq e =
    rw (on_run-in_run (first + 1) count q vb (omega arith) hq e)
      (elim (Bool-cases (same_page (page_address first) vb)) [
        | inl here ↦
            let same = same_page_unique first q vb (omega arith) hq here e in rw here (ground arith)
        | inr elsewhere ↦
            let differ : first ≢ q =
              λ (same : first ≡ q). cc (ap (λ (k : ℕ). same_page (page_address k) vb) same) in
            rw elsewhere (ground arith)
      ])

-- An address on a run lies on a page of it.
pub on_run-page :
    (first count vb : ℕ)
    → on_run first count vb ≡ true
    → (q : ℕ) × (first ≤ q) × (q < first + count) × (same_page (page_address q) vb ≡ true)
unfolding on_run
on_run-page first zero vb e = cc
on_run-page first (suc count) vb e = elim (Bool-cases (same_page (page_address first) vb)) [
  | inl here ↦ (first, omega arith, omega arith, here)
  | inr elsewhere ↦
      let (q, low, high, on) = on_run-page (first + 1) count vb (rw elsewhere at e) in
      (q, omega arith, omega arith, on)
]

pub page_address-aligned : (page : ℕ) → page < 4096 → page_address page % 4096 ≡ 0
page_address-aligned page h = omega arith
