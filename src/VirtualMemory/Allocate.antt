-- ===== src/VirtualMemory/Allocate.antt =====
-- `allocate_page` of kernel/memory/virtual_memory.cpp.
use planetoid_os.Base.{
  ℕ, zero, suc, ◌+◌, ◌*◌, ◌≤◌, ◌<◌, ◌≡◌, refl, ◌⊎◌, inl, inr, true, false, arith, ◌==◌, ==→eq,
  ==→ne, ne→==, Bool-cases,
}
use planetoid_os.Bitmap.{Bitmap, is_frame_used}
use planetoid_os.PhysicalMemory.{Platform}
use planetoid_os.Mmu.Tree.{Role, IsMmu}
use planetoid_os.VirtualMemory.{VirtualMemory, find_free_from, find_free_page, allocate_page}
use planetoid_os.VirtualMemory.Back.{IsBacked, IsUnbacked, IsUnbacked-refl, back_page_lem}

-- The lowest page from `page` on that is not marked.
record IsFree (bitmap : Bitmap) (page found : ℕ) : Type 0 where
  in_range : found < 4096
  unmarked : is_frame_used bitmap found ≡ false
  lowest : (q : ℕ) → page ≤ q → q < found → is_frame_used bitmap q ≡ true

find_free_from-cases :
    (left page : ℕ) (bitmap : Bitmap)
    → page + left ≡ 4096
    → (find_free_from left page bitmap ≡ 4096)
      ⊎ IsFree bitmap page (find_free_from left page bitmap)
unfolding find_free_from
find_free_from-cases zero page bitmap e = inl refl
find_free_from-cases (suc left) page bitmap e = elim (Bool-cases (is_frame_used bitmap page)) [
  | inl used ↦ rw used (elim (find_free_from-cases left (page + 1) bitmap (omega arith)) [
    | inl none_free ↦ inl none_free
    | inr f ↦ inr (record {
      in_range = f.in_range;
      unmarked = f.unmarked;
      lowest = λ q h below. elim (Bool-cases (q == page)) [
        | inl same ↦ rw (==→eq q page same) used
        | inr later ↦ f.lowest q (omega (arith, ==→ne q page later)) below
      ];
    })
  ])
  | inr free ↦ rw free (
      inr (record {
        in_range = omega arith;
        unmarked = free;
        lowest = λ q h below. absurd (omega arith);
      }))
]

-- `allocate_page` on well-formed tables either returns the address of a page of its range that was
-- not marked, and this page is backed by a frame that was free and marked, every other translation
-- as before; or it returns 0, marks nothing and changes no translation. The tables stay well-formed.
pub allocate_page_lem :
    (p : Platform) (top : ℕ) (owner : ℕ → Role) (v : VirtualMemory)
    → IsMmu p top owner v.mmu
    → let r = allocate_page p (top * 4096) v in
      ((page : ℕ) × (page < 4096)
        × (r.0 ≡ 0x80000000 + page * 4096)
        × (is_frame_used v.virtual_bitmap page ≡ false)
        × IsBacked p top page owner v r.1)
      ⊎ ((r.0 ≡ 0) × IsUnbacked p top owner v r.1)
unfolding allocate_page
allocate_page_lem p top owner v mmu = elim (find_free_from-cases 4096 0 v.virtual_bitmap refl) [
  | inl none_free ↦ rw none_free (inr (refl, IsUnbacked-refl mmu))
  | inr f ↦
      let page = find_free_page v.virtual_bitmap in
      rw (ne→== page 4096 (λ e. absurd (omega (arith, f.in_range))))
        (elim (back_page_lem p top page owner v mmu) [
          | inl (e, backed) ↦
              rw e (inl (page, f.in_range, omega (arith, f.in_range), f.unmarked, backed))
          | inr (e, unbacked) ↦ rw e (inr (refl, unbacked))
        ])
]
