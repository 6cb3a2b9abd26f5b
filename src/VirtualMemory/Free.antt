-- ===== src/VirtualMemory/Free.antt =====
-- `free_page` of kernel/memory/virtual_memory.cpp.
use planetoid_os.Base.{
  ℕ, ◌*◌, ◌≡◌, ◌≢◌, refl, ◌⊎◌, inl, inr, true, false, ◌==◌, if◌then◌else◌, ==→ne, Bool-cases,
}
use planetoid_os.Bitmap.{is_frame_used, set_frame_free}
use planetoid_os.PhysicalMemory.{Platform, free_frame}
use planetoid_os.Mmu.{Mmu, unmap_page}
use planetoid_os.Mmu.Tree.{Role, IsMmu}
use planetoid_os.Mmu.Entry.{address_of, same_page, IsKept}
use planetoid_os.Mmu.Unmap.{unmap_page_lem}
use planetoid_os.VirtualMemory.{VirtualMemory, out_of_range, page_of, free_page}

-- The page of `va` was in use and mapped. Now it is neither, its frame is given back, and every
-- other address translates as before. `left` is the state before the frame is given back, with
-- the tables well-formed.
pub record IsReleased (p : Platform) (top va : ℕ) (owner : ℕ → Role) (v v' : VirtualMemory)
    : Type 0 where
  pub was_used : is_frame_used v.virtual_bitmap (page_of va) ≡ true
  pub was_mapped : address_of top v.mmu va ≢ 0
  pub translated :
      (vb : ℕ) → address_of top v'.mmu vb ≡ (if same_page va vb then 0 else address_of top v.mmu vb)
  pub unmarked : v'.virtual_bitmap ≡ set_frame_free v.virtual_bitmap (page_of va)
  pub left : Mmu
  pub kept : IsKept p top owner v.mmu left
  pub same_physical : left.physical ≡ v.mmu.physical
  pub given_back :
      v'.mmu ≡ record left { physical = free_frame p (address_of top v.mmu va) left.physical }

pub free_page_lem :
    (p : Platform) (top va : ℕ) (owner : ℕ → Role) (v : VirtualMemory)
    → IsMmu p top owner v.mmu
    → let r = free_page p (top * 4096) va v in
      ((r.0 ≡ true) × (out_of_range va ≡ false) × IsReleased p top va owner v r.1)
      ⊎ ((r.0 ≡ false) × (r.1 ≡ v))
unfolding free_page
free_page_lem p top va owner v mmu = elim (Bool-cases (out_of_range va)) [
  | inl outside ↦ rw outside (inr (refl, refl))
  | inr inside ↦ rw inside (elim (Bool-cases (is_frame_used v.virtual_bitmap (page_of va))) [
    | inr unused ↦ rw unused (inr (refl, refl))
    | inl used ↦ rw used (elim (Bool-cases (address_of top v.mmu va == 0)) [
      | inl unmapped ↦ rw unmapped (inr (refl, refl))
      | inr mapped ↦ rw mapped (elim (unmap_page_lem p top v.mmu owner va mmu) [
        | inr (e, same, reason) ↦ rw (e, same) (inr (refl, refl))
        | inl (e, m) ↦ rw e (
            inl (
              refl,
              refl,
              record {
                was_used = used;
                was_mapped = ==→ne _ 0 mapped;
                translated = m.translated;
                unmarked = refl;
                left = (unmap_page (top * 4096) va v.mmu).1;
                kept = m.kept;
                same_physical = m.same_physical;
                given_back = refl;
              },
            ))
      ])
    ])
  ])
]
