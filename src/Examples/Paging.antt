-- ===== src/Examples/Paging.antt =====
-- A machine of eight frames whose fourth holds an empty level 1 table, for kernel/memory/mmu.cpp.
use planetoid_os.Base.{ℕ, ◌*◌, ◌≡◌, refl, inl, inr, true, [], arith, ◌==◌, if◌then◌else◌}
use planetoid_os.Bitmap.{is_frame_used}
use planetoid_os.Mmu.{Mmu, normal, map_page, unmap_page}
use planetoid_os.Mmu.Tree.{Role, root, other, IsMmu}
use planetoid_os.Mmu.Entry.{IsKept}
use planetoid_os.Mmu.Map.{Maps, map_page_lem}
use planetoid_os.Mmu.Unmap.{Unmaps, unmap_page_lem}
use planetoid_os.Examples.Frames.{virt, few, few-IsWellFormed}

abbrev pub empty_tables : Mmu
empty_tables = record { memory = λ a. 0; physical = few; maintenance = [] }

abbrev pub top : ℕ
top = 0x40003

abbrev pub roles : ℕ → Role
roles page = if page == top then root else other

frame_three : is_frame_used few.bitmap 3 ≡ true
unfolding is_frame_used
frame_three = refl

pub empty-IsMmu : IsMmu virt top roles empty_tables
empty-IsMmu = record {
  tree = record {
    top_owner = refl;
    top_tables = λ j h ne. absurd (ne refl);
    linked = λ t j is_inner h ne. absurd (ne refl);
  };
  allocator = few-IsWellFormed;
  addressable = omega arith;
  free_frames = λ a h. ground (arith, frame_three);
}

map_page_lem_example :
    Maps virt top roles empty_tables 0x80000000 0x90000000
      (map_page virt (top * 4096) 0x80000000 0x90000000 normal 0 empty_tables)
map_page_lem_example =
    map_page_lem virt top 0x80000000 0x90000000 0 normal refl (omega arith) empty_tables roles
      empty-IsMmu

-- The state after that call.
abbrev pub one_page : Mmu
one_page = (map_page virt (top * 4096) 0x80000000 0x90000000 normal 0 empty_tables).1

pub one_page-IsKept : IsKept virt top roles empty_tables one_page
one_page-IsKept = elim map_page_lem_example [ inl (_, m) ↦ m.kept | inr (_, m) ↦ m.kept ]

unmap_page_lem_example :
    Unmaps virt top one_page-IsKept.roles one_page 0x80000000
      (unmap_page (top * 4096) 0x80000000 one_page)
unmap_page_lem_example =
    unmap_page_lem virt top one_page one_page-IsKept.roles 0x80000000 one_page-IsKept.mmu
