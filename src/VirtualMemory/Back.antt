-- ===== src/VirtualMemory/Back.antt =====
-- The backing of a page by a frame in kernel/memory/virtual_memory.cpp.
use planetoid_os.Base.{
  ℕ, ◌+◌, ◌*◌, ◌/◌, ◌%◌, ◌^◌, ◌<◌, ◌≡◌, ◌≢◌, refl, sym, ap, ◌∙◌, ◌⊎◌, inl, inr, Bool, true, false,
  ◌&&◌, arith, ◌==◌, if◌then◌else◌, ne→==, Bool-cases,
}
use planetoid_os.Bitmap.{set_frame_used}
use planetoid_os.PhysicalMemory.{Platform, allocate_frame, free_frame}
use planetoid_os.PhysicalMemory.Allocate.{IsAllocation, managed, available, allocate_frame_lem}
use planetoid_os.PhysicalMemory.Free.{
  free_frame-available, free_frame-IsWellFormed, free_frame-count,
}
use planetoid_os.Mmu.{Mmu, normal}
use planetoid_os.Mmu.Tree.{Role, other, IsMmu}
use planetoid_os.Mmu.Entry.{address_of, same_page, IsKept}
use planetoid_os.Mmu.Map.{map_page_lem}
use planetoid_os.VirtualMemory.{VirtualMemory, page_address, back_page}

-- The page translates to a frame that was free, every other address as before, and the page is marked.
-- The frame is in use now and holds no table.
pub record IsBacked (p : Platform) (top page : ℕ) (owner : ℕ → Role) (v v' : VirtualMemory)
    : Type 0 where
  pub frame : ℕ
  pub was_free : available p v.mmu.physical frame ≡ true
  pub nonzero : frame ≢ 0
  pub kept : IsKept p top owner v.mmu v'.mmu
  pub now_used : available p v'.mmu.physical frame ≡ false
  pub no_table : kept.roles (frame / 4096) ≡ other
  pub translated :
      (vb : ℕ)
      → address_of top v'.mmu vb
        ≡ (if same_page (page_address page) vb then frame + vb % 4096 else address_of top v.mmu vb)
  pub marked : v'.virtual_bitmap ≡ set_frame_used v.virtual_bitmap page

-- No page is marked, no translation changed, and the tables are a tree.
pub record IsUnbacked (p : Platform) (top : ℕ) (owner : ℕ → Role) (v v' : VirtualMemory)
    : Type 0 where
  pub kept : IsKept p top owner v.mmu v'.mmu
  pub translated : (vb : ℕ) → address_of top v'.mmu vb ≡ address_of top v.mmu vb
  pub unmarked : v'.virtual_bitmap ≡ v.virtual_bitmap

abbrev pub Backs :
    Platform → (top page : ℕ) → (ℕ → Role) → VirtualMemory → Bool × VirtualMemory → Type 0
Backs p top page owner v r =
    ((r.0 ≡ true) × IsBacked p top page owner v r.1)
    ⊎ ((r.0 ≡ false) × IsUnbacked p top owner v r.1)

-- The state is its own successor.
pub IsKept-refl :
    {p : Platform} {top : ℕ} {owner : ℕ → Role} {s : Mmu}
    → IsMmu p top owner s
    → IsKept p top owner s s
IsKept-refl {owner} mmu = record {
  roles = owner;
  mmu = mmu;
  only_takes = λ b h. h;
  keeps_others = λ u h unavailable. h;
  same_count = refl;
}

pub IsUnbacked-refl :
    {p : Platform} {top : ℕ} {owner : ℕ → Role} {v : VirtualMemory}
    → IsMmu p top owner v.mmu
    → IsUnbacked p top owner v v
IsUnbacked-refl mmu = record { kept = IsKept-refl mmu; translated = λ vb. refl; unmarked = refl }

-- Giving back a frame that holds no table keeps the tables well-formed.
pub give_back-IsMmu :
    (p : Platform) (top : ℕ) (owner : ℕ → Role) (s : Mmu) (a : ℕ)
    → IsMmu p top owner s
    → a ≢ 0
    → a < 2 ^ 64
    → owner (a / 4096) ≡ other
    → IsMmu p top owner (record s { physical = free_frame p a s.physical })
give_back-IsMmu p top owner s a mmu nonzero small no_table = record {
  tree = mmu.tree;
  allocator = free_frame-IsWellFormed p s.physical mmu.allocator a nonzero small;
  addressable = rw (free_frame-count p s.physical mmu.allocator a) mmu.addressable;
  free_frames = λ b free. elim (Bool-cases (managed p s.physical a && (a == b))) [
    | inl given ↦
        let same : a ≡ b = ground arith in ap (λ (f : ℕ). owner (f / 4096)) (sym same) ∙ no_table
    | inr kept ↦
        mmu.free_frames b
          (ground (arith, free_frame-available p s.physical mmu.allocator a b small))
  ];
}

module _ (p : Platform) (top : ℕ) (owner : ℕ → Role) (s : Mmu) (mmu : IsMmu p top owner s)
    (taken : IsAllocation p s.physical (allocate_frame p s.physical)) where
  -- The state once the frame is taken.
  abbrev pub frame_taken : Mmu
  frame_taken = record s { physical = (allocate_frame p s.physical).1 }

  pub frame_taken-IsMmu : IsMmu p top owner frame_taken
  frame_taken-IsMmu = record {
    tree = mmu.tree;
    allocator = taken.kept;
    addressable = ground (arith, mmu.addressable, taken.same_count);
    free_frames = λ a free. mmu.free_frames a (ground (arith, taken.now_taken a));
  }

  -- The frame is in use now, and no other frame is.
  taken-page : (allocate_frame p s.physical).0 / 4096 * 4096 ≡ (allocate_frame p s.physical).0
  taken-page = ground (arith, taken.was_free)

  taken-unavailable :
      available p frame_taken.physical ((allocate_frame p s.physical).0 / 4096 * 4096) ≡ false
  taken-unavailable =
      rw taken-page (ground (arith, taken.now_taken (allocate_frame p s.physical).0))

  -- What `map_page` does next, seen from the state before the frame was taken.
  pub taken-IsKept : {s' : Mmu} → IsKept p top owner frame_taken s' → IsKept p top owner s s'
  taken-IsKept kept = record {
    roles = kept.roles;
    mmu = kept.mmu;
    only_takes = λ b h. ground (arith, kept.only_takes b h, taken.now_taken b);
    keeps_others =
        λ u h unavailable. kept.keeps_others u h (ground (arith, taken.now_taken (u * 4096)));
    same_count = kept.same_count ∙ taken.same_count;
  }

  pub taken-no_table :
      {s' : Mmu} (kept : IsKept p top owner frame_taken s')
      → kept.roles ((allocate_frame p s.physical).0 / 4096) ≡ other
  taken-no_table kept = kept.keeps_others _ (mmu.free_frames _ taken.was_free) taken-unavailable

  pub taken-now_used :
      {s' : Mmu}
      → IsKept p top owner frame_taken s'
      → available p s'.physical (allocate_frame p s.physical).0 ≡ false
  taken-now_used kept = ground (
    arith,
    kept.only_takes (allocate_frame p s.physical).0,
    taken.now_taken (allocate_frame p s.physical).0,
  )

  pub frame-lt : (allocate_frame p s.physical).0 < 2 ^ 48
  frame-lt = ground (arith, taken.was_free, mmu.addressable)

  -- The state once `map_page` has failed and the frame is given back.
  pub returned-IsKept :
      {s' : Mmu}
      → (allocate_frame p s.physical).0 ≢ 0
      → IsKept p top owner frame_taken s'
      → IsKept p top owner s
          (record s' { physical = free_frame p (allocate_frame p s.physical).0 s'.physical })
  unfolding taken-IsKept
  returned-IsKept {s'} nonzero kept = record {
    roles = kept.roles;
    mmu =
        give_back-IsMmu p top kept.roles s' (allocate_frame p s.physical).0 kept.mmu nonzero
          (omega (arith, frame-lt)) (taken-no_table kept);
    only_takes = λ b h. ground (
      arith,
      taken.was_free,
      (taken-IsKept kept).only_takes b,
      free_frame-available p s'.physical kept.mmu.allocator (allocate_frame p s.physical).0 b
          (omega (arith, frame-lt)),
    );
    keeps_others = (taken-IsKept kept).keeps_others;
    same_count =
        free_frame-count p s'.physical kept.mmu.allocator (allocate_frame p s.physical).0
        ∙ (taken-IsKept kept).same_count;
  }

-- Backing a page on well-formed tables either succeeds, or marks nothing, changes no translation and
-- keeps the tables well-formed.
pub back_page_lem :
    (p : Platform) (top page : ℕ) (owner : ℕ → Role) (v : VirtualMemory)
    → IsMmu p top owner v.mmu
    → Backs p top page owner v (back_page p (top * 4096) page v)
unfolding back_page taken-IsKept
back_page_lem p top page owner v mmu = elim (allocate_frame_lem p v.mmu.physical mmu.allocator) [
  | inr (none_free, e) ↦ rw e (inr (refl, IsUnbacked-refl mmu))
  | inl (nonzero, taken) ↦
      rw (ne→== (allocate_frame p v.mmu.physical).0 0 nonzero)
        (elim (map_page_lem p top (page_address page) (allocate_frame p v.mmu.physical).0 (2 ^ 53)
          normal refl (frame-lt p top owner v.mmu mmu taken)
          (frame_taken p top owner v.mmu mmu taken) owner
          (frame_taken-IsMmu p top owner v.mmu mmu taken)) [
            | inl (e, m) ↦ rw e (
                inl (
                  refl,
                  record {
                    frame = (allocate_frame p v.mmu.physical).0;
                    was_free = taken.was_free;
                    nonzero = nonzero;
                    kept = taken-IsKept p top owner v.mmu mmu taken m.kept;
                    now_used = taken-now_used p top owner v.mmu mmu taken m.kept;
                    no_table = taken-no_table p top owner v.mmu mmu taken m.kept;
                    translated = m.translated;
                    marked = refl;
                  },
                ))
            | inr (e, m) ↦ rw e (
                inr (
                  refl,
                  record {
                    kept = returned-IsKept p top owner v.mmu mmu taken nonzero m.kept;
                    translated = m.translated;
                    unmarked = refl;
                  },
                ))
          ])
]
