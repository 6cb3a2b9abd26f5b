-- ===== src/Mmu/Grow.antt =====
-- `get_or_create_level2_table` and `get_or_create_level3_table` of kernel/memory/mmu.cpp: they find
-- the table behind an entry or put a new one there, and no translation changes.
use planetoid_os.Base.{
  ℕ, ◌*◌, ◌/◌, ◌%◌, ◌^◌, ◌<◌, ◌≡◌, ◌≢◌, refl, sym, ap, ◌∙◌, ◌⊎◌, inl, inr, true, false, ◌&&◌, some,
  arith, bit_and, ◌==◌, if◌then◌else◌, ==→eq, ==→ne, ne→==, Bool-cases, update_self, update-ne,
}
use planetoid_os.Descriptor.{get_level1_index, get_level2_index}
use planetoid_os.Descriptor.Fields.{level1-lt, level2-lt}
use planetoid_os.PhysicalMemory.{Platform, PhysicalMemory, allocate_frame}
use planetoid_os.PhysicalMemory.Allocate.{
  available, NoneAvailable, IsAllocation, allocate_frame_lem,
}
use planetoid_os.Mmu.{
  Mmu, allocate_page_table, create_table, get_or_create_level2_table, get_or_create_level3_table,
}
use planetoid_os.Mmu.Tree.{
  Role, other, level2, child, inner, target, is_table, entry_at, IsMmu, next, leaf, target-page,
}
use planetoid_os.Mmu.Create.{
  grown, adopt, grown-IsTree, leaf-grown, next_self, next-other, next-empty,
}

-- From `s` the call reached `r.1`, and `r.0` is the table behind entry `j` of page `t`. `roles` are
-- the roles of the pages afterwards.
pub record IsGrowth (p : Platform) (top : ℕ) (owner : ℕ → Role) (s : Mmu) (t j : ℕ) (r : ℕ × Mmu)
    : Type 0 where
  pub roles : ℕ → Role
  pub mmu : IsMmu p top roles r.1
  pub page : r.0 / 4096 * 4096 ≡ r.0
  pub nonzero : r.0 ≢ 0
  pub role : roles (r.0 / 4096) ≡ child (owner t) j
  pub leads : next r.1.memory t j ≡ some (r.0 / 4096)
  pub keeps_roles : (u : ℕ) → owner u ≢ other → roles u ≡ owner u
  pub keeps_tables :
      (u k v : ℕ)
      → owner u ≢ other
      → k < 512
      → next s.memory u k ≡ some v
      → next r.1.memory u k ≡ some v
  pub same_leaves :
      (i k l : ℕ)
      → i < 512
      → k < 512
      → l < 512
      → leaf r.1.memory top i k l ≡ leaf s.memory top i k l
  pub same_maintenance : r.1.maintenance ≡ s.maintenance
  pub only_takes : (b : ℕ) → available p r.1.physical b ≡ true → available p s.physical b ≡ true
  pub keeps_others :
      (u : ℕ) → owner u ≡ other → available p s.physical (u * 4096) ≡ false → roles u ≡ other
  pub same_count : r.1.physical.frame_count ≡ s.physical.frame_count

-- Why there is no table behind entry `j` of page `t`: no frame is free, or a block stands there.
abbrev pub Refused : Platform → Mmu → (t j : ℕ) → Type 0
Refused p s t j =
    NoneAvailable p s.physical
    ⊎ ((entry_at s.memory t j ≢ 0) × (bit_and (entry_at s.memory t j) 0b11 ≢ 0b11))

-- What a call that finds or creates a table may do.
abbrev pub Grows : Platform → ℕ → (ℕ → Role) → Mmu → (t j : ℕ) → ℕ × Mmu → Type 0
Grows p top owner s t j r = ((r.0 ≡ 0) × (r.1 ≡ s) × Refused p s t j) ⊎ IsGrowth p top owner s t j r

available-aligned :
    (p : Platform) (m : PhysicalMemory) (a : ℕ) → available p m a ≡ true → a % 4096 ≡ 0
available-aligned p m a h = ground arith

module _ (p : Platform) (top : ℕ) (owner : ℕ → Role) (s : Mmu) (mmu : IsMmu p top owner s) (t j : ℕ)
    (is_inner : inner (owner t) ≡ true) (in_table : j < 512) where
  found-IsGrowth :
      entry_at s.memory t j ≢ 0
      → is_table (entry_at s.memory t j) ≡ true
      → IsGrowth p top owner s t j (target (entry_at s.memory t j), s)
  unfolding next
  found-IsGrowth nonzero table = record {
    roles = owner;
    mmu = mmu;
    page = target-page (entry_at s.memory t j);
    nonzero = (mmu.tree.linked t j is_inner in_table nonzero table).1;
    role = (mmu.tree.linked t j is_inner in_table nonzero table).0;
    leads = ground arith;
    keeps_roles = λ u known. refl;
    keeps_tables = λ u k v known h e. e;
    same_leaves = λ i k l hi hk hl. refl;
    same_maintenance = refl;
    only_takes = λ b h. h;
    keeps_others = λ u h unavailable. h;
    same_count = refl;
  }

  module _ (empty : entry_at s.memory t j ≡ 0) (r : ℕ × PhysicalMemory) (nonzero : r.0 ≢ 0)
      (taken : IsAllocation p s.physical r) where
    frame-page : (r.0 % 4096 ≡ 0) × (r.0 < 2 ^ 48)
    frame-page = ground (arith, taken.was_free, mmu.addressable)

    frame-role : owner (r.0 / 4096) ≡ other
    frame-role = mmu.free_frames r.0 taken.was_free

    frame-old : (u : ℕ) → owner u ≢ other → u ≢ r.0 / 4096
    frame-old u known e = known (ap owner e ∙ frame-role)

    frame-unavailable : (u : ℕ) → available p s.physical (u * 4096) ≡ false → r.0 / 4096 ≢ u
    frame-unavailable u unavailable e =
        let here : r.0 ≡ u * 4096 = omega (arith, frame-page) in
        let free = rw here at taken.was_free in cc

    still-other : (a : ℕ) → available p r.1 a ≡ true → adopt owner r.0 t j (a / 4096) ≡ other
    still-other a free =
        let was_free : available p s.physical a ≡ true = ground (arith, taken.now_taken a) in
        let different : r.0 ≢ a = ground (arith, taken.now_taken a) in
        update-ne owner (r.0 / 4096) _ (a / 4096)
          (omega (arith, frame-page, available-aligned p s.physical a was_free))
        ∙ mmu.free_frames a was_free

    kept-table :
        (u k v : ℕ)
        → owner u ≢ other
        → k < 512
        → next s.memory u k ≡ some v
        → next (grown s.memory r.0 t j) u k ≡ some v
    kept-table u k v known h e = elim (Bool-cases (u == t && k == j)) [
      | inl here ↦
          let same_page : u ≡ t = ground arith in
          let same_entry : k ≡ j = ground arith in
          let stop =
            next-empty mmu.tree r.0 t j frame-page.0 nonzero frame-page.1 frame-role is_inner
              in_table empty in
          let goes_on = rw (same_page, same_entry) at e in cc
      | inr elsewhere ↦
          next-other mmu.tree r.0 t j frame-page.0 nonzero frame-page.1 frame-role is_inner in_table
            empty u k h (frame-old u known) elsewhere
          ∙ e
    ]

    created-IsGrowth :
        IsGrowth p top owner s t j
          (r.0, record s { memory = grown s.memory r.0 t j; physical = r.1 })
    created-IsGrowth = record {
      roles = adopt owner r.0 t j;
      mmu = record {
        tree =
            grown-IsTree mmu.tree r.0 t j frame-page.0 nonzero frame-page.1 frame-role is_inner
              in_table empty;
        allocator = taken.kept;
        addressable = rw taken.same_count mmu.addressable;
        free_frames = λ a free. still-other a free;
      };
      page = omega (arith, frame-page);
      nonzero = nonzero;
      role = update_self owner (r.0 / 4096) _;
      leads =
          next_self mmu.tree r.0 t j frame-page.0 nonzero frame-page.1 frame-role is_inner in_table
            empty;
      keeps_roles = λ u known. update-ne owner (r.0 / 4096) _ u (λ e. frame-old u known (sym e));
      keeps_tables = λ u k v known h e. kept-table u k v known h e;
      same_leaves =
          leaf-grown mmu.tree r.0 t j frame-page.0 nonzero frame-page.1 frame-role is_inner in_table
            empty;
      same_maintenance = refl;
      only_takes = λ b free. ground (arith, taken.now_taken b);
      keeps_others =
          λ u h unavailable. update-ne owner (r.0 / 4096) _ u (frame-unavailable u unavailable) ∙ h;
      same_count = taken.same_count;
    }

  create_table-lem : create_table p (t * 4096) j s ≡ (
      let r = allocate_frame p s.physical in
      if r.0 == 0
      then (0, record s { physical = r.1 })
      else (r.0, record s { memory = grown s.memory r.0 t j; physical = r.1 }))
  unfolding create_table allocate_page_table
  create_table-lem = ground arith

  create_table-Grows :
      entry_at s.memory t j ≡ 0 → Grows p top owner s t j (create_table p (t * 4096) j s)
  create_table-Grows empty =
      rw create_table-lem (elim (allocate_frame_lem p s.physical mmu.allocator) [
        | inl (nonzero, taken) ↦
            rw (ne→== (allocate_frame p s.physical).0 0 nonzero)
              (inr (created-IsGrowth empty (allocate_frame p s.physical) nonzero taken))
        | inr (none_free, e) ↦ rw e (inl (refl, refl, inl none_free))
      ])

module _ (p : Platform) (top : ℕ) (owner : ℕ → Role) (s : Mmu) (mmu : IsMmu p top owner s)
    (va : ℕ) where
  -- The level 2 table that `va` needs is there, or there is no frame for it and nothing changed.
  pub get_or_create_level2_table-Grows :
      Grows p top owner s top (get_level1_index va) (get_or_create_level2_table p (top * 4096) va s)
  unfolding get_or_create_level2_table
  get_or_create_level2_table-Grows =
      elim (Bool-cases (entry_at s.memory top (get_level1_index va) == 0)) [
        | inl empty ↦ rw empty (
            create_table-Grows p top owner s mmu top (get_level1_index va)
              (rw mmu.tree.top_owner refl) (level1-lt va) (==→eq _ 0 empty))
        | inr full ↦ rw full (
            inr (
              found-IsGrowth p top owner s mmu top (get_level1_index va)
                (rw mmu.tree.top_owner refl) (level1-lt va) (==→ne _ 0 full)
                (mmu.tree.top_tables (get_level1_index va) (level1-lt va) (==→ne _ 0 full))))
      ]

  -- The same of the level 3 table behind a level 2 table; it also fails at a block.
  pub get_or_create_level3_table-Grows :
      (t i : ℕ)
      → owner t ≡ level2 i
      → Grows p top owner s t
          (get_level2_index va)
          (get_or_create_level3_table p (top * 4096) (t * 4096) va s)
  unfolding get_or_create_level3_table
  get_or_create_level3_table-Grows t i role =
      elim (Bool-cases (entry_at s.memory t (get_level2_index va) == 0)) [
        | inl empty ↦ rw empty (
            create_table-Grows p top owner s mmu t (get_level2_index va) (rw role refl)
              (level2-lt va) (==→eq _ 0 empty))
        | inr full ↦
            rw full (elim (Bool-cases (is_table (entry_at s.memory t (get_level2_index va)))) [
              | inl table ↦ rw table (
                  inr (
                    found-IsGrowth p top owner s mmu t (get_level2_index va) (rw role refl)
                      (level2-lt va) (==→ne _ 0 full) table))
              | inr block ↦ rw block (inl (refl, refl, inr (==→ne _ 0 full, ==→ne _ 0b11 block)))
            ])
      ]
