-- ===== src/Mmu/Entry.antt =====
-- The last step of `map_page` of kernel/memory/mmu.cpp against `get_physical_address`.
use planetoid_os.Base.{
  ℕ, ◌+◌, ◌*◌, ◌%◌, ◌^◌, ◌<◌, ◌≡◌, ◌≢◌, refl, sym, ap, ◌∙◌, ◌⊎◌, inl, inr, Bool, true, false, ◌&&◌,
  some, List, ◌∷◌, arith, bit_and, ◌==◌, if◌then◌else◌, Bool-cases, ◌>>◌,
}
use planetoid_os.Base.Bits.{zero-bit_and}
use planetoid_os.Descriptor.{
  make_normal_page_descriptor, make_device_page_descriptor, get_level1_index, get_level2_index,
  get_level3_index,
}
use planetoid_os.Descriptor.Fields.{
  IsPermissions, masked_page, normal_page-address, device_page-address, normal_page-type,
  device_page-type, level1-lt, level2-lt, level3-lt, low_twelve,
}
use planetoid_os.PhysicalMemory.{Platform}
use planetoid_os.PhysicalMemory.Allocate.{available, NoneAvailable}
use planetoid_os.Mmu.{
  Mmu, MemoryType, normal, device, Maintenance, data_barrier, instruction_barrier, invalidate_page,
  get_physical_address, map_entry, synchronise,
}
use planetoid_os.Mmu.Tree.{
  Role, other, level3, entry_at, IsMmu, next, walk, leaf, resolve, get_physical_address-leaf,
}
use planetoid_os.Mmu.Leaf.{written, written-IsTree, leaf-written}

-- The physical address that `va` translates to, 0 if none.
abbrev pub address_of : (top : ℕ) → Mmu → ℕ → ℕ
address_of top s va = get_physical_address (top * 4096) va s.memory

abbrev pub leaf_of : (top : ℕ) → Mmu → ℕ → ℕ
leaf_of top s va =
    leaf s.memory top (get_level1_index va) (get_level2_index va) (get_level3_index va)

-- The two addresses have the same three indices: they lie on one page of the translated space.
abbrev pub same_page : ℕ → ℕ → Bool
same_page va vb =
    (get_level1_index vb == get_level1_index va)
    && (get_level2_index vb == get_level2_index va)
    && (get_level3_index vb == get_level3_index va)

-- The barriers and the invalidation that must follow a change of the entry of `va`, newest first.
abbrev pub synchronised : ℕ → List Maintenance → List Maintenance
synchronised va before =
    instruction_barrier ∷ data_barrier ∷ invalidate_page (va >> 12) ∷ data_barrier ∷ before

-- The tables are a tree, no frame came free, and a page that was no table and not on a free frame is
-- no table now.
pub record IsKept (p : Platform) (top : ℕ) (owner : ℕ → Role) (s s' : Mmu) : Type 0 where
  pub roles : ℕ → Role
  pub mmu : IsMmu p top roles s'
  pub only_takes : (b : ℕ) → available p s'.physical b ≡ true → available p s.physical b ≡ true
  pub keeps_others :
      (u : ℕ) → owner u ≡ other → available p s.physical (u * 4096) ≡ false → roles u ≡ other
  pub same_count : s'.physical.frame_count ≡ s.physical.frame_count

-- `map_page` mapped the page of `va`, which was not mapped, to that of `pa`: it translates to `pa`
-- with the offset kept, every other address as before.
pub record IsMapped (p : Platform) (top : ℕ) (owner : ℕ → Role) (s : Mmu) (va pa : ℕ) (s' : Mmu)
    : Type 0 where
  pub kept : IsKept p top owner s s'
  pub aligned : (va % 4096 ≡ 0) × (pa % 4096 ≡ 0)
  pub was_free : address_of top s va ≡ 0
  pub translated :
      (vb : ℕ)
      → address_of top s' vb ≡ (if same_page va vb then pa + vb % 4096 else address_of top s vb)
  pub fenced : s'.maintenance ≡ synchronised va s.maintenance

-- Why `map_page` may fail.
pub data IsRefused (p : Platform) (top va pa : ℕ) (s' : Mmu) : Type 0 where
  misaligned : (va % 4096 ≢ 0) ⊎ (pa % 4096 ≢ 0) → IsRefused p top va pa s'
  mapped : leaf_of top s' va ≢ 0 → IsRefused p top va pa s'
  no_frame : NoneAvailable p s'.physical → IsRefused p top va pa s'
  block :
      (t : ℕ)
      → next s'.memory top (get_level1_index va) ≡ some t
      → entry_at s'.memory t (get_level2_index va) ≢ 0
      → bit_and (entry_at s'.memory t (get_level2_index va)) 0b11 ≢ 0b11
      → IsRefused p top va pa s'

-- `map_page` failed: no translation and no maintenance, though a table may have been added.
pub record IsUnmapped (p : Platform) (top : ℕ) (owner : ℕ → Role) (s : Mmu) (va pa : ℕ) (s' : Mmu)
    : Type 0 where
  pub kept : IsKept p top owner s s'
  pub reason : IsRefused p top va pa s'
  pub translated : (vb : ℕ) → address_of top s' vb ≡ address_of top s vb
  pub silent : s'.maintenance ≡ s.maintenance

abbrev pub page_entry : MemoryType → (pa permissions : ℕ) → ℕ
page_entry normal pa permissions = make_normal_page_descriptor pa permissions
page_entry device pa permissions = make_device_page_descriptor pa permissions

pub resolve-zero : (page_offset : ℕ) → resolve 0 page_offset ≡ 0
unfolding resolve
resolve-zero page_offset = refl

pub resolve-page_entry :
    (type : MemoryType) (pa permissions page_offset : ℕ)
    → IsPermissions permissions
    → pa % 4096 ≡ 0
    → pa < 2 ^ 48
    → page_offset < 4096
    → resolve (page_entry type pa permissions) page_offset ≡ pa + page_offset
unfolding resolve
resolve-page_entry normal pa permissions o clear aligned small h = ground (
  arith,
  normal_page-address pa permissions clear,
  masked_page pa aligned small,
  normal_page-type pa permissions,
  zero-bit_and 0b11,
)
resolve-page_entry device pa permissions o clear aligned small h = ground (
  arith,
  device_page-address pa permissions clear,
  masked_page pa aligned small,
  device_page-type pa permissions,
  zero-bit_and 0b11,
)

module _ (p : Platform) (top : ℕ) where
  pub same_leaf :
      (s s' : Mmu) (vb : ℕ)
      → leaf_of top s' vb ≡ leaf_of top s vb
      → address_of top s' vb ≡ address_of top s vb
  same_leaf s s' vb e =
      get_physical_address-leaf s'.memory top vb
      ∙ ap (λ (t : ℕ). resolve t (bit_and vb 0xFFF)) e
      ∙ sym (get_physical_address-leaf s.memory top vb)

  -- The last step of `map_page`, from a state whose tables for `va` are there.
  module _ (s : Mmu) {owner : ℕ → Role} (mmu : IsMmu p top owner s) (va pa permissions : ℕ)
      (type : MemoryType) (clear : IsPermissions permissions) (va_aligned : va % 4096 ≡ 0)
      (pa_aligned : pa % 4096 ≡ 0) (small : pa < 2 ^ 48) (t : ℕ)
      (role : owner t ≡ level3 (get_level1_index va) (get_level2_index va))
      (found : walk s.memory top (get_level1_index va) (get_level2_index va) ≡ some t)
      (empty : entry_at s.memory t (get_level3_index va) ≡ 0) where
    -- The state that `map_entry` leaves.
    pub entered : Mmu
    entered = synchronise va (record s {
      memory =
          written mmu.tree (get_level1_index va) (get_level2_index va) (get_level3_index va) t role
            (level3-lt va) (page_entry type pa permissions);
    })

    pub map_entry-entered :
        map_entry p (top * 4096) (t * 4096) va pa type permissions s ≡ (true, entered)
    unfolding map_entry entered synchronise
    map_entry-entered =
        elim type
          as (λ type. map_entry p (top * 4096) (t * 4096) va pa type permissions s ≡ (
            true,
            synchronise va (record s {
              memory =
                  written mmu.tree (get_level1_index va) (get_level2_index va) (get_level3_index va)
                    t role (level3-lt va) (page_entry type pa permissions);
            }),
          )) [ normal ↦ rw empty | device ↦ rw empty ]

    leaf-entered :
        (vb : ℕ)
        → leaf_of top entered vb
          ≡ (if same_page va vb then page_entry type pa permissions else leaf_of top s vb)
    unfolding entered synchronise
    leaf-entered vb =
        leaf-written mmu.tree (get_level1_index va) (get_level2_index va) (get_level3_index va) t
          role (level3-lt va) (page_entry type pa permissions) found (get_level1_index vb)
          (get_level2_index vb) (get_level3_index vb) (level1-lt vb) (level2-lt vb) (level3-lt vb)

    pub leaf-empty : leaf_of top s va ≡ 0
    unfolding leaf
    leaf-empty = rw found empty

    entered-IsMmu : IsMmu p top owner entered
    unfolding entered synchronise
    entered-IsMmu = record {
      tree =
          written-IsTree mmu.tree (get_level1_index va) (get_level2_index va) (get_level3_index va)
            t role (level3-lt va) (page_entry type pa permissions);
      allocator = mmu.allocator;
      addressable = mmu.addressable;
      free_frames = mmu.free_frames;
    }

    pub entered-IsMapped : IsMapped p top owner s va pa entered
    entered-IsMapped = record {
      kept = record {
        roles = owner;
        mmu = entered-IsMmu;
        only_takes = λ b h. unfold entered synchronise in h;
        keeps_others = λ u h unavailable. h;
        same_count = unfold entered synchronise in refl;
      };
      aligned = (va_aligned, pa_aligned);
      was_free = get_physical_address-leaf s.memory top va ∙ rw leaf-empty (resolve-zero _);
      translated = λ vb. elim (Bool-cases (same_page va vb)) [
        | inl here ↦ rw here (
            get_physical_address-leaf entered.memory top vb
            ∙ rw (leaf-entered vb, here, low_twelve vb)
                (resolve-page_entry type pa permissions (vb % 4096) clear pa_aligned small
                  (omega arith)))
        | inr elsewhere ↦
            rw elsewhere (same_leaf s entered vb (leaf-entered vb ∙ rw elsewhere refl))
      ];
      fenced = unfold entered synchronise in refl;
    }
