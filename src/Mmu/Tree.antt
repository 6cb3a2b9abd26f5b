-- ===== src/Mmu/Tree.antt =====
-- The tables of kernel/memory/mmu.cpp as a tree: each page of memory has a role, and an entry of a
-- table leads to the page whose role names that entry. So no table is shared, and none is free.
use planetoid_os.Base.{
  ℕ, ◌+◌, ◌*◌, ◌/◌, ◌^◌, ◌≤◌, ◌<◌, ◌≡◌, ◌≢◌, refl, ◌∙◌, inl, inr, Bool, true, false, not, Option,
  none, some, arith, bit_and, ◌==◌, if◌then◌else◌, Option-cases, add64,
}
use planetoid_os.Descriptor.{address_mask, get_level1_index, get_level2_index, get_level3_index}
use planetoid_os.Descriptor.Fields.{masked}
use planetoid_os.PhysicalMemory.{Platform, physical_memory_base}
use planetoid_os.PhysicalMemory.Allocate.{IsWellFormed, available}
use planetoid_os.Mmu.{Mmu, entry_address, find_level3_table, get_physical_address}

-- The level 1 table, the level 2 table behind its entry `i`, the level 3 table behind entry `j` of
-- that one, or any other page.
pub data Role : Type 0 where
  other root : Role
  level2 : ℕ → Role
  level3 : ℕ → ℕ → Role

abbrev pub child : Role → ℕ → Role
child other j = other
child root j = level2 j
child (level2 i) j = level3 i j
child (level3 i j) k = other

-- The page is a table whose entries lead to tables.
abbrev pub inner : Role → Bool
inner other = false
inner root = true
inner (level2 i) = true
inner (level3 i j) = false

abbrev pub target : ℕ → ℕ
target entry = bit_and entry address_mask

abbrev pub is_table : ℕ → Bool
is_table entry = bit_and entry 0b11 == 0b11

-- Entry `j` of the table on page `t`.
abbrev pub entry_at : (ℕ → ℕ) → ℕ → ℕ → ℕ
entry_at memory t j = memory (entry_address (t * 4096) j)

-- The tables in `memory`, whose level 1 table is on page `top`.
pub record IsTree (top : ℕ) (owner : ℕ → Role) (memory : ℕ → ℕ) : Type 0 where
  pub top_owner : owner top ≡ root
  pub top_tables :
      (j : ℕ) → j < 512 → entry_at memory top j ≢ 0 → is_table (entry_at memory top j) ≡ true
  pub linked :
      (t j : ℕ)
      → inner (owner t) ≡ true
      → j < 512
      → entry_at memory t j ≢ 0
      → is_table (entry_at memory t j) ≡ true
      → (owner (target (entry_at memory t j) / 4096) ≡ child (owner t) j)
        × (target (entry_at memory t j) ≢ 0)

-- The whole state: the allocator's invariant, and no table on a free frame.
pub record IsMmu (p : Platform) (top : ℕ) (owner : ℕ → Role) (s : Mmu) : Type 0 where
  pub tree : IsTree top owner s.memory
  pub allocator : IsWellFormed p s.physical
  pub addressable : physical_memory_base p + s.physical.frame_count * 4096 ≤ 2 ^ 48
  pub free_frames : (a : ℕ) → available p s.physical a ≡ true → owner (a / 4096) ≡ other

pub target-page : (entry : ℕ) → target entry / 4096 * 4096 ≡ target entry
target-page entry = omega (arith, masked entry)

-- The page of the table behind an entry, if the entry leads to one.
unfoldable pub next : (memory : ℕ → ℕ) (t j : ℕ) → Option ℕ
next memory t j =
    if entry_at memory t j == 0
    then none
    else if not (is_table (entry_at memory t j))
    then none
    else some (target (entry_at memory t j) / 4096)

pub next-child :
    {top : ℕ} {owner : ℕ → Role} {memory : ℕ → ℕ} (t j u : ℕ)
    → IsTree top owner memory
    → inner (owner t) ≡ true
    → j < 512
    → next memory t j ≡ some u
    → owner u ≡ child (owner t) j
unfolding next
next-child t j u tree is_inner h e = ground (arith, tree.linked t j)

-- The second step of the walk, and the read at its end.
abbrev pub follow : (memory : ℕ → ℕ) → Option ℕ → ℕ → Option ℕ
follow memory none j = none
follow memory (some t) j = next memory t j

abbrev pub leaf_at : (memory : ℕ → ℕ) → Option ℕ → ℕ → ℕ
leaf_at memory none k = 0
leaf_at memory (some t) k = entry_at memory t k

-- The walk of `find_level3_table`, on pages.
abbrev pub walk : (memory : ℕ → ℕ) (top i j : ℕ) → Option ℕ
walk memory top i j = follow memory (next memory top i) j

pub walk-role :
    {top : ℕ} {owner : ℕ → Role} {memory : ℕ → ℕ} (tree : IsTree top owner memory) (i j v : ℕ)
    → i < 512
    → j < 512
    → walk memory top i j ≡ some v
    → owner v ≡ level3 i j
walk-role {top} {owner} {memory} tree i j v hi hj e = elim (Option-cases (next memory top i)) [
  | inl stop ↦ absurd (ground arith)
  | inr (u, found) ↦
      let role : owner u ≡ level2 i =
        next-child top i u tree (rw tree.top_owner refl) hi found ∙ rw tree.top_owner refl in
      next-child u j v tree (rw role refl) hj (rw found at e) ∙ rw role refl
]

-- The entry that translates page `k` behind the entries `i` and `j`, or 0.
unfoldable pub leaf : (memory : ℕ → ℕ) (top i j k : ℕ) → ℕ
leaf memory top i j k = leaf_at memory (walk memory top i j) k

pub find_level3_table-walk :
    (memory : ℕ → ℕ) (top va : ℕ)
    → find_level3_table (top * 4096) va memory
      ≡ (elim (walk memory top (get_level1_index va) (get_level2_index va)) [
        | none ↦ none
        | some t ↦ some (t * 4096)
      ])
unfolding find_level3_table next
find_level3_table-walk memory top va =
    let e = entry_at memory top (get_level1_index va) in
    ground
      (arith, target-page e, target-page (memory (entry_address (target e) (get_level2_index va))))

-- The address that a leaf entry stands for.
unfoldable pub resolve : (entry page_offset : ℕ) → ℕ
resolve entry page_offset =
    if entry == 0 then 0 else if not (is_table entry) then 0 else add64 (target entry) page_offset

physical-of_walk :
    (memory : ℕ → ℕ) (top va : ℕ)
    → get_physical_address (top * 4096) va memory
      ≡ (elim (find_level3_table (top * 4096) va memory) [
        | none ↦ 0
        | some level3_table ↦
            resolve (memory (entry_address level3_table (get_level3_index va))) (bit_and va 0xFFF)
      ])
unfolding get_physical_address resolve
physical-of_walk memory top va = ground arith

pub get_physical_address-leaf :
    (memory : ℕ → ℕ) (top va : ℕ)
    → get_physical_address (top * 4096) va memory
      ≡ resolve
          (leaf memory top (get_level1_index va) (get_level2_index va) (get_level3_index va))
          (bit_and va 0xFFF)
unfolding leaf resolve
get_physical_address-leaf memory top va =
    physical-of_walk memory top va ∙ ground (arith, find_level3_table-walk memory top va)
