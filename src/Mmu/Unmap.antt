-- ===== src/Mmu/Unmap.antt =====
-- `unmap_page` of kernel/memory/mmu.cpp against `get_physical_address`.
use planetoid_os.Base.{
  ℕ, ◌*◌, ◌%◌, ◌≡◌, ◌≢◌, refl, sym, ◌∙◌, ◌⊎◌, inl, inr, Bool, true, false, none, some, bit_and,
  ◌==◌, if◌then◌else◌, ==→eq, ==→ne, Bool-cases, Option-cases,
}
use planetoid_os.Descriptor.{get_level1_index, get_level2_index, get_level3_index}
use planetoid_os.Descriptor.Fields.{level1-lt, level2-lt, level3-lt, low_twelve}
use planetoid_os.PhysicalMemory.{Platform}
use planetoid_os.Mmu.{Mmu, find_level3_table, unmap_page, synchronise}
use planetoid_os.Mmu.Tree.{
  Role, level3, entry_at, IsMmu, walk, walk-role, leaf, get_physical_address-leaf,
  find_level3_table-walk,
}
use planetoid_os.Mmu.Leaf.{written, written-IsTree, leaf-written}
use planetoid_os.Mmu.Entry.{
  address_of, leaf_of, same_page, synchronised, IsKept, same_leaf, resolve-zero,
}

-- `unmap_page` removed the page of `va` and no other.
pub record IsRemoved (p : Platform) (top : ℕ) (owner : ℕ → Role) (s : Mmu) (va : ℕ) (s' : Mmu)
    : Type 0 where
  pub kept : IsKept p top owner s s'
  pub aligned : va % 4096 ≡ 0
  pub was_mapped : leaf_of top s va ≢ 0
  pub translated :
      (vb : ℕ) → address_of top s' vb ≡ (if same_page va vb then 0 else address_of top s vb)
  pub same_physical : s'.physical ≡ s.physical
  pub fenced : s'.maintenance ≡ synchronised va s.maintenance

-- What `unmap_page` may do, as its result and its last state.
abbrev pub Unmaps :
    (p : Platform) (top : ℕ) (owner : ℕ → Role) (s : Mmu) (va : ℕ) → Bool × Mmu → Type 0
Unmaps p top owner s va r =
    ((r.0 ≡ true) × IsRemoved p top owner s va r.1)
    ⊎ ((r.0 ≡ false) × (r.1 ≡ s) × ((va % 4096 ≢ 0) ⊎ (leaf_of top s va ≡ 0)))

module _ (p : Platform) (top : ℕ) (s : Mmu) {owner : ℕ → Role} (mmu : IsMmu p top owner s) (va : ℕ)
    (aligned : va % 4096 ≡ 0) (t : ℕ)
    (found : walk s.memory top (get_level1_index va) (get_level2_index va) ≡ some t) where
  role : owner t ≡ level3 (get_level1_index va) (get_level2_index va)
  role = walk-role mmu.tree _ _ t (level1-lt va) (level2-lt va) found

  removed : Mmu
  removed = synchronise va (record s {
    memory =
        written mmu.tree (get_level1_index va) (get_level2_index va) (get_level3_index va) t role
          (level3-lt va) 0;
  })

  leaf-removed :
      (vb : ℕ) → leaf_of top removed vb ≡ (if same_page va vb then 0 else leaf_of top s vb)
  unfolding removed synchronise
  leaf-removed vb =
      leaf-written mmu.tree (get_level1_index va) (get_level2_index va) (get_level3_index va) t role
        (level3-lt va) 0 found (get_level1_index vb) (get_level2_index vb) (get_level3_index vb)
        (level1-lt vb) (level2-lt vb) (level3-lt vb)

  leaf-here : leaf_of top s va ≡ entry_at s.memory t (get_level3_index va)
  unfolding leaf
  leaf-here = rw found

  removed-IsMmu : IsMmu p top owner removed
  unfolding removed synchronise
  removed-IsMmu = record {
    tree =
        written-IsTree mmu.tree (get_level1_index va) (get_level2_index va) (get_level3_index va) t
          role (level3-lt va) 0;
    allocator = mmu.allocator;
    addressable = mmu.addressable;
    free_frames = mmu.free_frames;
  }

  removed-IsRemoved :
      entry_at s.memory t (get_level3_index va) ≢ 0 → IsRemoved p top owner s va removed
  removed-IsRemoved nonzero = record {
    kept = record {
      roles = owner;
      mmu = removed-IsMmu;
      only_takes = λ b h. unfold removed synchronise in h;
      keeps_others = λ u h unavailable. h;
      same_count = unfold removed synchronise in refl;
    };
    aligned = aligned;
    was_mapped = λ e. nonzero (sym leaf-here ∙ e);
    translated = λ vb. elim (Bool-cases (same_page va vb)) [
      | inl here ↦ rw here (
          get_physical_address-leaf removed.memory top vb
          ∙ rw (leaf-removed vb, here) (resolve-zero _))
      | inr elsewhere ↦
          rw elsewhere (same_leaf p top s removed vb (leaf-removed vb ∙ rw elsewhere refl))
    ];
    same_physical = unfold removed synchronise in refl;
    fenced = unfold removed synchronise in refl;
  }

  find-found : find_level3_table (top * 4096) va s.memory ≡ some (t * 4096)
  find-found = find_level3_table-walk s.memory top va ∙ rw found refl

  unmap_page-found : Unmaps p top owner s va (unmap_page (top * 4096) va s)
  unfolding unmap_page removed
  unmap_page-found =
      rw (low_twelve va, aligned, find-found)
        (elim (Bool-cases (entry_at s.memory t (get_level3_index va) == 0)) [
          | inl empty ↦ rw empty (inr (refl, refl, inr (leaf-here ∙ ==→eq _ 0 empty)))
          | inr full ↦ rw full (inl (refl, removed-IsRemoved (==→ne _ 0 full)))
        ])

unmap_page-misaligned :
    (top va : ℕ) (s : Mmu) → (va % 4096 == 0) ≡ false → unmap_page (top * 4096) va s ≡ (false, s)
unfolding unmap_page
unmap_page-misaligned top va s bad = rw (low_twelve va, bad)

module _ (top va : ℕ) (s : Mmu)
    (stop : walk s.memory top (get_level1_index va) (get_level2_index va) ≡ none) where
  unmap_page-stopped : unmap_page (top * 4096) va s ≡ (false, s)
  unfolding unmap_page
  unmap_page-stopped = elim (Bool-cases (bit_and va 0xFFF == 0)) [
    | inl good ↦ rw (good, find_level3_table-walk s.memory top va, stop)
    | inr bad ↦ rw bad
  ]

  leaf-stopped : leaf_of top s va ≡ 0
  unfolding leaf
  leaf-stopped = rw stop

-- `unmap_page` on a well-formed state removes the page of an aligned address that is mapped, keeps
-- every other translation, and does nothing else otherwise.
pub unmap_page_lem :
    (p : Platform) (top : ℕ) (s : Mmu) (owner : ℕ → Role) (va : ℕ)
    → IsMmu p top owner s
    → Unmaps p top owner s va (unmap_page (top * 4096) va s)
unmap_page_lem p top s owner va mmu = elim (Bool-cases (va % 4096 == 0)) [
  | inl good ↦ elim (Option-cases (walk s.memory top (get_level1_index va) (get_level2_index va))) [
    | inl stop ↦
        rw (unmap_page-stopped top va s stop) (inr (refl, refl, inr (leaf-stopped top va s stop)))
    | inr (t, found) ↦ unmap_page-found p top s mmu va (==→eq _ 0 good) t found
  ]
  | inr bad ↦ rw (unmap_page-misaligned top va s bad) (inr (refl, refl, inl (==→ne _ 0 bad)))
]
