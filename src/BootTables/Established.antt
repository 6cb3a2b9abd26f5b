-- ===== src/BootTables/Established.antt =====
-- The tables that `MMU::init` of kernel/memory/mmu.cpp leaves, as a tree and as a translation.
use planetoid_os.Base.{
  ℕ, ◌*◌, ◌/◌, ◌%◌, ◌^◌, ◌<◌, ◌≡◌, ◌≢◌, refl, sym, ◌∙◌, subst, inl, inr, Bool, true, false, arith,
  bit_and, ◌==◌, if◌then◌else◌, ==→eq, Bool-cases,
}
use planetoid_os.Descriptor.{
  make_table_descriptor, make_normal_block_descriptor, make_device_block_descriptor, attr_el1_rw,
}
use planetoid_os.Descriptor.Fields.{table-address, table-type, masked_page, normal_block-type}
use planetoid_os.Mmu.{Mmu}
use planetoid_os.Mmu.Tree.{
  Role, root, other, level2, level3, child, inner, target, is_table, entry_at, IsTree, next, leaf,
}
use planetoid_os.BootTables.{BootTables, MemorySections, device_permissions, init}
use planetoid_os.BootTables.Entries.{IsPlaced}
use planetoid_os.BootTables.Links.{is_boot_table, virt_entry, pi5_entry, AreInside, init-entry}

module _ (pi5 : Bool) (tables : BootTables) (placed : IsPlaced tables) where
  -- The role of each page at boot.
  abbrev pub boot_roles : ℕ → Role
  boot_roles t =
      if tables.level1_table == t * 4096
      then root
      else if tables.first == t * 4096
      then level2 0
      else if tables.second == t * 4096
      then level2 (if pi5 then 65 else 1)
      else if tables.level3_kernel_table == t * 4096
      then (if pi5 then level3 0 1 else level3 1 0)
      else other

  pub role-first : boot_roles (tables.first / 4096) ≡ level2 0
  role-first = ground (arith, placed.first_aligned, placed.level1-first)

  pub role-second : boot_roles (tables.second / 4096) ≡ level2 (if pi5 then 65 else 1)
  role-second = ground (arith, placed.second_aligned, placed.level1-second, placed.first-second)

  role-kernel :
      boot_roles (tables.level3_kernel_table / 4096) ≡ (if pi5 then level3 0 1 else level3 1 0)
  role-kernel = ground (
    arith, placed.kernel_aligned, placed.level1-kernel, placed.first-kernel, placed.second-kernel,
  )

  -- An entry that leads to the table at `a`.
  pub links :
      (a : ℕ)
      → a % 4096 ≡ 0
      → a < 2 ^ 48
      → (target (make_table_descriptor a) ≡ a) × (is_table (make_table_descriptor a) ≡ true)
  links a aligned small = (table-address a ∙ masked_page a aligned small, rw (table-type a) refl)

  -- What the invariant asks of entry `e` of a table with role `role`, at index `j`.
  abbrev Leads : (role : Role) (j e : ℕ) → Type 0
  Leads role j e =
      e ≢ 0 → is_table e ≡ true → (boot_roles (target e / 4096) ≡ child role j) × (target e ≢ 0)

  Leads-zero : (role : Role) (j : ℕ) → Leads role j 0
  Leads-zero role j nonzero = absurd (nonzero refl)

  Leads-block : (role : Role) (j a : ℕ) → Leads role j (make_normal_block_descriptor a attr_el1_rw)
  Leads-block role j a nonzero table = let e = normal_block-type a in ground arith

  Leads-table :
      (role : Role) (j a : ℕ)
      → a % 4096 ≡ 0
      → a < 2 ^ 48
      → a ≢ 0
      → boot_roles (a / 4096) ≡ child role j
      → Leads role j (make_table_descriptor a)
  Leads-table role j a aligned small nonzero_address e nonzero table =
      rw (links a aligned small).0 (e, nonzero_address)

  device-type :
      (bit_and (make_device_block_descriptor 0x08000000 device_permissions) 0b11 ≡ 0b01)
      × (bit_and (make_device_block_descriptor 0x09000000 device_permissions) 0b11 ≡ 0b01)
      × (bit_and (make_device_block_descriptor 0x107D000000 device_permissions) 0b11 ≡ 0b01)
      × (bit_and (make_device_block_descriptor 0x107D400000 device_permissions) 0b11 ≡ 0b01)
      × (bit_and (make_device_block_descriptor 0x107FE00000 device_permissions) 0b11 ≡ 0b01)
  unfolding make_device_block_descriptor
  device-type = (refl, refl, refl, refl, refl)

  Leads-device :
      (role : Role) (j a : ℕ)
      → bit_and (make_device_block_descriptor a device_permissions) 0b11 ≡ 0b01
      → Leads role j (make_device_block_descriptor a device_permissions)
  Leads-device role j a e nonzero table = ground arith

  -- The entries of one table: at index `i` a link, elsewhere something that satisfies the invariant.
  Leads-if :
      (role : Role) (j i e e' : ℕ)
      → (j ≡ i → Leads role j e)
      → Leads role j e'
      → Leads role j (if j == i then e else e')
  Leads-if role j i e e' here elsewhere = elim (Bool-cases (j == i)) [
    | inl same ↦ rw same (here (==→eq j i same))
    | inr differ ↦ rw differ elsewhere
  ]

  virt-Leads :
      pi5 ≡ false
      → (t j : ℕ) → (tables.level3_kernel_table == t * 4096) ≡ false
      → Leads (boot_roles t) j (virt_entry pi5 tables placed t j)
  virt-Leads virt t j no_kernel = elim (Bool-cases (tables.level1_table == t * 4096)) [
    | inl at_level1 ↦ rw at_level1 (
        Leads-if root j 0 _ _
          (λ e.
            Leads-table root j tables.first placed.first_aligned placed.first_small
              placed.first_nonzero (rw e role-first))
          (Leads-if root j 1 _ _
            (λ e.
              Leads-table root j tables.second placed.second_aligned placed.second_small
                placed.second_nonzero (rw e (role-second ∙ rw virt refl)))
            (Leads-zero root j)))
    | inr not_level1 ↦ elim (Bool-cases (tables.first == t * 4096)) [
      | inl at_first ↦
          rw (not_level1, at_first)
            (Leads-if (level2 0) j 64 _ _ (λ e. Leads-device (level2 0) j _ device-type.0)
              (Leads-if (level2 0) j 72 _ _ (λ e. Leads-device (level2 0) j _ device-type.1)
                (Leads-zero (level2 0) j)))
      | inr not_first ↦ elim (Bool-cases (tables.second == t * 4096)) [
        | inl at_second ↦
            rw (not_level1, not_first, at_second)
              (Leads-if (level2 (if pi5 then 65 else 1)) j 0 _ _
                (λ e.
                  Leads-table (level2 (if pi5 then 65 else 1)) j tables.level3_kernel_table
                    placed.kernel_aligned placed.kernel_small placed.kernel_nonzero
                    (rw e (role-kernel ∙ rw virt refl)))
                (Leads-block (level2 (if pi5 then 65 else 1)) j _))
        | inr not_second ↦ rw (not_level1, not_first, not_second) (Leads-zero _ j)
      ]
    ]
  ]

  pi5-Leads :
      pi5 ≡ true
      → (t j : ℕ) → (tables.level3_kernel_table == t * 4096) ≡ false
      → Leads (boot_roles t) j (pi5_entry pi5 tables placed t j)
  pi5-Leads pi t j no_kernel = elim (Bool-cases (tables.level1_table == t * 4096)) [
    | inl at_level1 ↦ rw at_level1 (
        Leads-if root j 0 _ _
          (λ e.
            Leads-table root j tables.first placed.first_aligned placed.first_small
              placed.first_nonzero (rw e role-first))
          (Leads-if root j 65 _ _
            (λ e.
              Leads-table root j tables.second placed.second_aligned placed.second_small
                placed.second_nonzero (rw e (role-second ∙ rw pi refl)))
            (Leads-zero root j)))
    | inr not_level1 ↦ elim (Bool-cases (tables.first == t * 4096)) [
      | inl at_first ↦
          rw (not_level1, at_first)
            (Leads-if (level2 0) j 1 _ _
              (λ e.
                Leads-table (level2 0) j tables.level3_kernel_table placed.kernel_aligned
                  placed.kernel_small placed.kernel_nonzero (rw e (role-kernel ∙ rw pi refl)))
              (Leads-block (level2 0) j _))
      | inr not_first ↦ elim (Bool-cases (tables.second == t * 4096)) [
        | inl at_second ↦
            rw (not_level1, not_first, at_second)
              (Leads-if (level2 (if pi5 then 65 else 1)) j 488 _ _
                (λ e. Leads-device (level2 (if pi5 then 65 else 1)) j _ device-type.2)
                (Leads-if (level2 (if pi5 then 65 else 1)) j 490 _ _
                  (λ e. Leads-device (level2 (if pi5 then 65 else 1)) j _ device-type.3)
                  (Leads-if (level2 (if pi5 then 65 else 1)) j 511 _ _
                    (λ e. Leads-device (level2 (if pi5 then 65 else 1)) j _ device-type.4)
                    (Leads-zero (level2 (if pi5 then 65 else 1)) j))))
        | inr not_second ↦ rw (not_level1, not_first, not_second) (Leads-zero _ j)
      ]
    ]
  ]

  inner-table : (t : ℕ) → inner (boot_roles t) ≡ true → is_boot_table pi5 tables placed t ≡ true
  inner-table t e = ground arith

  inner-no_kernel :
      (t : ℕ) → inner (boot_roles t) ≡ true → (tables.level3_kernel_table == t * 4096) ≡ false
  inner-no_kernel t e =
      ground (arith, placed.level1-kernel, placed.first-kernel, placed.second-kernel)

  module _ (sections : MemorySections) (inside : AreInside pi5 tables placed sections)
      (s : Mmu) where
    abbrev pub booted : ℕ → ℕ
    booted = (init pi5 tables sections s).1.memory

    pub upper-entry :
        (t j : ℕ)
        → j < 512
        → inner (boot_roles t) ≡ true
        → entry_at booted t j
          ≡ (if pi5 then pi5_entry pi5 tables placed t j else virt_entry pi5 tables placed t j)
    upper-entry t j hj e =
        init-entry pi5 tables placed sections inside s t j hj (inner-table t e)
        ∙ rw (inner-no_kernel t e) refl

    booted-Leads :
        (t j : ℕ)
        → j < 512
        → inner (boot_roles t) ≡ true
        → Leads (boot_roles t) j (entry_at booted t j)
    booted-Leads t j hj e =
        subst (Leads (boot_roles t) j) (sym (upper-entry t j hj e)) (elim (Bool-cases pi5) [
          | inl pi ↦
              subst
                (λ (b : Bool).
                  Leads (boot_roles t) j (
                    if b
                    then pi5_entry pi5 tables placed t j
                    else virt_entry pi5 tables placed t j))
                (sym pi) (pi5-Leads pi t j (inner-no_kernel t e))
          | inr virt ↦
              subst
                (λ (b : Bool).
                  Leads (boot_roles t) j (
                    if b
                    then pi5_entry pi5 tables placed t j
                    else virt_entry pi5 tables placed t j))
                (sym virt) (virt-Leads virt t j (inner-no_kernel t e))
        ])

    abbrev pub boot_top : ℕ
    boot_top = tables.level1_table / 4096

    pub top-page : boot_top * 4096 ≡ tables.level1_table
    top-page = omega (arith, placed.level1_aligned)

    top-role : boot_roles boot_top ≡ root
    top-role = rw top-page (ground arith)

    -- The level 1 table has two entries, both of tables.
    pub top-entry :
        (j : ℕ)
        → j < 512
        → entry_at booted boot_top j ≡ (
            if j == 0
            then make_table_descriptor tables.first
            else if j == (if pi5 then 65 else 1)
            then make_table_descriptor tables.second
            else 0)
    top-entry j hj =
        upper-entry boot_top j hj (rw top-role refl)
        ∙ (let same : (tables.level1_table == boot_top * 4096) ≡ true = ground (arith, top-page) in
            ground (arith))

    -- `init` leaves its tables as a tree.
    pub init-IsTree : IsTree boot_top boot_roles booted
    init-IsTree = record {
      top_owner = top-role;
      top_tables = λ j hj nonzero. ground (
        arith,
        top-entry j hj,
        links tables.first placed.first_aligned placed.first_small,
        links tables.second placed.second_aligned placed.second_small,
      );
      linked = λ t j e hj. booted-Leads t j hj e;
    }

    -- No address behind another entry of the level 1 table is mapped.
    pub leaf-elsewhere :
        (i j k : ℕ)
        → i < 512
        → (i == 0) ≡ false
        → (i == (if pi5 then 65 else 1)) ≡ false
        → leaf booted boot_top i j k ≡ 0
    unfolding leaf next
    leaf-elsewhere i j k hi not_first not_second = rw (top-entry i hi, not_first, not_second) refl
