-- ===== src/Mmu/Create.antt =====
-- A new table of kernel/memory/mmu.cpp: `allocate_page_table`, and the entry that then leads to it.
-- The tables stay a tree, and no translation changes.
use planetoid_os.Base.{
  ℕ, zero, suc, ◌+◌, ◌-◌, ◌*◌, ◌/◌, ◌%◌, ◌^◌, ◌<◌, ◌≡◌, ◌≢◌, refl, sym, ap, ◌∙◌, inl, inr, true,
  false, ◌&&◌, none, some, arith, ltb, leb, ◌==◌, if◌then◌else◌, ==→eq, ==→ne, Bool-cases,
  Option-cases, update, update_self, update-ne, for_range,
}
use planetoid_os.Base.Bits.{zero-bit_and}
use planetoid_os.Descriptor.{address_mask, make_table_descriptor}
use planetoid_os.Descriptor.Fields.{masked_page, table-address, table-type}
use planetoid_os.Mmu.{entry_address, clear_table}
use planetoid_os.Mmu.Tree.{
  Role, other, root, level2, level3, child, inner, target, is_table, entry_at, IsTree, next,
  next-child, leaf, leaf_at,
}

clear_loop :
    (n i table : ℕ) (memory : ℕ → ℕ) (a : ℕ)
    → for_range n i (λ k memory. update memory (entry_address table k) 0) memory a ≡ (
        if leb (entry_address table i) a
          && ltb a (entry_address table (i + n))
          && ((a - table) % 8 == 0)
        then 0
        else memory a)
unfolding for_range update
clear_loop zero i table memory a = ground arith
clear_loop (suc n) i table memory a =
    ground (arith, clear_loop n (i + 1) table (update memory (entry_address table i) 0) a)

-- Memory after `create_table` took the frame at `f` for entry `j` of the table on page `t`.
module _ (memory : ℕ → ℕ) (f t j : ℕ) where
  abbrev pub grown : ℕ → ℕ
  grown = update (clear_table f memory) (entry_address (t * 4096) j) (make_table_descriptor f)

  module _ (aligned : f % 4096 ≡ 0) (apart : f / 4096 ≢ t) (in_table : j < 512) where
    pub grown-new : (k : ℕ) → k < 512 → grown (entry_address f k) ≡ 0
    unfolding clear_table update
    grown-new k h = ground (arith, clear_loop 512 0 f memory (entry_address f k))

    pub grown_self : entry_at grown t j ≡ make_table_descriptor f
    grown_self = update_self _ _ _

    pub grown-other :
        (u k : ℕ)
        → k < 512
        → u ≢ f / 4096
        → (u == t && k == j) ≡ false
        → entry_at grown u k ≡ entry_at memory u k
    unfolding clear_table update
    grown-other u k h fresh old =
        ground (arith, clear_loop 512 0 f memory (entry_address (u * 4096) k))

-- The new page gets the role that the entry names.
abbrev pub adopt : (ℕ → Role) → (f t j : ℕ) → ℕ → Role
adopt owner f t j = update owner (f / 4096) (child (owner t) j)

child-ne-other : (r : Role) (j : ℕ) → inner r ≡ true → child r j ≢ other
child-ne-other other j h = cc
child-ne-other root j h = λ e. cc
child-ne-other (level2 i) j h = λ e. cc
child-ne-other (level3 i k) j h = cc

module _ {top : ℕ} {owner : ℕ → Role} {memory : ℕ → ℕ} (tree : IsTree top owner memory) (f t j : ℕ)
    (aligned : f % 4096 ≡ 0) (nonzero : f ≢ 0) (small : f < 2 ^ 48)
    (fresh : owner (f / 4096) ≡ other) (is_inner : inner (owner t) ≡ true) (in_table : j < 512)
    (empty : entry_at memory t j ≡ 0) where
  apart : f / 4096 ≢ t
  apart e = ground (arith, ap owner e)

  new-entry : (k : ℕ) → k < 512 → entry_at (grown memory f t j) (f / 4096) k ≡ 0
  new-entry k h =
      ap (grown memory f t j) (omega arith) ∙ grown-new memory f t j aligned apart in_table k h

  descriptor-target : target (make_table_descriptor f) ≡ f
  descriptor-target = table-address f ∙ masked_page f aligned small

  next-new : (k : ℕ) → k < 512 → next (grown memory f t j) (f / 4096) k ≡ none
  unfolding next
  next-new k h = ground (arith, new-entry k h)

  pub next_self : next (grown memory f t j) t j ≡ some (f / 4096)
  unfolding next
  next_self =
      rw (grown_self memory f t j aligned apart in_table) ground
        (arith, descriptor-target, table-type f, zero-bit_and address_mask)

  pub next-other :
      (u k : ℕ)
      → k < 512
      → u ≢ f / 4096
      → (u == t && k == j) ≡ false
      → next (grown memory f t j) u k ≡ next memory u k
  unfolding next
  next-other u k h fresh_page old =
      rw (grown-other memory f t j aligned apart in_table u k h fresh_page old)

  pub next-empty : next memory t j ≡ none
  unfolding next
  next-empty = rw empty

  owned-apart : (u : ℕ) → owner u ≢ other → u ≢ f / 4096
  owned-apart u owned e = owned (ap owner e ∙ fresh)

  self : entry_at (grown memory f t j) t j ≡ make_table_descriptor f
  self = grown_self memory f t j aligned apart in_table

  top-old : f / 4096 ≢ top
  top-old e = owned-apart top (λ o. cc (tree.top_owner)) (sym e)

  -- The roles' clause of the invariant, at a page that was there before.
  linked-grown :
      (u k : ℕ)
      → inner (owner u) ≡ true
      → u ≢ f / 4096
      → k < 512
      → entry_at (grown memory f t j) u k ≢ 0
      → is_table (entry_at (grown memory f t j) u k) ≡ true
      → (adopt owner f t j (target (entry_at (grown memory f t j) u k) / 4096) ≡ child (owner u) k)
        × (target (entry_at (grown memory f t j) u k) ≢ 0)
  linked-grown u k inner_page old h nonzero_entry table = elim (Bool-cases (u == t && k == j)) [
    | inl here ↦
        let same_page : u ≡ t = ground arith in
        let same_entry : k ≡ j = ground arith in
        rw (same_page, same_entry, self, descriptor-target)
          (update_self owner (f / 4096) _, nonzero)
    | inr elsewhere ↦
        let same = grown-other memory f t j aligned apart in_table u k h old elsewhere in
        let (role, points) =
          tree.linked u k inner_page h (rw same at nonzero_entry) (rw same at table) in
        rw same (
          update-ne owner (f / 4096) _ _
                (λ e. child-ne-other (owner u) k inner_page (sym role ∙ ap owner (sym e) ∙ fresh))
              ∙ role,
          points,
        )
  ]

  pub grown-IsTree : IsTree top (adopt owner f t j) (grown memory f t j)
  grown-IsTree = record {
    top_owner = update-ne owner (f / 4096) _ top top-old ∙ tree.top_owner;
    top_tables = λ k h nonzero_entry. elim (Bool-cases (top == t && k == j)) [
      | inl here ↦
          let same_page : top ≡ t = ground arith in
          let same_entry : k ≡ j = ground arith in rw (same_page, same_entry, self, table-type f)
      | inr elsewhere ↦
          let same =
            grown-other memory f t j aligned apart in_table top k h (λ e. top-old (sym e))
              elsewhere in
          rw same (tree.top_tables k h (rw same at nonzero_entry))
    ];
    linked = λ u k inner_page h nonzero_entry table. elim (Bool-cases (u == f / 4096)) [
      | inl new ↦ absurd (nonzero_entry (rw (==→eq u (f / 4096) new) (new-entry k h)))
      | inr old ↦
          let old_page : f / 4096 ≢ u = λ e. ==→ne u (f / 4096) old (sym e) in
          let same_owner = update-ne owner (f / 4096) (child (owner t) j) u old_page in
          rw same_owner (
            linked-grown u k (rw same_owner at inner_page) (==→ne u (f / 4096) old) h nonzero_entry
              table)
    ];
  }

  next-top :
      (i : ℕ)
      → i < 512
      → (top == t && i == j) ≡ false
      → next (grown memory f t j) top i ≡ next memory top i
  next-top i h elsewhere = next-other top i h (owned-apart top (λ e. cc (tree.top_owner))) elsewhere

  leaf-ne-inner : {i k : ℕ} (v : ℕ) → owner v ≡ level3 i k → v ≢ t
  leaf-ne-inner v role e =
      let here : inner (owner v) ≡ true = rw e is_inner in let impossible = rw role at here in cc

  second-grown :
      (i u k l : ℕ)
      → owner u ≡ level2 i
      → k < 512
      → l < 512
      → leaf_at (grown memory f t j) (next (grown memory f t j) u k) l
        ≡ leaf_at memory (next memory u k) l
  second-grown i u k l role hk hl = elim (Bool-cases (u == t && k == j)) [
    | inl here ↦
        let same_page : u ≡ t = ground arith in
        let same_entry : k ≡ j = ground arith in
        rw (same_page, same_entry, next_self, next-empty) (new-entry l hl)
    | inr elsewhere ↦
        rw (next-other u k hk (owned-apart u (λ e. cc)) elsewhere)
          (elim (Option-cases (next memory u k)) [
            | inl stop ↦ rw stop
            | inr (v, e) ↦
                let role' : owner v ≡ level3 i k =
                  next-child u k v tree (rw role refl) hk e ∙ rw role refl in
                rw e (
                  grown-other memory f t j aligned apart in_table v l hl (owned-apart v (λ o. cc))
                    (ground (arith, leaf-ne-inner v role')))
          ])
  ]

  pub leaf-grown :
      (i k l : ℕ)
      → i < 512
      → k < 512
      → l < 512
      → leaf (grown memory f t j) top i k l ≡ leaf memory top i k l
  unfolding leaf
  leaf-grown i k l hi hk hl = elim (Bool-cases (top == t && i == j)) [
    | inl here ↦
        let same_page : top ≡ t = ground arith in
        let same_entry : i ≡ j = ground arith in
        rw (same_page, same_entry, next_self, next-empty, next-new k hk)
    | inr elsewhere ↦ rw (next-top i hi elsewhere) (elim (Option-cases (next memory top i)) [
      | inl stop ↦ rw stop
      | inr (u, e) ↦ rw e (
          second-grown i u k l
            (next-child top i u tree (rw tree.top_owner refl) hi e ∙ rw tree.top_owner refl) hk hl)
    ])
  ]
