-- ===== src/Mmu/Leaf.antt =====
-- A write to an entry of a level 3 table, seen through the walk that kernel/memory/mmu.cpp makes.
use planetoid_os.Base.{
  ℕ, ◌+◌, ◌*◌, ◌<◌, ◌≡◌, ◌≢◌, refl, ap, ◌∙◌, inl, inr, true, ◌&&◌, Option, none, some, arith, ◌==◌,
  if◌then◌else◌, Bool-cases, Option-cases, update,
}
use planetoid_os.Mmu.Tree.{
  Role, level3, inner, entry_at, IsTree, next, next-child, leaf_at, walk, walk-role, leaf,
}

-- A write to entry `k` of the level 3 table on page `t`.
module _ {top : ℕ} {owner : ℕ → Role} {memory : ℕ → ℕ} (tree : IsTree top owner memory)
    (i j k t : ℕ) (role : owner t ≡ level3 i j) (in_table : k < 512) (value : ℕ) where
  abbrev pub written : ℕ → ℕ
  written = update memory (t * 4096 + 8 * k) value

  written-entry :
      (u l : ℕ)
      → l < 512
      → entry_at written u l ≡ (if u == t && l == k then value else entry_at memory u l)
  unfolding update
  written-entry u l h = ground arith

  inner-ne : (u : ℕ) → inner (owner u) ≡ true → u ≢ t
  inner-ne u inner_page e =
      let here : inner (owner t) ≡ true = rw (← e) inner_page in
      let impossible = rw role at here in cc

  written-inner :
      (u l : ℕ) → l < 512 → inner (owner u) ≡ true → entry_at written u l ≡ entry_at memory u l
  written-inner u l h inner_page = ground (arith, written-entry u l h, inner-ne u inner_page)

  next-written : (u l : ℕ) → l < 512 → inner (owner u) ≡ true → next written u l ≡ next memory u l
  unfolding next
  next-written u l h inner_page = rw (written-inner u l h inner_page)

  pub written-IsTree : IsTree top owner written
  written-IsTree = record {
    top_owner = tree.top_owner;
    top_tables = λ l h. rw (written-inner top l h (rw tree.top_owner refl)) (tree.top_tables l h);
    linked = λ u l inner_page h. rw (written-inner u l h inner_page) (tree.linked u l inner_page h);
  }

  -- Behind the entries `i'` and `j'` stands another page than `t`, or they are `i` and `j`.
  leaf_at-written :
      walk memory top i j ≡ some t
      → (i' j' k' : ℕ) → i' < 512
      → j' < 512
      → k' < 512
      → (o : Option ℕ) → walk memory top i' j' ≡ o
      → ((v : ℕ) → o ≡ some v → owner v ≡ level3 i' j')
      → leaf_at written o k'
        ≡ (if (i' == i) && (j' == j) && (k' == k) then value else leaf_at memory o k')
  leaf_at-written found i' j' k' hi hj hk none e role' =
      elim (Bool-cases ((i' == i) && (j' == j))) [
        | inl same ↦ absurd (ground arith)
        | inr differ ↦ ground arith
      ]
  leaf_at-written found i' j' k' hi hj hk (some v) e role' =
      elim (Bool-cases ((i' == i) && (j' == j))) [
        | inl same ↦ let arrived : v ≡ t = ground arith in ground (arith, written-entry v k' hk)
        | inr differ ↦
            let elsewhere : v ≢ t = λ at_t. ground (arith, role' v refl, ap owner at_t) in
            ground (arith, written-entry v k' hk)
      ]

  walk-written : (i' j' : ℕ) → i' < 512 → j' < 512 → walk written top i' j' ≡ walk memory top i' j'
  walk-written i' j' hi hj =
      rw (next-written top i' hi (rw tree.top_owner refl))
        (elim (Option-cases (next memory top i')) [
          | inl stop ↦ rw stop
          | inr (u, e) ↦ rw e (
              next-written u j' hj
                (rw (next-child top i' u tree (rw tree.top_owner refl) hi e, tree.top_owner) refl))
        ])

  -- The write changes one leaf of the tree.
  pub leaf-written :
      walk memory top i j ≡ some t
      → (i' j' k' : ℕ) → i' < 512
      → j' < 512
      → k' < 512
      → leaf written top i' j' k'
        ≡ (if (i' == i) && (j' == j) && (k' == k) then value else leaf memory top i' j' k')
  unfolding leaf
  leaf-written found i' j' k' hi hj hk =
      ap (λ (o : Option ℕ). leaf_at written o k') (walk-written i' j' hi hj)
      ∙ leaf_at-written found i' j' k' hi hj hk (walk memory top i' j') refl
          (λ v. walk-role tree i' j' v hi hj)
