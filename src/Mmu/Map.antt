-- ===== src/Mmu/Map.antt =====
-- `map_page` of kernel/memory/mmu.cpp against `get_physical_address`.
use planetoid_os.Base.{
  ℕ, ◌+◌, ◌*◌, ◌/◌, ◌%◌, ◌^◌, ◌<◌, ◌≡◌, refl, sym, ap, ◌∙◌, subst, ◌⊎◌, inl, inr, Bool, true, false,
  not, ◌||◌, some, arith, ◌==◌, if◌then◌else◌, ==→eq, ==→ne, ne→==, Bool-cases,
}
use planetoid_os.Descriptor.{get_level1_index, get_level2_index, get_level3_index}
use planetoid_os.Descriptor.Fields.{IsPermissions, level1-lt, level2-lt, level3-lt, low_twelve}
use planetoid_os.PhysicalMemory.{Platform}
use planetoid_os.Mmu.{
  Mmu, MemoryType, map_entry, map_page, get_or_create_level2_table, get_or_create_level3_table,
}
use planetoid_os.Mmu.Tree.{Role, level2, level3, entry_at, IsMmu, next, walk, leaf}
use planetoid_os.Mmu.Grow.{
  IsGrowth, Grows, get_or_create_level2_table-Grows, get_or_create_level3_table-Grows,
}
use planetoid_os.Mmu.Entry.{
  address_of, leaf_of, same_page, synchronised, IsKept, IsMapped, IsRefused, misaligned, mapped,
  no_frame, block, IsUnmapped, same_leaf, map_entry-entered, entered-IsMapped,
}

module _ (p : Platform) (top : ℕ) where
  growth-IsKept :
      {owner : ℕ → Role} {s : Mmu} {t j : ℕ} {r : ℕ × Mmu}
      → IsGrowth p top owner s t j r
      → IsKept p top owner s r.1
  growth-IsKept g = record {
    roles = g.roles;
    mmu = g.mmu;
    only_takes = g.only_takes;
    keeps_others = g.keeps_others;
    same_count = g.same_count;
  }

  growth-address_of :
      {owner : ℕ → Role} {s : Mmu} {t j : ℕ} {r : ℕ × Mmu}
      → IsGrowth p top owner s t j r
      → (vb : ℕ) → address_of top r.1 vb ≡ address_of top s vb
  growth-address_of {s} {r} g vb =
      same_leaf p top s r.1 vb (g.same_leaves _ _ _ (level1-lt vb) (level2-lt vb) (level3-lt vb))

  IsKept-trans :
      {owner : ℕ → Role} {s s' s'' : Mmu} (first : IsKept p top owner s s')
      → IsKept p top first.roles s' s''
      → IsKept p top owner s s''
  IsKept-trans first second = record {
    roles = second.roles;
    mmu = second.mmu;
    only_takes = λ b h. first.only_takes b (second.only_takes b h);
    keeps_others = λ u h unavailable.
        second.keeps_others u (first.keeps_others u h unavailable)
          (ground (arith, first.only_takes (u * 4096)));
    same_count = second.same_count ∙ first.same_count;
  }

  -- What `map_page` may do, as its result and its last state.
  abbrev pub Maps : (owner : ℕ → Role) (s : Mmu) (va pa : ℕ) → Bool × Mmu → Type 0
  Maps owner s va pa r =
      ((r.0 ≡ true) × IsMapped p top owner s va pa r.1)
      ⊎ ((r.0 ≡ false) × IsUnmapped p top owner s va pa r.1)

  -- A step that keeps every translation may come before.
  Maps-after :
      {owner : ℕ → Role} {s s' : Mmu} {va pa : ℕ} {r : Bool × Mmu} (kept : IsKept p top owner s s')
      → ((vb : ℕ) → address_of top s' vb ≡ address_of top s vb)
      → s'.maintenance ≡ s.maintenance
      → Maps kept.roles s' va pa r
      → Maps owner s va pa r
  Maps-after {va} {pa} kept same silent (inl (e, m)) = inl (
    e,
    record {
      kept = IsKept-trans kept m.kept;
      aligned = m.aligned;
      was_free = sym (same va) ∙ m.was_free;
      translated = λ vb.
          m.translated vb ∙ ap (λ (a : ℕ). if same_page va vb then pa + vb % 4096 else a) (same vb);
      fenced = m.fenced ∙ ap (synchronised va) silent;
    },
  )
  Maps-after kept same silent (inr (e, m)) = inr (
    e,
    record {
      kept = IsKept-trans kept m.kept;
      reason = m.reason;
      translated = λ vb. m.translated vb ∙ same vb;
      silent = m.silent ∙ silent;
    },
  )

module _ (p : Platform) (top va pa permissions : ℕ) (type : MemoryType)
    (clear : IsPermissions permissions) (small : pa < 2 ^ 48) where
  refused :
      (s : Mmu) (owner : ℕ → Role)
      → IsMmu p top owner s
      → IsRefused p top va pa s
      → Maps p top owner s va pa (false, s)
  refused s owner mmu reason = inr (
    refl,
    record {
      kept = record {
        roles = owner;
        mmu = mmu;
        only_takes = λ b h. h;
        keeps_others = λ u h unavailable. h;
        same_count = refl;
      };
      reason = reason;
      translated = λ vb. refl;
      silent = refl;
    },
  )

  map_entry-full :
      (s : Mmu) (t : ℕ)
      → (entry_at s.memory t (get_level3_index va) == 0) ≡ false
      → map_entry p (top * 4096) (t * 4096) va pa type permissions s ≡ (false, s)
  unfolding map_entry
  map_entry-full s t full = rw full

  leaf-found :
      (s : Mmu) (t : ℕ)
      → walk s.memory top (get_level1_index va) (get_level2_index va) ≡ some t
      → leaf_of top s va ≡ entry_at s.memory t (get_level3_index va)
  unfolding leaf
  leaf-found s t found = rw found

  map_entry-Maps :
      (s : Mmu) (owner : ℕ → Role) (mmu : IsMmu p top owner s) (t : ℕ)
      → va % 4096 ≡ 0
      → pa % 4096 ≡ 0
      → owner t ≡ level3 (get_level1_index va) (get_level2_index va)
      → walk s.memory top (get_level1_index va) (get_level2_index va) ≡ some t
      → Maps p top owner s va pa (map_entry p (top * 4096) (t * 4096) va pa type permissions s)
  map_entry-Maps s owner mmu t va_aligned pa_aligned role found =
      elim (Bool-cases (entry_at s.memory t (get_level3_index va) == 0)) [
        | inl empty ↦
            let e = ==→eq _ 0 empty in
            rw
              (map_entry-entered p top s mmu va pa permissions type clear va_aligned pa_aligned
                small t role found e)
              (inl (
                refl,
                entered-IsMapped p top s mmu va pa permissions type clear va_aligned pa_aligned
                    small t role found e,
              ))
        | inr full ↦
            rw (map_entry-full s t full)
              (refused s owner mmu (mapped (λ e. ==→ne _ 0 full (sym (leaf-found s t found) ∙ e))))
      ]

  -- `map_page` from the level 3 table on, and from the level 2 table on.
  abbrev with_level3 : ℕ × Mmu → Bool × Mmu
  with_level3 r =
      if r.0 == 0 then (false, r.1) else map_entry p (top * 4096) r.0 va pa type permissions r.1

  abbrev with_level2 : ℕ × Mmu → Bool × Mmu
  with_level2 r =
      if r.0 == 0
      then (false, r.1)
      else with_level3 (get_or_create_level3_table p (top * 4096) r.0 va r.1)

  map_page-stages :
      (s : Mmu)
      → map_page p (top * 4096) va pa type permissions s ≡ (
          if not (va % 4096 == 0) || not (pa % 4096 == 0)
          then (false, s)
          else with_level2 (get_or_create_level2_table p (top * 4096) va s))
  unfolding map_page
  map_page-stages s = rw (low_twelve va, low_twelve pa)

  module _ (va_aligned : va % 4096 ≡ 0) (pa_aligned : pa % 4096 ≡ 0) where
    with_level3-Maps :
        (s : Mmu) (owner : ℕ → Role) (mmu : IsMmu p top owner s) (t : ℕ) (r : ℕ × Mmu)
        → next s.memory top (get_level1_index va) ≡ some t
        → owner t ≡ level2 (get_level1_index va)
        → Grows p top owner s t (get_level2_index va) r
        → Maps p top owner s va pa (with_level3 r)
    unfolding growth-IsKept
    with_level3-Maps s owner mmu t r step role (inl (failed, same, reason)) =
        rw (failed, same)
          (refused s owner mmu (elim reason [
            | inl none_free ↦ no_frame none_free
            | inr (nonzero, not_table) ↦ block t step nonzero not_table
          ]))
    with_level3-Maps s owner mmu t r step role (inr g) = rw (ne→== r.0 0 g.nonzero) (
        Maps-after p top (growth-IsKept p top g) (growth-address_of p top g) g.same_maintenance (
          subst
            (λ a.
              Maps p top g.roles r.1 va pa (map_entry p (top * 4096) a va pa type permissions r.1))
            g.page
            (map_entry-Maps r.1 g.roles g.mmu (r.0 / 4096) va_aligned pa_aligned
              (g.role ∙ rw role refl)
              (rw
                (g.keeps_tables top (get_level1_index va) t (λ e. cc (mmu.tree.top_owner))
                  (level1-lt va) step)
                g.leads))))

    with_level2-Maps :
        (s : Mmu) (owner : ℕ → Role) (mmu : IsMmu p top owner s) (r : ℕ × Mmu)
        → Grows p top owner s top (get_level1_index va) r
        → Maps p top owner s va pa (with_level2 r)
    unfolding growth-IsKept
    with_level2-Maps s owner mmu r (inl (failed, same, reason)) =
        rw (failed, same)
          (refused s owner mmu (elim reason [
            | inl none_free ↦ no_frame none_free
            | inr (nonzero, not_table) ↦ absurd (
                not_table
                  (==→eq _ 0b11 (mmu.tree.top_tables (get_level1_index va) (level1-lt va) nonzero)))
          ]))
    with_level2-Maps s owner mmu r (inr g) = rw (ne→== r.0 0 g.nonzero) (
        Maps-after p top (growth-IsKept p top g) (growth-address_of p top g) g.same_maintenance (
          subst
            (λ a.
              Maps p top g.roles r.1 va pa
                (with_level3 (get_or_create_level3_table p (top * 4096) a va r.1)))
            g.page
            (with_level3-Maps r.1 g.roles g.mmu (r.0 / 4096) _ g.leads
              (g.role ∙ rw mmu.tree.top_owner refl)
              (get_or_create_level3_table-Grows p top g.roles r.1 g.mmu va (r.0 / 4096)
                (get_level1_index va) (g.role ∙ rw mmu.tree.top_owner refl)))))

  -- `map_page` on a well-formed state. If it returns true, the page was aligned and not mapped, and
  -- now it translates to the frame, every other address as before, with the barriers and the
  -- invalidation in order. If it returns false, there is a reason, and no translation changed.
  pub map_page_lem :
      (s : Mmu) (owner : ℕ → Role)
      → IsMmu p top owner s
      → Maps p top owner s va pa (map_page p (top * 4096) va pa type permissions s)
  map_page_lem s owner mmu = rw (map_page-stages s) (elim (Bool-cases (va % 4096 == 0)) [
    | inl va_ok ↦ elim (Bool-cases (pa % 4096 == 0)) [
      | inl pa_ok ↦
          rw (va_ok, pa_ok)
            (with_level2-Maps (==→eq _ 0 va_ok) (==→eq _ 0 pa_ok) s owner mmu _
              (get_or_create_level2_table-Grows p top owner s mmu va))
      | inr pa_bad ↦ rw (va_ok, pa_bad) (refused s owner mmu (misaligned (inr (==→ne _ 0 pa_bad))))
    ]
    | inr va_bad ↦ rw va_bad (refused s owner mmu (misaligned (inl (==→ne _ 0 va_bad))))
  ])
