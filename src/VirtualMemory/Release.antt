-- ===== src/VirtualMemory/Release.antt =====
-- `free_page` of kernel/memory/virtual_memory.cpp, and a round of the rollback of `allocate_pages`, at
-- a marked page: they leave the same state.
use planetoid_os.Base.{
  ℕ, ◌*◌, ◌^◌, ◌<◌, ◌≡◌, ◌≢◌, refl, sym, ap, ◌∙◌, inl, inr, true, false, arith, ◌==◌, if◌then◌else◌,
  ne→==, Bool-cases,
}
use planetoid_os.Bitmap.{set_frame_free}
use planetoid_os.Bitmap.Marks.{set_frame_free-IsBytes, is_frame_used-set_frame_free}
use planetoid_os.Descriptor.Fields.{low_twelve}
use planetoid_os.PhysicalMemory.{Platform}
use planetoid_os.PhysicalMemory.Allocate.{available}
use planetoid_os.PhysicalMemory.Free.{free_frame-available, free_frame-count}
use planetoid_os.Mmu.{unmap_page}
use planetoid_os.Mmu.Tree.{IsMmu, get_physical_address-leaf}
use planetoid_os.Mmu.Entry.{address_of, leaf_of, same_page, resolve-zero}
use planetoid_os.Mmu.Unmap.{IsRemoved, unmap_page_lem}
use planetoid_os.VirtualMemory.{
  VirtualMemory, page_address, page_of, out_of_range, give_back, free_page,
}
use planetoid_os.VirtualMemory.Pages.{same_page-page_address, page_address-aligned}
use planetoid_os.VirtualMemory.Back.{give_back-IsMmu}
use planetoid_os.VirtualMemory.Invariant.{is_marked, frame_behind, IsHeld, IsVirtual, kept-IsHeld}

-- The page is no longer marked nor mapped, its frame is free, and all else is as before.
pub record IsFreed (p : Platform) (top page : ℕ) (v v' : VirtualMemory) : Type 0 where
  pub virtual : IsVirtual p top v'
  pub marks : (q : ℕ) → is_marked v' q ≡ (if page == q then false else is_marked v q)
  pub translated :
      (vb : ℕ)
      → address_of top v'.mmu vb
        ≡ (if same_page (page_address page) vb then 0 else address_of top v.mmu vb)
  pub freed :
      (b : ℕ)
      → available p v'.mmu.physical b
        ≡ (if frame_behind top v page == b then true else available p v.mmu.physical b)

module _ (p : Platform) (top page : ℕ) (v : VirtualMemory) where
  -- A round of the rollback.
  unfoldable pub released : VirtualMemory
  released = record {
    virtual_bitmap = set_frame_free v.virtual_bitmap page;
    mmu =
        give_back p (top * 4096) (frame_behind top v page)
          (unmap_page (top * 4096) (page_address page) v.mmu).1;
  }

  module _ (virtual : IsVirtual p top v) (in_range : page < 4096)
      (marked : is_marked v page ≡ true) where
    here-IsHeld : IsHeld p virtual.roles v.mmu (frame_behind top v page)
    here-IsHeld = virtual.held page in_range marked

    leaf-nonzero : leaf_of top v.mmu (page_address page) ≢ 0
    leaf-nonzero e =
        here-IsHeld.nonzero
          (get_physical_address-leaf v.mmu.memory top (page_address page) ∙ rw e (resolve-zero _))

    pub unmaps :
        ((unmap_page (top * 4096) (page_address page) v.mmu).0 ≡ true)
        × IsRemoved p top virtual.roles v.mmu
            (page_address page)
            (unmap_page (top * 4096) (page_address page) v.mmu).1
    unmaps = elim (unmap_page_lem p top v.mmu virtual.roles (page_address page) virtual.mmu) [
      | inl done ↦ done
      | inr (e, same, inl misaligned) ↦ absurd (misaligned (page_address-aligned page in_range))
      | inr (e, same, inr empty) ↦ absurd (leaf-nonzero empty)
    ]

    frame-small : frame_behind top v page < 2 ^ 48
    frame-small = ground (arith, here-IsHeld.is_managed, virtual.mmu.addressable)

    left-IsHeld :
        (frame : ℕ)
        → IsHeld p virtual.roles v.mmu frame
        → IsHeld p unmaps.1.kept.roles (unmap_page (top * 4096) (page_address page) v.mmu).1 frame
    left-IsHeld frame = kept-IsHeld unmaps.1.kept frame

    pub free-available :
        (b : ℕ)
        → available p released.mmu.physical b
          ≡ (if frame_behind top v page == b then true else available p v.mmu.physical b)
    unfolding released
    free-available b = rw unmaps.1.same_physical (
        ground (
          arith,
          here-IsHeld.is_managed,
          free_frame-available p v.mmu.physical virtual.mmu.allocator (frame_behind top v page) b
              (omega (arith, frame-small)),
        ))

    pub marked-released :
        (q : ℕ) → is_marked released q ≡ (if page == q then false else is_marked v q)
    unfolding released
    marked-released q = is_frame_used-set_frame_free v.virtual_bitmap page virtual.bytes q

    address_of-released :
        (vb : ℕ)
        → address_of top released.mmu vb
          ≡ (if same_page (page_address page) vb then 0 else address_of top v.mmu vb)
    unfolding released
    address_of-released vb = unmaps.1.translated vb

    released-IsMmu : IsMmu p top unmaps.1.kept.roles released.mmu
    unfolding released
    released-IsMmu =
        give_back-IsMmu p top unmaps.1.kept.roles _ (frame_behind top v page) unmaps.1.kept.mmu
          here-IsHeld.nonzero (omega (arith, frame-small)) (left-IsHeld _ here-IsHeld).no_table

    -- A held frame other than that of the page stays held.
    released-IsHeld :
        (frame : ℕ)
        → IsHeld p virtual.roles v.mmu frame
        → frame_behind top v page ≢ frame
        → IsHeld p unmaps.1.kept.roles released.mmu frame
    unfolding released
    released-IsHeld frame held differ = record {
      is_managed =
          rw (free_frame-count p _ unmaps.1.kept.mmu.allocator (frame_behind top v page))
            (left-IsHeld frame held).is_managed;
      is_used = free-available frame ∙ ground (arith, held.is_used);
      no_table = (left-IsHeld frame held).no_table;
      nonzero = held.nonzero;
    }

    other-marked : (q : ℕ) → is_marked released q ≡ true → (page ≢ q) × (is_marked v q ≡ true)
    other-marked q m = ground (arith, marked-released q)

    frame-released :
        (q : ℕ) → q < 4096 → page ≢ q → frame_behind top released q ≡ frame_behind top v q
    frame-released q h differ =
        address_of-released (page_address q)
        ∙ rw (same_page-page_address page q in_range h, ne→== page q differ) refl

    pub released-IsVirtual : IsVirtual p top released
    released-IsVirtual = record {
      roles = unmaps.1.kept.roles;
      mmu = released-IsMmu;
      bytes = unfold released in set_frame_free-IsBytes v.virtual_bitmap page virtual.bytes;
      held = λ q h m.
          let (differ, was) = other-marked q m in
          rw (frame-released q h differ) (
            released-IsHeld _ (virtual.held q h was)
              (λ e. differ (virtual.apart page q in_range h marked was e)));
      apart = λ q r hq hr mq mr e.
          let (dq, wq) = other-marked q mq in
          let (dr, wr) = other-marked r mr in
          virtual.apart q r hq hr wq wr (sym (frame-released q hq dq) ∙ e ∙ frame-released r hr dr);
      unmapped = λ q vb h free on. elim (Bool-cases (same_page (page_address page) vb)) [
        | inl on_page ↦ address_of-released vb ∙ rw on_page refl
        | inr off_page ↦
            let differ : page ≢ q =
              λ (e : page ≡ q). cc (ap (λ (k : ℕ). same_page (page_address k) vb) e) in
            address_of-released vb
            ∙ rw off_page (virtual.unmapped q vb h (ground (arith, marked-released q)) on)
      ];
    }

    pub released-IsFreed : IsFreed p top page v released
    released-IsFreed = record {
      virtual = released-IsVirtual;
      marks = marked-released;
      translated = address_of-released;
      freed = free-available;
    }

    in-range : out_of_range (page_address page) ≡ false
    in-range = rw (low_twelve (page_address page), page_address-aligned page in_range) ground arith

    page_of-page_address : page_of (page_address page) ≡ page
    page_of-page_address = omega arith

    -- `free_page` succeeds at a marked page.
    pub free_page-marked : free_page p (top * 4096) (page_address page) v ≡ (true, released)
    unfolding free_page released
    free_page-marked =
        rw (in-range, page_of-page_address, marked, ne→== _ 0 here-IsHeld.nonzero, unmaps.0) refl
