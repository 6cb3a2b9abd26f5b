-- ===== src/VirtualMemory/Reach.antt =====
-- Sequences of calls of kernel/memory/virtual_memory.cpp, with frames that other callers take from
-- kernel/memory/physical_memory.cpp in between.
use planetoid_os.Base.{
  ℕ, zero, suc, ◌+◌, ◌*◌, ◌/◌, ◌<◌, ◌≡◌, refl, sym, ◌∙◌, subst, inl, inr, true, false, ◌&&◌, arith,
  ltb, leb, if◌then◌else◌, update, for_range,
}
use planetoid_os.Bitmap.{Bitmap}
use planetoid_os.Bitmap.Marks.{IsBytes, is_frame_used-zero}
use planetoid_os.PhysicalMemory.{Platform, allocate_frame}
use planetoid_os.PhysicalMemory.Allocate.{allocate_frame_lem}
use planetoid_os.Mmu.Tree.{Role, IsMmu}
use planetoid_os.Mmu.Entry.{address_of, same_page}
use planetoid_os.VirtualMemory.{
  VirtualMemory, init, page_address, page_of, allocate_page, allocate_pages, free_page, free_pages,
}
use planetoid_os.VirtualMemory.Pages.{page_address_lem}
use planetoid_os.VirtualMemory.Back.{IsKept-refl, frame_taken-IsMmu, taken-IsKept}
use planetoid_os.VirtualMemory.Allocate.{allocate_page_lem}
use planetoid_os.VirtualMemory.Free.{free_page_lem}
use planetoid_os.VirtualMemory.Invariant.{
  is_marked, IsVirtual, unbacked-IsVirtual, backed-IsVirtual,
}
use planetoid_os.VirtualMemory.Release.{released-IsVirtual, free_page-marked}
use planetoid_os.VirtualMemory.AllocatePages.{allocate_pages_lem}
use planetoid_os.VirtualMemory.FreePages.{page_address-page_of, free_pages_lem}

module _ (p : Platform) (top : ℕ) where
  -- Another caller takes a frame.
  abbrev pub with_frame_taken : VirtualMemory → VirtualMemory
  with_frame_taken v = record v {
    mmu = record (v.mmu) { physical = (allocate_frame p v.mmu.physical).1 };
  }

  -- One call and the state that it leaves.
  pub data Call : VirtualMemory → VirtualMemory → Type 0 where
    allocate_one : (v : VirtualMemory) → Call v (allocate_page p (top * 4096) v).1
    allocate_run :
        (count : ℕ) (v : VirtualMemory) → Call v (allocate_pages p (top * 4096) count v).1
    free_one : (va : ℕ) (v : VirtualMemory) → Call v (free_page p (top * 4096) va v).1
    free_run : (va count : ℕ) (v : VirtualMemory) → Call v (free_pages p (top * 4096) va count v).1
    take_frame : (v : VirtualMemory) → Call v (with_frame_taken v)

  pub data Calls (v : VirtualMemory) : VirtualMemory → Type 0 where
    none_yet : Calls v v
    then_call : {v' v'' : VirtualMemory} → Calls v v' → Call v' v'' → Calls v v''

  pub allocate_page-IsVirtual :
      (v : VirtualMemory) → IsVirtual p top v → IsVirtual p top (allocate_page p (top * 4096) v).1
  allocate_page-IsVirtual v virtual = elim (allocate_page_lem p top virtual.roles v virtual.mmu) [
    | inl (page, h, address, unmarked, backed) ↦ backed-IsVirtual virtual page h backed
    | inr (e, unbacked) ↦ unbacked-IsVirtual virtual unbacked
  ]

  free_page-IsVirtual :
      (va : ℕ) (v : VirtualMemory)
      → IsVirtual p top v
      → IsVirtual p top (free_page p (top * 4096) va v).1
  free_page-IsVirtual va v virtual = elim (free_page_lem p top va virtual.roles v virtual.mmu) [
    | inr (e, same) ↦ rw same virtual
    | inl (e, inside, r) ↦
        let (h, address) = page_address-page_of p top va inside in
        let same : page_address (page_of va) ≡ va = page_address_lem _ h ∙ sym address in
        subst (λ (a : ℕ). IsVirtual p top (free_page p (top * 4096) a v).1) same
          (rw (free_page-marked p top (page_of va) v virtual h r.was_used)
            (released-IsVirtual p top (page_of va) v virtual h r.was_used))
  ]

  taken-IsVirtual : (v : VirtualMemory) → IsVirtual p top v → IsVirtual p top (with_frame_taken v)
  taken-IsVirtual v virtual = elim (allocate_frame_lem p v.mmu.physical virtual.mmu.allocator) [
    | inl (nonzero, taken) ↦ unbacked-IsVirtual virtual (record {
      kept =
          taken-IsKept p top virtual.roles v.mmu virtual.mmu taken
            (IsKept-refl (frame_taken-IsMmu p top virtual.roles v.mmu virtual.mmu taken));
      translated = λ vb. refl;
      unmarked = refl;
    })
    | inr (none_free, e) ↦ rw e virtual
  ]

  Call-IsVirtual : {v v' : VirtualMemory} → Call v v' → IsVirtual p top v → IsVirtual p top v'
  Call-IsVirtual (allocate_one v) virtual = allocate_page-IsVirtual v virtual
  Call-IsVirtual (allocate_run count v) virtual = elim (allocate_pages_lem p top count v virtual) [
    | inl (first, run) ↦ run.filled.virtual
    | inr (e, restored) ↦ restored.virtual
  ]
  Call-IsVirtual (free_one va v) virtual = free_page-IsVirtual va v virtual
  Call-IsVirtual (free_run va count v) virtual = elim (free_pages_lem p top va count v virtual) [
    | inl (first, run, e, cleared) ↦ cleared.virtual
    | inr (e, same, none_there) ↦ rw same virtual
  ]
  Call-IsVirtual (take_frame v) virtual = taken-IsVirtual v virtual

  Calls-IsVirtual : {v v' : VirtualMemory} → Calls v v' → IsVirtual p top v → IsVirtual p top v'
  Calls-IsVirtual none_yet virtual = virtual
  Calls-IsVirtual (then_call before call) virtual =
      Call-IsVirtual call (Calls-IsVirtual before virtual)

  clear_loop :
      (n i : ℕ) (bitmap : Bitmap) (j : ℕ)
      → for_range n i (λ k b. update b k 0) bitmap j
        ≡ (if leb i j && ltb j (i + n) then 0 else bitmap j)
  unfolding for_range update
  clear_loop zero i bitmap j = ground arith
  clear_loop (suc n) i bitmap j = ground (arith, clear_loop n (i + 1) (update bitmap i 0) j)

  init-marked : (v : VirtualMemory) (page : ℕ) → page < 4096 → is_marked (init v) page ≡ false
  unfolding init
  init-marked v page h =
      is_frame_used-zero _ page (clear_loop 512 0 v.virtual_bitmap (page / 8) ∙ ground arith)

  pub init-IsVirtual :
      (roles : ℕ → Role) (v : VirtualMemory)
      → IsMmu p top roles v.mmu
      → IsBytes v.virtual_bitmap
      → ((page vb : ℕ)
          → page < 4096
          → same_page (page_address page) vb ≡ true
          → address_of top v.mmu vb ≡ 0)
      → IsVirtual p top (init v)
  init-IsVirtual roles v mmu bytes unmapped = record {
    roles = roles;
    mmu = unfold init in mmu;
    bytes = unfold init in λ i. ground (arith, clear_loop 512 0 v.virtual_bitmap i, bytes i);
    held = λ page h marked. cc (init-marked v page h);
    apart = λ page q h h' marked marked' e. cc (init-marked v page h);
    unmapped = λ page vb h free same. unfold init in unmapped page vb h same;
  }

  -- From `init`, on well-formed tables that map no page of the range, every sequence of calls keeps
  -- the invariant: a page is mapped exactly when it is marked, to a frame of its own that is in use
  -- and holds no table. Other callers may take frames in between.
  pub Calls-init-IsVirtual :
      (roles : ℕ → Role) (v v' : VirtualMemory)
      → IsMmu p top roles v.mmu
      → IsBytes v.virtual_bitmap
      → ((page vb : ℕ)
          → page < 4096
          → same_page (page_address page) vb ≡ true
          → address_of top v.mmu vb ≡ 0)
      → Calls (init v) v'
      → IsVirtual p top v'
  Calls-init-IsVirtual roles v v' mmu bytes unmapped calls =
      Calls-IsVirtual calls (init-IsVirtual roles v mmu bytes unmapped)
