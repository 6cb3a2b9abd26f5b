-- ===== src/VirtualMemory/Invariant.antt =====
-- The invariant of kernel/memory/virtual_memory.cpp: the marked pages are those that are mapped, each
-- to a frame of its own, which is in use and holds no table.
use planetoid_os.Base.{
  ℕ, ◌*◌, ◌/◌, ◌<◌, ◌≡◌, ◌≢◌, refl, sym, ap, ◌∙◌, inl, inr, Bool, true, false, arith, ◌==◌,
  if◌then◌else◌, ==→eq, ==→ne, Bool-cases,
}
use planetoid_os.Bitmap.{is_frame_used}
use planetoid_os.Bitmap.Marks.{IsBytes, set_frame_used-IsBytes, is_frame_used-set_frame_used}
use planetoid_os.PhysicalMemory.{Platform}
use planetoid_os.PhysicalMemory.Allocate.{managed, available}
use planetoid_os.Mmu.{Mmu}
use planetoid_os.Mmu.Tree.{Role, other, IsMmu}
use planetoid_os.Mmu.Entry.{address_of, same_page, IsKept}
use planetoid_os.VirtualMemory.{VirtualMemory, page_address}
use planetoid_os.VirtualMemory.Pages.{
  same_page_self, same_page_unique, same_page-page_address, page_address-aligned,
}
use planetoid_os.VirtualMemory.Back.{IsBacked, IsUnbacked}

abbrev pub is_marked : VirtualMemory → ℕ → Bool
is_marked v page = is_frame_used v.virtual_bitmap page

-- The frame that backs a page.
abbrev pub frame_behind : (top : ℕ) → VirtualMemory → ℕ → ℕ
frame_behind top v page = address_of top v.mmu (page_address page)

-- The frame is in use and holds no table.
pub record IsHeld (p : Platform) (owner : ℕ → Role) (s : Mmu) (frame : ℕ) : Type 0 where
  pub is_managed : managed p s.physical frame ≡ true
  pub is_used : available p s.physical frame ≡ false
  pub no_table : owner (frame / 4096) ≡ other
  pub nonzero : frame ≢ 0

pub record IsVirtual (p : Platform) (top : ℕ) (v : VirtualMemory) : Type 0 where
  pub roles : ℕ → Role
  pub mmu : IsMmu p top roles v.mmu
  pub bytes : IsBytes v.virtual_bitmap
  pub held :
      (page : ℕ)
      → page < 4096
      → is_marked v page ≡ true
      → IsHeld p roles v.mmu (frame_behind top v page)
  pub apart :
      (page q : ℕ)
      → page < 4096
      → q < 4096
      → is_marked v page ≡ true
      → is_marked v q ≡ true
      → frame_behind top v page ≡ frame_behind top v q
      → page ≡ q
  pub unmapped :
      (page vb : ℕ)
      → page < 4096
      → is_marked v page ≡ false
      → same_page (page_address page) vb ≡ true
      → address_of top v.mmu vb ≡ 0

module _ {p : Platform} {top : ℕ} {owner : ℕ → Role} {s s' : Mmu}
    (kept : IsKept p top owner s s') where
  -- A held frame stays held.
  pub kept-IsHeld : (frame : ℕ) → IsHeld p owner s frame → IsHeld p kept.roles s' frame
  kept-IsHeld frame h = record {
    is_managed = rw kept.same_count h.is_managed;
    is_used = ground (arith, kept.only_takes frame, h.is_used);
    no_table = kept.keeps_others (frame / 4096) h.no_table (
        let page : frame / 4096 * 4096 ≡ frame = ground (arith, h.is_managed) in rw page h.is_used);
    nonzero = h.nonzero;
  }

module _ {p : Platform} {top : ℕ} {v v' : VirtualMemory} (virtual : IsVirtual p top v) where
  -- After a failure of `back_page`.
  pub unbacked-IsVirtual : IsUnbacked p top virtual.roles v v' → IsVirtual p top v'
  unbacked-IsVirtual u = record {
    roles = u.kept.roles;
    mmu = u.kept.mmu;
    bytes = rw u.unmarked virtual.bytes;
    held = λ page h marked.
        rw (u.translated (page_address page))
          (kept-IsHeld u.kept _ (virtual.held page h (rw u.unmarked at marked)));
    apart = λ page q h h' m m' e.
        virtual.apart page q h h' (rw u.unmarked at m) (rw u.unmarked at m')
          (sym (u.translated (page_address page)) ∙ e ∙ u.translated (page_address q));
    unmapped = λ page vb h free on.
        u.translated vb ∙ virtual.unmapped page vb h (rw u.unmarked at free) on;
  }

  module _ (page : ℕ) (in_range : page < 4096) (b : IsBacked p top page virtual.roles v v') where
    pub marked-backed : (q : ℕ) → is_marked v' q ≡ (if page == q then true else is_marked v q)
    marked-backed q =
        rw b.marked (is_frame_used-set_frame_used v.virtual_bitmap page virtual.bytes q)

    pub frame-backed : frame_behind top v' page ≡ b.frame
    frame-backed =
        b.translated (page_address page)
        ∙ rw (same_page_self (page_address page), page_address-aligned page in_range) (omega arith)

    frame-other :
        (q : ℕ) → q < 4096 → (page == q) ≡ false → frame_behind top v' q ≡ frame_behind top v q
    frame-other q h differ =
        b.translated (page_address q) ∙ rw (same_page-page_address page q in_range h, differ) refl

    frame-IsHeld : IsHeld p b.kept.roles v'.mmu b.frame
    frame-IsHeld = record {
      is_managed = rw b.kept.same_count (ground (arith, b.was_free));
      is_used = b.now_used;
      no_table = b.no_table;
      nonzero = b.nonzero;
    }

    -- A page that was marked has another frame.
    frame-apart : (q : ℕ) → q < 4096 → is_marked v q ≡ true → frame_behind top v q ≢ b.frame
    frame-apart q h marked e =
        let used = (virtual.held q h marked).is_used in let free = rw (← e) at b.was_free in cc

    held-backed :
        (q : ℕ)
        → q < 4096
        → is_marked v' q ≡ true
        → IsHeld p b.kept.roles v'.mmu (frame_behind top v' q)
    held-backed q h marked = elim (Bool-cases (page == q)) [
      | inl here ↦ rw (← ==→eq page q here) (rw frame-backed frame-IsHeld)
      | inr elsewhere ↦
          rw (frame-other q h elsewhere)
            (kept-IsHeld b.kept _ (virtual.held q h (ground (arith, marked-backed q))))
    ]

    apart-backed :
        (q r : ℕ)
        → q < 4096
        → r < 4096
        → is_marked v' q ≡ true
        → is_marked v' r ≡ true
        → frame_behind top v' q ≡ frame_behind top v' r
        → q ≡ r
    apart-backed q r hq hr mq mr e = elim (Bool-cases (page == q)) [
      | inl here ↦ elim (Bool-cases (page == r)) [
        | inl there ↦ ground arith
        | inr elsewhere ↦ absurd (
            frame-apart r hr (ground (arith, marked-backed r)) (
              sym (frame-other r hr elsewhere)
              ∙ sym e
              ∙ ap (frame_behind top v') (sym (==→eq page q here))
              ∙ frame-backed))
      ]
      | inr elsewhere ↦ elim (Bool-cases (page == r)) [
        | inl there ↦ absurd (
            frame-apart q hq (ground (arith, marked-backed q)) (
              sym (frame-other q hq elsewhere)
              ∙ e
              ∙ ap (frame_behind top v') (sym (==→eq page r there))
              ∙ frame-backed))
        | inr other_page ↦
            virtual.apart q r hq hr (ground (arith, marked-backed q))
              (ground (arith, marked-backed r))
              (sym (frame-other q hq elsewhere) ∙ e ∙ frame-other r hr other_page)
      ]
    ]

    -- After a success of `back_page` at a page that was not marked.
    pub backed-IsVirtual : IsVirtual p top v'
    backed-IsVirtual = record {
      roles = b.kept.roles;
      mmu = b.kept.mmu;
      bytes = rw b.marked (set_frame_used-IsBytes v.virtual_bitmap page virtual.bytes);
      held = held-backed;
      apart = apart-backed;
      unmapped = λ q vb h free on. elim (Bool-cases (page == q)) [
        | inl here ↦ absurd (ground (arith, marked-backed q))
        | inr elsewhere ↦ elim (Bool-cases (same_page (page_address page) vb)) [
          | inl on_page ↦
              absurd (==→ne page q elsewhere (same_page_unique page q vb in_range h on_page on))
          | inr off_page ↦
              b.translated vb
              ∙ rw off_page (virtual.unmapped q vb h (ground (arith, marked-backed q)) on)
        ]
      ];
    }
