-- ===== src/Interrupts.antt =====
-- kernel/core/interrupts.cpp: the table of handlers. A handler is what its call does to the state
-- `S` of the rest of the kernel; a null pointer is `none`.
pub mod Table
use planetoid_os.Base.{
  ℕ, Bool, true, false, Option, none, some, leb, if◌then◌else◌, update, for_range,
}

abbrev pub max_interrupts : ℕ
max_interrupts = 1024

module _ (S : Type 0) where
  -- The second argument of a handler, the exception context, is part of `S`.
  abbrev pub Handler : Type 0
  Handler = ℕ → S → S

  abbrev pub Handlers : Type 0
  Handlers = ℕ → Option Handler

  unfoldable pub init : Handlers → Handlers
  init handlers = for_range max_interrupts 0 (λ i table. update table i none) handlers

  unfoldable pub register_handler : ℕ → Option Handler → Handlers → Bool × Handlers
  register_handler interrupt_id handler handlers =
      if leb max_interrupts interrupt_id then (false, handlers) else elim handler [
        | none ↦ (false, handlers)
        | some h ↦ elim (handlers interrupt_id) [
          | some registered ↦ (false, handlers)
          | none ↦ (true, update handlers interrupt_id (some h))
        ]
      ]

  unfoldable pub unregister_handler : ℕ → Handlers → Bool × Handlers
  unregister_handler interrupt_id handlers =
      if leb max_interrupts interrupt_id then (false, handlers) else elim (handlers interrupt_id) [
        | none ↦ (false, handlers)
        | some registered ↦ (true, update handlers interrupt_id none)
      ]

  unfoldable pub dispatch_interrupt : ℕ → Handlers → S → S
  dispatch_interrupt interrupt_id handlers state =
      if leb max_interrupts interrupt_id
      then state
      else elim (handlers interrupt_id) [ none ↦ state | some handler ↦ handler interrupt_id state ]
