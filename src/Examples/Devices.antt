-- ===== src/Examples/Devices.antt =====
-- A handler that counts, for kernel/core/interrupts.cpp.
use planetoid_os.Base.{
  ℕ, ◌+◌, ◌≤◌, ◌<◌, ◌≡◌, ◌≢◌, refl, ◌⊎◌, true, false, none, some, ◌==◌, if◌then◌else◌,
}
use planetoid_os.Interrupts.{Handler, Handlers, register_handler, dispatch_interrupt}
use planetoid_os.Interrupts.Table.{register_handler_lem}

abbrev no_handlers : Handlers ℕ
no_handlers i = none

abbrev count : Handler ℕ
count interrupt_id n = n + interrupt_id

register_handler_lem_example :
    let r = register_handler ℕ 30 (some count) no_handlers in
    ((r.0 ≡ false)
      × (r.1 ≡ no_handlers)
      × ((1024 ≤ 30) ⊎ ((some count ≡ none) ⊎ (no_handlers 30 ≢ none))))
    ⊎ ((h : Handler ℕ) × (some count ≡ some h)
        × (r.0 ≡ true)
        × (30 < 1024)
        × (no_handlers 30 ≡ none)
        × ((other : ℕ) (state : ℕ)
            → dispatch_interrupt ℕ other r.1 state ≡ (
                if other == 30
                then h other state
                else dispatch_interrupt ℕ other no_handlers state)))
register_handler_lem_example = register_handler_lem ℕ no_handlers 30 (some count)

registers : (register_handler ℕ 30 (some count) no_handlers).0 ≡ true
unfolding register_handler
registers = refl
