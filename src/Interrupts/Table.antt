-- ===== src/Interrupts/Table.antt =====
-- The table of kernel/core/interrupts.cpp as a map from interrupt to handler.
use planetoid_os.Base.{
  ℕ, zero, suc, ◌+◌, ◌≤◌, ◌<◌, ◌≡◌, ◌≢◌, refl, ◌⊎◌, inl, inr, true, false, ◌&&◌, Option, none, some,
  arith, ltb, leb, ◌==◌, if◌then◌else◌, Bool-cases, Option-cases, update, for_range,
}
use planetoid_os.Interrupts.{
  Handler, Handlers, init, register_handler, unregister_handler, dispatch_interrupt,
}

init_loop :
    {S : Type 0} (n i : ℕ) (table : Handlers S) (j : ℕ)
    → for_range n i (λ k t. update t k none) table j
      ≡ (if leb i j && ltb j (i + n) then none else table j)
unfolding for_range update
init_loop zero i table j = ground arith
init_loop (suc n) i table j = ground (arith, init_loop n (i + 1) (update table i none) j)

module _ (S : Type 0) (table : Handlers S) where
  -- After `init` no interrupt that can be registered has a handler, so its dispatch does nothing.
  pub dispatch_interrupt-init :
      (interrupt_id : ℕ) (state : S)
      → dispatch_interrupt S interrupt_id (init S table) state ≡ state
  unfolding dispatch_interrupt init
  dispatch_interrupt-init interrupt_id state = ground (arith, init_loop 1024 0 table interrupt_id)

  dispatch_interrupt-update :
      (h : Handler S) (interrupt_id other : ℕ) (state : S)
      → interrupt_id < 1024
      → dispatch_interrupt S other (update table interrupt_id (some h)) state
        ≡ (if other == interrupt_id then h other state else dispatch_interrupt S other table state)
  unfolding dispatch_interrupt update
  dispatch_interrupt-update h interrupt_id other state small = ground arith

  -- A handler is registered exactly if the interrupt exists, the pointer is not null and the slot
  -- is free; then its interrupt calls it, and every other one does what it did. A refused call
  -- leaves the table as it was.
  pub register_handler_lem :
      (interrupt_id : ℕ) (handler : Option (Handler S))
      → let r = register_handler S interrupt_id handler table in
        ((r.0 ≡ false)
          × (r.1 ≡ table)
          × ((1024 ≤ interrupt_id) ⊎ ((handler ≡ none) ⊎ (table interrupt_id ≢ none))))
        ⊎ ((h : Handler S) × (handler ≡ some h)
            × (r.0 ≡ true)
            × (interrupt_id < 1024)
            × (table interrupt_id ≡ none)
            × ((other : ℕ) (state : S)
                → dispatch_interrupt S other r.1 state ≡ (
                    if other == interrupt_id
                    then h other state
                    else dispatch_interrupt S other table state)))
  unfolding register_handler
  register_handler_lem interrupt_id none = inl (ground arith, ground arith, inr (inl refl))
  register_handler_lem interrupt_id (some h) = elim (Bool-cases (leb 1024 interrupt_id)) [
    | inl large ↦ rw large (inl (refl, refl, inl (ground arith)))
    | inr small ↦ rw small (elim (Option-cases (table interrupt_id)) [
      | inl empty ↦ rw empty (
          inr (
            h,
            refl,
            refl,
            ground arith,
            refl,
            λ other state. dispatch_interrupt-update h interrupt_id other state (ground arith),
          ))
      | inr (g, full) ↦ rw full (inl (refl, refl, inr (inr (λ e. cc))))
    ])
  ]

  -- Unregistering a handler that was just registered gives back the table.
  pub unregister_handler-register_handler :
      (interrupt_id : ℕ) (handler : Option (Handler S))
      → let r = register_handler S interrupt_id handler table in
        r.0 ≡ true
        → let u = unregister_handler S interrupt_id r.1 in
          (u.0 ≡ true) × ((other : ℕ) → u.1 other ≡ table other)
  unfolding register_handler unregister_handler update
  unregister_handler-register_handler interrupt_id none h = absurd (ground arith)
  unregister_handler-register_handler interrupt_id (some f) h =
      (ground arith, λ other. ground arith)
