-- ===== src/Base/Memory.antt =====
-- Memory as a function from an index to what is stored there, and counted loops over it.
use Prim.Native.Nat.{ℕ, zero, suc, ◌+◌}
use mathlib.Core.Path.{◌≡◌, refl}
use mathlib.Core.Logic.{◌≢◌}
use planetoid_os.Base.Tests.{◌==◌, if◌then◌else◌, ne→==, eq→==}

module _ {ℓ} {A : Type ℓ} where
  -- `memory[i] = v`
  unfoldable pub update : (ℕ → A) → ℕ → A → ℕ → A
  update f i v j = if i == j then v else f j

  pub update_self : (f : ℕ → A) (i : ℕ) (v : A) → update f i v i ≡ v
  unfolding update
  update_self f i v = rw (eq→== i i refl)

  pub update-ne : (f : ℕ → A) (i : ℕ) (v : A) (j : ℕ) → i ≢ j → update f i v j ≡ f j
  unfolding update
  update-ne f i v j ne = rw (ne→== i j ne)

-- for (k = first; k < first + count; k++) state = body k state
unfoldable pub for_range {ℓ} : {S : Type ℓ} → (count first : ℕ) → (ℕ → S → S) → S → S
for_range zero first body state = state
for_range (suc count) first body state = for_range count (first + 1) body (body first state)
