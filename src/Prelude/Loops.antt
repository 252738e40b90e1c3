-- ===== src/Prelude/Loops.antt =====
-- `for i in a..b` over a state that the body updates; `none` is a panic of the body.
use Prim.Native.Nat.{ℕ, zero, suc, ◌+◌, ◌≤◌, ◌<◌}
use mathlib.Core.Path.{◌≡◌, refl}
use mathlib.Core.Option.{Option, none, some}
use native.Mathlib.Omega.{arith}
use sonny.Prelude.Tests.{Returns}

-- `n` rounds from index `i` on.
unfoldable pub for_range {ℓ} : {S : Type ℓ} → ℕ → ℕ → (ℕ → S → Option S) → S → Option S
for_range zero i body s = some s
for_range (suc n) i body s = elim (body i s) [ none ↦ none | some t ↦ for_range n (suc i) body t ]

module _ {ℓ κ} {S : Type ℓ} (P : ℕ → S → Type κ) (body : ℕ → S → Option S) where
  -- A body that returns and keeps the invariant makes a loop that returns and keeps it.
  pub for_range-Returns :
      (bound : ℕ)
      → ((i : ℕ) (s : S) → i < bound → P i s → Returns (P (suc i)) (body i s))
      → (n i j : ℕ) (s : S) → i + n ≡ j
      → j ≤ bound
      → P i s
      → Returns (P j) (for_range n i body s)
  unfolding for_range
  for_range-Returns bound keep zero i j s e b p =
      let e' : i ≡ j = omega arith in (s, refl, rw (← e') p)
  for_range-Returns bound keep (suc n) i j s e b p =
      let (t, eq, q) = keep i s (omega arith) p in
      let (u, eq', r) = for_range-Returns bound keep n (suc i) j t (omega arith) b q in
      (u, rw (eq, for_range) eq', r)
