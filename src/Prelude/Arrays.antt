-- ===== src/Prelude/Arrays.antt =====
-- An array that a loop fills from the front: below the loop's index it holds the new values, from
-- the index on the old ones.
use Prim.Native.Nat.{ℕ, suc, ◌≤◌, ◌<◌}
use mathlib.Core.Path.{◌≡◌, refl, ◌∙◌}
use mathlib.Core.List.{List}
use mathlib.Core.Option.{some}
use native.Mathlib.Decide.{ℕ_discrete}
use native.Mathlib.Omega.{arith}
use sonny.Prelude.Lists.{
  length, get_elem?, get_or, set, length-set, get_or-set_self, get_or-set_ne, get_elem?-eq-get_or,
}

module _ {ℓ} {A : Type ℓ} (d : A) (xs : List A) (f : ℕ → A) where
  pub record Updated (i : ℕ) (ys : List A) : Type ℓ where
    pub size : length ys ≡ length xs
    pub filled : (j : ℕ) → j < i → get_or ys j d ≡ f j
    pub kept : (j : ℕ) → i ≤ j → get_or ys j d ≡ get_or xs j d

  pub Updated-start : Updated 0 xs
  Updated-start = record { size = refl; filled = λ j h. absurd (omega arith); kept = λ j h. refl }

  pub Updated-set :
      (i : ℕ) (ys : List A) → i < length xs → Updated i ys → Updated (suc i) (set ys i (f i))
  Updated-set i ys h u = record {
    size = length-set ys i (f i) ∙ u.size;
    filled = λ j hj. elim (ℕ_discrete i j) [
      | yes e ↦ rw (← e) (get_or-set_self ys i (f i) d (rw u.size h))
      | no ne ↦ get_or-set_ne ys i j (f i) d ne ∙ u.filled j (omega arith)
    ];
    kept = λ j hj. get_or-set_ne ys i j (f i) d (omega arith) ∙ u.kept j (omega arith);
  }

  -- The loop reads the old value at its index.
  pub Updated-read :
      (i : ℕ) (ys : List A) → i < length xs → Updated i ys → get_elem? ys i ≡ some (get_or xs i d)
  Updated-read i ys h u = get_elem?-eq-get_or ys i d (rw u.size h) ∙ rw (u.kept i (omega arith))
