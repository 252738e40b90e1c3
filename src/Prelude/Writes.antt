-- ===== src/Prelude/Writes.antt =====
-- Slices copied into a list, and the lemmas on reads that follow them.
use Prim.Native.Nat.{ℕ, zero, suc, ◌+◌, ◌-◌, ◌≤◌, ◌<◌, compare, Ordering}
use native.Mathlib.Nat.{zero-add}
use mathlib.Core.Path.{◌≡◌, refl, ap, ◌∙◌}
use mathlib.Core.List.{List, [], ◌∷◌, ◌++◌, append_assoc}
use mathlib.Core.Option.{Option, none, some}
use native.Mathlib.Omega.{arith}
use sonny.Prelude.Lists.{
  length, get_or, set, take, drop, replicate, length-append, length-take, length-drop, take-append,
}

-- `dst[at..at + src.len()].copy_from_slice(src)`.
module _ {ℓ} {A : Type ℓ} where
  unfoldable pub overwrite : List A → ℕ → List A → List A
  overwrite dst at src = take at dst ++ (src ++ drop (at + length src) dst)

  -- The slice panics out of range.
  unfoldable pub copy_into : List A → ℕ → List A → Option (List A)
  copy_into dst at src = elim (compare (at + length src) (length dst)) [
    | Ordering.gt ↦ none
    | _ ↦ some (overwrite dst at src)
  ]

  pub length-overwrite :
      (dst : List A) (at : ℕ) (src : List A)
      → at + length src ≤ length dst
      → length (overwrite dst at src) ≡ length dst
  unfolding overwrite
  length-overwrite dst at src h = omega (
    arith,
    length-append (take at dst) (src ++ drop (at + length src) dst),
    length-append src (drop (at + length src) dst),
    length-take at dst,
    length-drop (at + length src) dst,
  )

  pub copy_into-fits :
      (dst : List A) (at : ℕ) (src : List A)
      → at + length src ≤ length dst
      → copy_into dst at src ≡ some (overwrite dst at src)
  unfolding copy_into
  copy_into-fits dst at src h = ground arith

  pub drop-append_add :
      (done rest : List A) (k : ℕ) → drop (length done + k) (done ++ rest) ≡ drop k rest
  drop-append_add [] rest k = rw zero-add
  drop-append_add (x ∷ done) rest k =
      let e : suc (length done) + k ≡ suc (length done + k) = omega arith in
      rw e (drop-append_add done rest k)

  -- Writing behind what is already written.
  pub overwrite-append :
      (done src rest : List A)
      → overwrite (done ++ rest) (length done) src ≡ (done ++ src) ++ drop (length src) rest
  unfolding overwrite
  overwrite-append done src rest =
      rw (take-append done rest, drop-append_add done rest (length src), append_assoc)

module _ {ℓ} {A : Type ℓ} where
  pub drop-drop : (m n : ℕ) (xs : List A) → drop m (drop n xs) ≡ drop (n + m) xs
  drop-drop m zero xs = rw zero-add
  drop-drop m (suc n) [] = let e : suc n + m ≡ suc (n + m) = omega arith in rw e (drop-nil m)
    where
      drop-nil : (k : ℕ) → drop {A = A} k [] ≡ []
      drop-nil zero = refl
      drop-nil (suc k) = refl
  drop-drop m (suc n) (x ∷ xs) =
      let e : suc n + m ≡ suc (n + m) = omega arith in rw e (drop-drop m n xs)

  pub take-suc :
      (i : ℕ) (xs : List A) (d : A)
      → i < length xs
      → take (suc i) xs ≡ take i xs ++ (get_or xs i d ∷ [])
  take-suc i [] d h = elim h [ ]
  take-suc zero (x ∷ xs) d h = refl
  take-suc (suc i) (x ∷ xs) d h = ap (◌∷◌ x) (take-suc i xs d (omega arith))

module _ {ℓ} {A : Type ℓ} where
  pub take-set :
      (xs : List A) (i : ℕ) (v : A)
      → i < length xs
      → take (suc i) (set xs i v) ≡ take i xs ++ (v ∷ [])
  take-set [] i v h = elim h [ ]
  take-set (x ∷ xs) zero v h = refl
  take-set (x ∷ xs) (suc i) v h = ap (◌∷◌ x) (take-set xs i v (omega arith))

-- Every element has a property; it computes to tuples.
abbrev pub All {ℓ κ} : {A : Type ℓ} → (A → Type κ) → List A → Type κ
All P [] = Unit
All P (x ∷ xs) = P x × All P xs

pub All-take {ℓ κ} :
    {A : Type ℓ} (P : A → Type κ) (n : ℕ) (xs : List A) → All P xs → All P (take n xs)
All-take P zero xs h = tt
All-take P (suc n) [] h = tt
All-take P (suc n) (x ∷ xs) h = (h.0, All-take P n xs h.1)

pub All-drop {ℓ κ} :
    {A : Type ℓ} (P : A → Type κ) (n : ℕ) (xs : List A) → All P xs → All P (drop n xs)
All-drop P zero xs h = h
All-drop P (suc n) [] h = tt
All-drop P (suc n) (x ∷ xs) h = All-drop P n xs h.1

module _ {ℓ} {A : Type ℓ} where
  pub get_or-append_left :
      (xs ys : List A) (i : ℕ) (d : A) → i < length xs → get_or (xs ++ ys) i d ≡ get_or xs i d
  get_or-append_left [] ys i d h = elim h [ ]
  get_or-append_left (x ∷ xs) ys zero d h = refl
  get_or-append_left (x ∷ xs) ys (suc i) d h = get_or-append_left xs ys i d (omega arith)

  -- An index behind `xs`, counted from there.
  pub get_or-append_right :
      (xs ys : List A) (i : ℕ) (d : A) → get_or (xs ++ ys) (length xs + i) d ≡ get_or ys i d
  get_or-append_right [] ys i d = rw zero-add
  get_or-append_right (x ∷ xs) ys i d =
      let e : suc (length xs) + i ≡ suc (length xs + i) = omega arith in
      rw e (get_or-append_right xs ys i d)

  pub get_or-drop :
      (n : ℕ) (xs : List A) (i : ℕ) (d : A) → get_or (drop n xs) i d ≡ get_or xs (n + i) d
  get_or-drop zero xs i d = rw zero-add
  get_or-drop (suc n) [] i d = refl
  get_or-drop (suc n) (x ∷ xs) i d =
      let e : suc n + i ≡ suc (n + i) = omega arith in rw e (get_or-drop n xs i d)

  -- A slice copied to the front of an array.
  pub get_or-overwrite_front :
      (dst src : List A) (i : ℕ) (d : A)
      → i < length src
      → get_or (overwrite dst 0 src) i d ≡ get_or src i d
  unfolding overwrite
  get_or-overwrite_front dst src i d h = get_or-append_left src (drop (0 + length src) dst) i d h

  pub get_or-overwrite_rest :
      (dst src : List A) (i : ℕ) (d : A)
      → length src ≤ i
      → get_or (overwrite dst 0 src) i d ≡ get_or dst i d
  unfolding overwrite
  get_or-overwrite_rest dst src i d h =
      let e : i ≡ length src + (i - length src) = omega arith in
      ap (λ k. get_or (src ++ drop (0 + length src) dst) k d) e
      ∙ get_or-append_right src (drop (0 + length src) dst) (i - length src) d
      ∙ get_or-drop (0 + length src) dst (i - length src) d
      ∙ ap (λ k. get_or dst k d) (omega arith)

pub get_or-replicate_lt {ℓ} :
    {A : Type ℓ} (n i : ℕ) (a d : A) → i < n → get_or (replicate n a) i d ≡ a
get_or-replicate_lt zero i a d h = elim h [ ]
get_or-replicate_lt (suc n) zero a d h = refl
get_or-replicate_lt (suc n) (suc i) a d h = get_or-replicate_lt n i a d (omega arith)

pub get_or-take {ℓ} :
    {A : Type ℓ} (n : ℕ) (xs : List A) (i : ℕ) (d : A)
    → i < n
    → get_or (take n xs) i d ≡ get_or xs i d
get_or-take zero xs i d h = elim h [ ]
get_or-take (suc n) [] i d h = refl
get_or-take (suc n) (x ∷ xs) zero d h = refl
get_or-take (suc n) (x ∷ xs) (suc i) d h = get_or-take n xs i d (omega arith)

pub All-append {ℓ κ} :
    {A : Type ℓ} (P : A → Type κ) (xs ys : List A) → All P xs → All P ys → All P (xs ++ ys)
All-append P [] ys h k = k
All-append P (x ∷ xs) ys h k = (h.0, All-append P xs ys h.1 k)

pub All-replicate {ℓ κ} :
    {A : Type ℓ} (P : A → Type κ) (n : ℕ) (x : A) → P x → All P (replicate n x)
All-replicate P zero x h = tt
All-replicate P (suc n) x h = (h, All-replicate P n x h)

pub set-replicate {ℓ} : {A : Type ℓ} (n i : ℕ) (a : A) → set (replicate n a) i a ≡ replicate n a
set-replicate zero i a = refl
set-replicate (suc n) zero a = refl
set-replicate (suc n) (suc i) a = ap (◌∷◌ a) (set-replicate n i a)

pub replicate-snoc {ℓ} :
    {A : Type ℓ} (n : ℕ) (a : A) → replicate n a ++ (a ∷ []) ≡ replicate (suc n) a
replicate-snoc zero a = refl
replicate-snoc (suc n) a = ap (◌∷◌ a) (replicate-snoc n a)
