-- ===== src/Xgo/Resync.antt =====
-- The scan of any accumulator: no index panics, and what is consumed is there to be consumed.
use sonny.Prelude.{
  ℕ, suc, ◌+◌, ◌-◌, ◌≤◌, ◌<◌, ◌≡◌, refl, subst, true, false, not, ◌&&◌, ◌||◌, inl, inr, List, [],
  ◌∷◌, Option, none, some, ltb, leb, ltb→lt, ◌==◌, arith, length, get_or, get_elem?-eq-get_or, take,
  drop, length-take, Bool-cases, Option-cases, Returns,
}
use sonny.Xgo.{
  Scan, frame, incomplete, garbage, scan_frame, scan_body, check_frame, checksum, position,
  rposition, slice,
}

-- What a scan may say of an accumulator: it consumes at least one byte, or waits.
abbrev pub Consumes : List ℕ → Scan → Type 0
Consumes acc (frame len addr body_len) = (9 ≤ len) × (len ≤ length acc) × (body_len + 8 ≡ len)
Consumes acc incomplete = Unit
Consumes acc (garbage skip) = (0 < skip) × (skip ≤ length acc)

-- A position that is found satisfies `P`.
abbrev Found : (ℕ → Type 0) → Option ℕ → Type 0
Found P none = Unit
Found P (some i) = P i

position-Found : (xs : List ℕ) → Found (λ i. i + 2 ≤ length xs) (position xs)
unfolding position
position-Found [] = tt
position-Found (a ∷ []) = tt
position-Found (a ∷ b ∷ rest) = elim (Bool-cases ((a == 0x55) && (b == 0x00))) [
  | inl h ↦ rw h (omega arith)
  | inr h ↦ elim (Option-cases (position (b ∷ rest))) [
    | inl f ↦ rw (h, f) tt
    | inr (j, f) ↦
        let below : j + 2 ≤ suc (length rest) =
          subst (Found (λ i. i + 2 ≤ suc (length rest))) f (position-Found (b ∷ rest)) in
        rw (h, f) (omega (arith, below))
  ]
]

rposition-Found : (xs : List ℕ) → Found (λ i. i < length xs) (rposition xs)
unfolding rposition
rposition-Found [] = tt
rposition-Found (b ∷ rest) = elim (Option-cases (rposition rest)) [
  | inl f ↦ elim (Bool-cases (b == 0x55)) [ inl h ↦ rw (f, h) (omega arith) | inr h ↦ rw (f, h) tt ]
  | inr (j, f) ↦
      let below : j < length rest = subst (Found (λ i. i < length rest)) f (rposition-Found rest) in
      rw f (omega (arith, below))
]

check_frame-Consumes :
    (acc : List ℕ) (len : ℕ)
    → 9 ≤ len
    → len ≤ length acc
    → Returns (Consumes acc) (check_frame acc len)
unfolding check_frame slice
check_frame-Consumes acc len low high =
    let from : leb 5 (5 + (len - 8)) ≡ true = ground arith in
    let to : leb (5 + (len - 8)) (length acc) ≡ true = ground arith in
    let body = take (5 + (len - 8) - 5) (drop 5 acc) in
    rw
      (
        get_elem?-eq-get_or acc 3 0 (omega arith),
        get_elem?-eq-get_or acc 4 0 (omega arith),
        get_elem?-eq-get_or acc (5 + (len - 8)) 0 (omega arith),
        get_elem?-eq-get_or acc (len - 2) 0 (omega arith),
        get_elem?-eq-get_or acc (len - 1) 0 (omega arith),
        from,
        to,
      )
      (elim (Bool-cases
        (not ((get_or acc (len - 2) 0 == 0x00) && (get_or acc (len - 1) 0 == 0xAA)))) [
          | inl h ↦ rw h (garbage 2, refl, (omega arith, omega arith))
          | inr h ↦
              elim (Bool-cases (
                not (
                  checksum len (get_or acc 3 0) (get_or acc 4 0) body
                  == get_or acc (5 + (len - 8)) 0))) [
                    | inl k ↦ rw (h, k) (garbage 2, refl, (omega arith, omega arith))
                    | inr k ↦
                        rw (h, k)
                          (frame len (get_or acc 4 0) (len - 8), refl, (low, high, omega arith))
                  ]
        ])

scan_body-Consumes : (acc : List ℕ) → 3 ≤ length acc → Returns (Consumes acc) (scan_body acc)
unfolding scan_body
scan_body-Consumes acc h =
    let len = get_or acc 2 0 in
    rw (get_elem?-eq-get_or acc 2 0 (omega arith)) (elim (Bool-cases (ltb len 9 || ltb 64 len)) [
      | inl a ↦ rw a (garbage 2, refl, (omega arith, omega arith))
      | inr a ↦ elim (Bool-cases (ltb (length acc) len)) [
        | inl b ↦ rw (a, b) (incomplete, refl, tt)
        | inr b ↦ rw (a, b) (check_frame-Consumes acc len (ground arith) (ground arith))
      ]
    ])

-- The scan of an accumulator that is not empty does not panic. It finds a frame that is buffered as a
-- whole, or asks for more, or drops at least one byte and no more than there are.
pub scan_frame-Consumes : (acc : List ℕ) → 0 < length acc → Returns (Consumes acc) (scan_frame acc)
unfolding scan_frame
scan_frame-Consumes acc h = elim (Option-cases (position (take (length acc - 1) acc))) [
  | inl e ↦ elim (Option-cases (rposition acc)) [
    | inl f ↦ rw (scan_frame, e, f) (garbage (length acc), refl, (h, omega arith))
    | inr (p, f) ↦
        let below : p < length acc = subst (Found (λ i. i < length acc)) f (rposition-Found acc) in
        rw (scan_frame, e, f) (garbage (suc p), refl, (omega arith, omega (arith, below)))
  ]
  | inr (start, e) ↦
      let below : start + 2 ≤ length (take (length acc - 1) acc) =
        subst (Found (λ i. i + 2 ≤ length (take (length acc - 1) acc))) e
          (position-Found (take (length acc - 1) acc)) in
      let bound : start + 3 ≤ length acc = omega (arith, below, length-take (length acc - 1) acc) in
      let three : ltb (length acc) 3 ≡ false = ground arith in
      elim (Bool-cases (ltb 0 start)) [
        | inl f ↦ rw (scan_frame, e, f) (garbage start, refl, (ltb→lt _ _ f, omega arith))
        | inr f ↦ rw (scan_frame, e, f, three) (scan_body-Consumes acc (omega arith))
      ]
]
