-- ===== src/Text/Digits.antt =====
-- Decimal digits: what is printed is digits, and reads back as the number.
use sonny.Prelude.{
  ℕ, zero, suc, ◌+◌, ◌-◌, ◌*◌, ◌/◌, ◌%◌, ◌≤◌, ◌<◌, ◌≡◌, refl, true, false, List, [], ◌∷◌, ◌++◌, All,
  All-append, arith, ltb, lt_or_le, inl, inr,
}
use sonny.Text.{digits_of, print_uint, print_six, is_digit, span_digits, eval}

abbrev pub IsDigit : ℕ → Type 0
IsDigit c = (48 ≤ c) × (c ≤ 57)

digits_of-IsDigit : (fuel n : ℕ) → All IsDigit (digits_of fuel n)
unfolding digits_of
digits_of-IsDigit zero n = tt
digits_of-IsDigit (suc fuel) n = elim (lt_or_le n 10) [
  | inl h ↦ let e : ltb n 10 ≡ true = ground arith in rw e ((omega arith, omega arith), tt)
  | inr h ↦
      let e : ltb n 10 ≡ false = ground arith in
      rw e (
        All-append IsDigit (digits_of fuel (n / 10)) ((48 + n % 10) ∷ [])
          (digits_of-IsDigit fuel (n / 10)) ((omega arith, omega arith), tt))
]

pub print_uint-IsDigit : (n : ℕ) → All IsDigit (print_uint n)
unfolding print_uint
print_uint-IsDigit n = digits_of-IsDigit (suc n) n

pub print_six-IsDigit : (n : ℕ) → All IsDigit (print_six n)
unfolding print_six
print_six-IsDigit n = (
  (omega arith, omega arith),
  (
    (omega arith, omega arith),
    (
      (omega arith, omega arith),
      ((omega arith, omega arith), ((omega arith, omega arith), ((omega arith, omega arith), tt))),
    ),
  ),
)

pub eval-append : (acc : ℕ) (xs ys : List ℕ) → eval acc (xs ++ ys) ≡ eval (eval acc xs) ys
unfolding eval
eval-append acc [] ys = refl
eval-append acc (x ∷ xs) ys = eval-append (acc * 10 + (x - 48)) xs ys

eval-digits_of : (fuel n : ℕ) → n < fuel → eval 0 (digits_of fuel n) ≡ n
unfolding digits_of eval
eval-digits_of zero n h = absurd (omega (arith, h))
eval-digits_of (suc fuel) n h = elim (lt_or_le n 10) [
  | inl k ↦ let e : ltb n 10 ≡ true = ground arith in rw e (omega arith)
  | inr k ↦
      let e : ltb n 10 ≡ false = ground arith in
      rw
        (
          e,
          eval-append 0 (digits_of fuel (n / 10)) ((48 + n % 10) ∷ []),
          eval-digits_of fuel (n / 10) (omega arith),
        )
        (omega arith)
]

pub eval-print_uint : (n : ℕ) → eval 0 (print_uint n) ≡ n
unfolding print_uint
eval-print_uint n = eval-digits_of (suc n) n (omega arith)

pub eval-print_six : (acc n : ℕ) → n < 1000000 → eval acc (print_six n) ≡ acc * 1000000 + n
unfolding print_six eval
eval-print_six acc n h = omega arith

digit_test : (c : ℕ) → IsDigit c → is_digit c ≡ true
digit_test c h = ground arith

pub span_digits-All : (ds : List ℕ) → All IsDigit ds → span_digits ds ≡ (ds, [])
unfolding span_digits
span_digits-All [] h = refl
span_digits-All (d ∷ ds) (hd, h) = rw (digit_test d hd, span_digits-All ds h) refl

pub span_digits_stop :
    (ds : List ℕ) (c : ℕ) (rest : List ℕ)
    → All IsDigit ds
    → is_digit c ≡ false
    → span_digits (ds ++ (c ∷ rest)) ≡ (ds, c ∷ rest)
unfolding span_digits
span_digits_stop [] c rest h k = rw k refl
span_digits_stop (d ∷ ds) c rest (hd, h) k =
    rw (digit_test d hd, span_digits_stop ds c rest h k) refl
