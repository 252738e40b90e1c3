-- ===== src/Text/Decimal.antt =====
-- A finite number that is printed with six places is read back as the nearest number to what is printed.
use sonny.Prelude.{
  ℕ, ◌+◌, ◌*◌, ◌/◌, ◌%◌, ◌^◌, ◌≤◌, ◌≡◌, refl, ap, ◌∙◌, Bool, true, false, List, [], ◌∷◌, ◌++◌, All,
  All-append, none, some, ◌>>=◌, arith, length, length-append, if◌then◌else◌, ◌==◌,
}
use sonny.Float.{F32, f32, is_neg, signed, round, IsFinite, IsFinite-IsNumber, is_infinite-IsFinite}
use sonny.Brand.{lower, to_ascii_lowercase}
use sonny.HalLoader.{same_bytes}
use sonny.Text.{
  print_uint, print_six, millionths, print_fixed, span_digits, eval, is_space, trim_start, trim_end,
  trim, parse_exponent, fraction_of, parse_unsigned, parse_f32,
}
use sonny.Text.Digits.{
  IsDigit, print_uint-IsDigit, print_six-IsDigit, eval-append, eval-print_uint, eval-print_six,
  span_digits-All, span_digits_stop,
}

-- The nearest number to the six places of a number.
abbrev pub settled : F32 → F32
settled v = signed f32 (is_neg f32 v) (round f32 (millionths v * 2 ^ 149) 1000000)

length-print_six : (n : ℕ) → length (print_six n) ≡ 6
unfolding print_six
length-print_six n = refl

fraction_of_point : (ds : List ℕ) → All IsDigit ds → fraction_of (46 ∷ ds) ≡ (ds, [])
unfolding fraction_of
fraction_of_point ds h = span_digits-All ds h

-- What does not begin with a letter is no word.
no_word :
    (c w : ℕ) (cs ws : List ℕ)
    → c ≤ 57
    → 58 ≤ w
    → same_bytes (to_ascii_lowercase (c ∷ cs)) (w ∷ ws) ≡ false
unfolding lower
no_word c w cs ws h k = ground arith

plain :
    (c : ℕ) (cs : List ℕ)
    → c ≤ 57
    → parse_unsigned (c ∷ cs) ≡ (
        let whole = span_digits (c ∷ cs) in
        let part = fraction_of whole.1 in
        if length (whole.0 ++ part.0) == 0 then none else (do
          power ← parse_exponent part.1
          some (
              round f32
                (eval 0 (whole.0 ++ part.0) * power.0 * 2 ^ 149)
                (10 ^ length part.0 * power.1))))
unfolding parse_unsigned
plain c cs h =
    rw
      (
        no_word c 110 cs _ h (omega arith),
        no_word c 105 cs (110 ∷ 102 ∷ []) h (omega arith),
        no_word c 105 cs (110 ∷ 102 ∷ 105 ∷ 110 ∷ 105 ∷ 116 ∷ 121 ∷ []) h (omega arith),
      )
      refl

-- The number behind the words, of digits, a point and six places.
number_lem :
    (ds : List ℕ) (n : ℕ)
    → All IsDigit ds
    → (let whole = span_digits (ds ++ (46 ∷ print_six n)) in
        let part = fraction_of whole.1 in
        if length (whole.0 ++ part.0) == 0 then none else (do
          power ← parse_exponent part.1
          some (
              round f32
                (eval 0 (whole.0 ++ part.0) * power.0 * 2 ^ 149)
                (10 ^ length part.0 * power.1))))
      ≡ some (round f32 (eval 0 (ds ++ print_six n) * 1 * 2 ^ 149) 1000000)
unfolding parse_exponent
number_lem ds n h = rw (span_digits_stop ds 46 (print_six n) h refl, fraction, filled) (rw six refl)
  where
    fraction : fraction_of (46 ∷ print_six n) ≡ (print_six n, [])
    fraction = fraction_of_point (print_six n) (print_six-IsDigit n)

    six : length (print_six n) ≡ 6
    six = length-print_six n

    filled : (length (ds ++ print_six n) == 0) ≡ false
    filled =
        let e : length (ds ++ print_six n) ≡ length ds + 6 =
          omega (arith, length-append ds (print_six n), six) in
        rw e (ground arith)

parse_unsigned_digits :
    (ds : List ℕ) (n : ℕ)
    → All IsDigit ds
    → parse_unsigned (ds ++ (46 ∷ print_six n))
      ≡ some (round f32 (eval 0 (ds ++ print_six n) * 1 * 2 ^ 149) 1000000)
parse_unsigned_digits [] n h = plain 46 (print_six n) (omega arith) ∙ number_lem [] n h
parse_unsigned_digits (d ∷ ds) n h =
    plain d (ds ++ (46 ∷ print_six n)) (omega (arith, h.0.1)) ∙ number_lem (d ∷ ds) n h

abbrev pub NotSpace : ℕ → Type 0
NotSpace c = is_space c ≡ false

trim_end_id : (s : List ℕ) → All NotSpace s → trim_end s ≡ s
unfolding trim_end
trim_end_id [] h = refl
trim_end_id (c ∷ []) h = rw h.0 refl
trim_end_id (c ∷ d ∷ ds) h = rw (trim_end_id (d ∷ ds) h.1) refl

-- What has no white space is not trimmed.
pub trim_id : (s : List ℕ) → All NotSpace s → trim s ≡ s
unfolding trim trim_start
trim_id [] h = refl
trim_id (c ∷ cs) h = rw h.0 (trim_end_id (c ∷ cs) h)

-- The bytes of printed numbers lie between "-" and "9": none is a comma or white space.
abbrev pub IsMark : ℕ → Type 0
IsMark c = (45 ≤ c) × (c ≤ 57)

pub IsMark-NotSpace : (c : ℕ) → IsMark c → NotSpace c
IsMark-NotSpace c h = ground arith

pub All-map {ℓ κ} :
    (P : ℕ → Type ℓ) (Q : ℕ → Type κ) → ((c : ℕ) → P c → Q c) → (s : List ℕ) → All P s → All Q s
All-map P Q f [] h = tt
All-map P Q f (c ∷ cs) (hc, h) = (f c hc, All-map P Q f cs h)

pub digits_marks : (ds : List ℕ) → All IsDigit ds → All IsMark ds
digits_marks ds h = All-map IsDigit IsMark (λ c h. (omega (arith, h.0), h.1)) ds h

module _ (v : F32) where
  -- The whole part and the places of a number.
  abbrev body : List ℕ
  body = print_uint (millionths v / 1000000) ++ (46 ∷ print_six (millionths v % 1000000))

  body_marks : All IsMark body
  body_marks =
      All-append IsMark (print_uint (millionths v / 1000000))
        (46 ∷ print_six (millionths v % 1000000))
        (digits_marks _ (print_uint-IsDigit (millionths v / 1000000)))
        ((omega arith, omega arith), digits_marks _ (print_six-IsDigit (millionths v % 1000000)))

  print_fixed_finite : IsFinite v → print_fixed v ≡ (if is_neg f32 v then 45 ∷ body else body)
  unfolding print_fixed
  print_fixed_finite h = rw (IsFinite-IsNumber v h, is_infinite-IsFinite v h) refl

  pub print_fixed-IsMark : IsFinite v → All IsMark (print_fixed v)
  print_fixed-IsMark h = rw (print_fixed_finite h) (go (is_neg f32 v))
    where
      go : (b : Bool) → All IsMark (if b then 45 ∷ body else body)
      go true = ((omega arith, omega arith), body_marks)
      go false = body_marks

  parse_body : parse_unsigned body ≡ some (round f32 (millionths v * 2 ^ 149) 1000000)
  parse_body =
      parse_unsigned_digits (print_uint (millionths v / 1000000)) (millionths v % 1000000)
        (print_uint-IsDigit (millionths v / 1000000))
      ∙ ap (λ n. some (round f32 (n * 2 ^ 149) 1000000)) value
    where
      value :
          eval 0 (print_uint (millionths v / 1000000) ++ print_six (millionths v % 1000000)) * 1
          ≡ millionths v
      value =
          rw
            (
              eval-append 0 (print_uint (millionths v / 1000000))
                  (print_six (millionths v % 1000000)),
              eval-print_uint (millionths v / 1000000),
              eval-print_six (millionths v / 1000000) (millionths v % 1000000) (omega arith),
            )
            (omega arith)

unsigned_parse :
    (ds rest : List ℕ)
    → All IsDigit ds
    → parse_f32 (ds ++ (46 ∷ rest)) ≡ parse_unsigned (ds ++ (46 ∷ rest))
unfolding parse_f32
unsigned_parse [] rest h = refl
unsigned_parse (d ∷ ds) rest (hd, h) =
    let e : (d == 45) ≡ false = ground arith in
    let e' : (d == 43) ≡ false = ground arith in rw (e, e') refl

-- A finite number that is printed and parsed again is the nearest one to its six places, with its sign.
pub parse_f32-print_fixed :
    (v : F32) → IsFinite v → parse_f32 (trim (print_fixed v)) ≡ some (settled v)
unfolding parse_f32
parse_f32-print_fixed v h =
    ap parse_f32 (
      trim_id (print_fixed v)
        (All-map IsMark NotSpace IsMark-NotSpace (print_fixed v) (print_fixed-IsMark v h)))
    ∙ ap parse_f32 (print_fixed_finite v h)
    ∙ go (is_neg f32 v)
  where
    go :
        (b : Bool)
        → parse_f32 (if b then 45 ∷ body v else body v)
          ≡ some (signed f32 b (round f32 (millionths v * 2 ^ 149) 1000000))
    go true = rw (parse_body v) refl
    go false =
        unsigned_parse (print_uint (millionths v / 1000000)) (print_six (millionths v % 1000000))
          (print_uint-IsDigit (millionths v / 1000000))
        ∙ parse_body v
