-- ===== src/Text.antt =====
-- The text that the codecs of KUKA, Comau and Universal Robots read and write: their `SliceWriter`, which
-- stands in the three files with the same words, and what they use of the language's library to print
-- and to parse numbers. A string is the list of its bytes.
pub mod Writer
pub mod Places
pub mod Digits
pub mod Decimal
use Prim.Native.Char.{code}
use Prim.Native.String.{String}
use sonny.Prelude.{
  ℕ, zero, suc, ◌+◌, ◌-◌, ◌*◌, ◌/◌, ◌%◌, ◌^◌, ◌≤◌, Bool, true, false, not, ◌&&◌, ◌||◌, List, [],
  ◌∷◌, ◌++◌, Option, none, some, ◌>>=◌, if◌then◌else◌, ltb, leb, ◌==◌, length, min, take, copy_into,
  map,
}
use sonny.Float.{F32, f32, units, round_even, round, signed, nan, is_nan, is_neg, is_infinite}
use sonny.Brand.{lower, to_ascii_lowercase}
use sonny.HalLoader.{same_bytes}

-- The bytes of an ASCII literal.
abbrev pub codes : String → List ℕ
codes String.[] = []
codes (String.◌∷◌ c s) = code c ∷ codes s

-- The buffer that `SliceWriter` borrows, and how much of it is written.
pub record SliceWriter : Type 0 where
  pub buf : List ℕ
  pub pos : ℕ

-- `SliceWriter::write`; the range of the slice panics past the end. `write_all` calls it again for
-- what is left, gets 0, and gives up with an error that the codecs drop.
unfoldable pub write : List ℕ → SliceWriter → Option SliceWriter
write bytes w = do
  let space = length w.buf - w.pos
  let n = min (length bytes) space
  buf ← copy_into w.buf w.pos (take n bytes)
  some (record { buf = buf; pos = w.pos + n })

-- Several calls of `write_all`, one after the other.
unfoldable pub write_pieces : List (List ℕ) → SliceWriter → Option SliceWriter
unfolding write
write_pieces [] w = some w
write_pieces (piece ∷ pieces) w = do w ← write piece w; write_pieces pieces w

-- The decimal digits of a number. The fuel is a bound on it.
unfoldable pub digits_of : ℕ → ℕ → List ℕ
digits_of zero n = []
digits_of (suc fuel) n =
    let rest = digits_of fuel (n / 10) in
    if ltb n 10 then (48 + n) ∷ [] else rest ++ ((48 + n % 10) ∷ [])

-- `{}` of an unsigned integer.
unfoldable pub print_uint : ℕ → List ℕ
unfolding digits_of
print_uint n = digits_of (suc n) n

-- Six digits.
unfoldable pub print_six : ℕ → List ℕ
print_six n =
    (48 + n / 100000 % 10)
    ∷ (48 + n / 10000 % 10)
    ∷ (48 + n / 1000 % 10)
    ∷ (48 + n / 100 % 10)
    ∷ (48 + n / 10 % 10)
    ∷ (48 + n % 10)
    ∷ []

-- The millionths of a finite number, without its sign: the nearest, ties to even.
unfoldable pub millionths : F32 → ℕ
millionths v = round_even (units f32 v * 1000000) (2 ^ 149)

-- `{:.6}` of an f32: "NaN", "inf", or six places after the point.
unfoldable pub print_fixed : F32 → List ℕ
unfolding print_uint print_six millionths
print_fixed v =
    if is_nan f32 v
    then 78 ∷ 97 ∷ 78 ∷ []
    else let text =
        if is_infinite f32 v
        then 105 ∷ 110 ∷ 102 ∷ []
        else print_uint (millionths v / 1000000) ++ (46 ∷ print_six (millionths v % 1000000)) in
      if is_neg f32 v then 45 ∷ text else text

abbrev pub is_digit : ℕ → Bool
is_digit c = leb 48 c && leb c 57

-- The digits in front, and what follows them.
unfoldable pub span_digits : List ℕ → List ℕ × List ℕ
span_digits [] = ([], [])
span_digits (c ∷ cs) =
    let rest = span_digits cs in if is_digit c then (c ∷ rest.0, rest.1) else ([], c ∷ cs)

-- The number that digits stand for, behind others.
unfoldable pub eval : ℕ → List ℕ → ℕ
eval acc [] = acc
eval acc (c ∷ cs) = eval (acc * 10 + (c - 48)) cs

-- White space in ASCII; the rest of Unicode's, which `trim` takes off too, is left out.
abbrev pub is_space : ℕ → Bool
is_space c = (leb 9 c && leb c 13) || (c == 32)

unfoldable pub trim_start : List ℕ → List ℕ
trim_start [] = []
trim_start (c ∷ cs) = let rest = trim_start cs in if is_space c then rest else c ∷ cs

unfoldable pub trim_end : List ℕ → List ℕ
trim_end [] = []
trim_end (c ∷ cs) = elim (trim_end cs) [
  | [] ↦ if is_space c then [] else c ∷ []
  | d ∷ ds ↦ c ∷ d ∷ ds
]

unfoldable pub trim : List ℕ → List ℕ
unfolding trim_start trim_end
trim s = trim_end (trim_start s)

-- Digits that nothing follows.
unfoldable pub number_of : List ℕ × List ℕ → Option ℕ
unfolding eval
number_of ([], rest) = none
number_of (c ∷ cs, []) = some (eval 0 (c ∷ cs))
number_of (c ∷ cs, d ∷ rest) = none

-- `parse::<usize>`: an optional plus and digits, below 2 ^ 64.
unfoldable pub parse_digits : List ℕ → Option ℕ
unfolding span_digits number_of
parse_digits s = do n ← number_of (span_digits s); if ltb n (2 ^ 64) then some n else none

unfoldable pub parse_usize : List ℕ → Option ℕ
unfolding parse_digits
parse_usize [] = none
parse_usize (c ∷ cs) = if c == 43 then parse_digits cs else parse_digits (c ∷ cs)

-- An exponent: nothing, or "e", an optional sign and digits. The number to multiply with, and the one
-- to divide by.
unfoldable pub parse_exponent : List ℕ → Option (ℕ × ℕ)
unfolding span_digits number_of
parse_exponent [] = some (1, 1)
parse_exponent (c ∷ []) = none
parse_exponent (c ∷ d ∷ ds) =
    if lower c == 101
    then (do
      e ← number_of (span_digits (if (d == 45) || (d == 43) then ds else d ∷ ds))
      some (if d == 45 then (1, 10 ^ e) else (10 ^ e, 1)))
    else none

-- What follows the whole part: a point and more digits, or nothing of the kind.
unfoldable pub fraction_of : List ℕ → List ℕ × List ℕ
unfolding span_digits
fraction_of [] = ([], [])
fraction_of (c ∷ cs) = if c == 46 then span_digits cs else ([], c ∷ cs)

-- The pattern of a number without a sign: the nearest, ties to even.
unfoldable pub parse_unsigned : List ℕ → Option F32
unfolding fraction_of parse_exponent
parse_unsigned s =
    let word = to_ascii_lowercase s in
    if same_bytes word (110 ∷ 97 ∷ 110 ∷ [])
    then some (nan f32)
    else if same_bytes word (105 ∷ 110 ∷ 102 ∷ [])
        || same_bytes word (105 ∷ 110 ∷ 102 ∷ 105 ∷ 110 ∷ 105 ∷ 116 ∷ 121 ∷ [])
    then some f32.inf
    else let whole = span_digits s in
      let part = fraction_of whole.1 in
      if length (whole.0 ++ part.0) == 0 then none else (do
        power ← parse_exponent part.1
        some (
            round f32 (eval 0 (whole.0 ++ part.0) * power.0 * 2 ^ 149)
              (10 ^ length part.0 * power.1)))

-- `parse::<f32>`
unfoldable pub parse_f32 : List ℕ → Option F32
unfolding parse_unsigned
parse_f32 [] = none
parse_f32 (c ∷ cs) =
    if c == 45
    then (do m ← parse_unsigned cs; some (signed f32 true m))
    else if c == 43
    then parse_unsigned cs
    else parse_unsigned (c ∷ cs)
