-- ===== src/Adapters/Comau/Line.antt =====
-- The line that the encoder writes: its fields, and its end.
use mathlib.Core.List.{append_assoc, append-nil}
use mathlib.Core.Option.{none-ne-some}
use sonny.Prelude.{
  ℕ, suc, ◌+◌, ◌≤◌, ◌≡◌, refl, sym, ap, ◌∙◌, false, List, [], ◌∷◌, ◌++◌, All, All-append, some,
  arith, leb, ◌==◌, map, length, take, set, take-set, length-set,
}
use sonny.Float.{F32, IsFinite}
use sonny.Text.{print_fixed, trim, parse_f32}
use sonny.Text.Writer.{concat}
use sonny.Text.Decimal.{IsMark, settled, print_fixed-IsMark, parse_f32-print_fixed}
use sonny.Adapters.Comau.{find_byte, is_separator, split, is_empty, read_fields, csv_pieces}

-- The values behind the first, and the line.
abbrev pub tail_line : List F32 → List ℕ
tail_line [] = []
tail_line (v ∷ values) = 44 ∷ (print_fixed v ++ tail_line values)

abbrev pub line : List F32 → List ℕ
line [] = []
line (v ∷ values) = print_fixed v ++ tail_line values

tail_pieces :
    (i : ℕ) (values : List F32) → concat (csv_pieces (suc i) values) ≡ tail_line values ++ (10 ∷ [])
unfolding csv_pieces
tail_pieces i [] = refl
tail_pieces i (v ∷ values) = ap (◌∷◌ 44) (
    ap (λ s. print_fixed v ++ s) (tail_pieces (suc i) values)
    ∙ sym (append_assoc (print_fixed v) (tail_line values) (10 ∷ [])))

-- The pieces make the line and a newline.
pub csv_pieces-line : (values : List F32) → concat (csv_pieces 0 values) ≡ line values ++ (10 ∷ [])
unfolding csv_pieces
csv_pieces-line [] = refl
csv_pieces-line (v ∷ values) =
    ap (λ s. print_fixed v ++ s) (tail_pieces 0 values)
    ∙ sym (append_assoc (print_fixed v) (tail_line values) (10 ∷ []))

-- A comma or a part of a number.
abbrev pub IsText : ℕ → Type 0
IsText c = (44 ≤ c) × (c ≤ 57)

marks-IsText : (s : List ℕ) → All IsMark s → All IsText s
marks-IsText [] h = tt
marks-IsText (c ∷ cs) (hc, h) = ((omega (arith, hc.0), hc.1), marks-IsText cs h)

tail-IsText : (values : List F32) → All IsFinite values → All IsText (tail_line values)
tail-IsText [] h = tt
tail-IsText (v ∷ values) (hv, h) = (
  (omega arith, omega arith),
  All-append IsText (print_fixed v) (tail_line values) (marks-IsText _ (print_fixed-IsMark v hv))
      (tail-IsText values h),
)

pub line-IsText : (values : List F32) → All IsFinite values → All IsText (line values)
line-IsText [] h = tt
line-IsText (v ∷ values) (hv, h) =
    All-append IsText (print_fixed v) (tail_line values) (marks-IsText _ (print_fixed-IsMark v hv))
      (tail-IsText values h)

-- The newline is found behind a text without one.
pub find_byte-text :
    (s rest : List ℕ) → All IsText s → find_byte 10 (s ++ (10 ∷ rest)) ≡ some (length s)
unfolding find_byte
find_byte-text [] rest h = refl
find_byte-text (c ∷ cs) rest (hc, h) =
    let e : (c == 10) ≡ false = ground arith in rw (e, find_byte-text cs rest h) refl

no_separator : (c : ℕ) → IsMark c → is_separator c ≡ false
no_separator c h = ground arith

split-marks :
    (field s rest : List ℕ) → All IsMark s → split field (s ++ rest) ≡ split (field ++ s) rest
unfolding split
split-marks field [] rest h = rw (append-nil field) refl
split-marks field (c ∷ cs) rest (hc, h) =
    rw
      (no_separator c hc, split-marks (field ++ (c ∷ [])) cs rest h, append_assoc field (c ∷ []) cs)
      refl

split-tail :
    (field : List ℕ) (values : List F32)
    → All IsFinite values
    → split field (tail_line values) ≡ field ∷ map print_fixed values
unfolding split
split-tail field [] h = refl
split-tail field (v ∷ values) (hv, h) = ap (◌∷◌ field) (
    split-marks [] (print_fixed v) (tail_line values) (print_fixed-IsMark v hv)
    ∙ split-tail (print_fixed v) values h)

-- The fields of the line are the values.
pub split-line :
    (v : F32) (values : List F32)
    → All IsFinite (v ∷ values)
    → split [] (line (v ∷ values)) ≡ map print_fixed (v ∷ values)
split-line v values (hv, h) =
    split-marks [] (print_fixed v) (tail_line values) (print_fixed-IsMark v hv)
    ∙ split-tail (print_fixed v) values h

not_empty : (s : List ℕ) (x : F32) → parse_f32 (trim s) ≡ some x → is_empty s ≡ false
unfolding parse_f32 trim
not_empty [] x h = absurd (none-ne-some x h)
not_empty (c ∷ cs) x h = refl

-- The loop over fields that are printed numbers.
pub read_fields-print :
    (limit i : ℕ) (vs values done : List F32) (n : ℕ)
    → i + length vs ≤ limit
    → limit ≤ length values
    → n ≡ i
    → take i values ≡ done
    → All IsFinite vs
    → (array : List F32) × (read_fields limit i (map print_fixed vs) (values, n)
        ≡ some (array, i + length vs))
      × (take (i + length vs) array ≡ done ++ map settled vs)
      × (length array ≡ length values)
unfolding read_fields
read_fields-print limit i [] values done n h k e t f =
    (values, ap (λ m. some (values, m)) (omega (arith, e)), front, refl)
  where
    front : take (i + 0) values ≡ done ++ []
    front = let z : i + 0 ≡ i = omega arith in rw (z, append-nil done) t
read_fields-print limit i (v ∷ vs) values done n h k e t (fv, f) =
    let (array, runs, front, size) =
      read_fields-print limit (suc i) vs (set values i (settled v)) (done ++ (settled v ∷ []))
        (suc i) (omega (arith, h)) (omega (arith, k, length-set values i (settled v))) refl
        (take-set values i (settled v) (omega (arith, h, k)) ∙ ap (λ s. s ++ (settled v ∷ [])) t)
        f in
    let here : leb limit i ≡ false = ground (arith, h) in
    let more : suc i + length vs ≡ i + suc (length vs) = omega arith in
    let full : is_empty (print_fixed v) ≡ false =
      not_empty (print_fixed v) (settled v) (parse_f32-print_fixed v fv) in
    (
      array,
      rw (read_fields, here, full, parse_f32-print_fixed v fv)
          (runs ∙ ap (λ m. some (array, m)) more),
      ap (λ m. take m array) (sym more)
          ∙ front
          ∙ append_assoc done (settled v ∷ []) (map settled vs),
      size ∙ length-set values i (settled v),
    )
