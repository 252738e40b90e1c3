-- ===== src/Adapters/Kuka/Reply.antt =====
-- A frame as a robot sends it, and where it ends.
use mathlib.Core.List.{append_assoc}
use sonny.Prelude.{
  ℕ, ◌≤◌, suc, ◌+◌, ◌≡◌, refl, ap, ◌∙◌, false, List, [], ◌∷◌, ◌++◌, All, some, arith, ◌==◌, length,
  length-append,
}
use sonny.Float.{F32, IsFinite}
use sonny.Text.{codes, print_uint, print_fixed}
use sonny.Text.Digits.{print_uint-IsDigit}
use sonny.Text.Decimal.{IsMark, digits_marks, print_fixed-IsMark}
use sonny.Adapters.Kuka.{find_subslice, name_tag, end_tag, xml_header}
use sonny.Adapters.Kuka.Skips.{marks-Skips}

-- SEND[i], counted from one.
abbrev pub send_name : ℕ → List ℕ
send_name i = codes "SEND[" ++ (print_uint (i + 1) ++ codes "]")

abbrev pub element : ℕ → F32 → List ℕ → List ℕ
element i v rest =
    name_tag ++ (send_name i ++ (codes "\">" ++ (print_fixed v ++ (end_tag ++ rest))))

abbrev pub elements : ℕ → List F32 → List ℕ → List ℕ
elements i [] rest = rest
elements i (v ∷ values) rest = element i v (elements (suc i) values rest)

-- The values as the variables of a frame, up to its end.
abbrev pub reply : List F32 → List ℕ
reply values = xml_header ++ elements 0 values (codes "</Data>")

pub number_marks : (n : ℕ) → All IsMark (print_uint n)
number_marks n = digits_marks (print_uint n) (print_uint-IsDigit n)

-- "<", "\"" and "]" are no parts of numbers.
pub no_angle : (d : ℕ) → IsMark d → (d == 60) ≡ false
no_angle d h = ground arith

pub no_quote : (d : ℕ) → IsMark d → (d == 34) ≡ false
no_quote d h = ground arith

pub no_bracket : (d : ℕ) → IsMark d → (d == 93) ≡ false
no_bracket d h = ground arith

-- The frame's end is not found in its elements.
abbrev pub frame_end : List ℕ
frame_end = codes "</Rob>"

element_end :
    (i : ℕ) (v : F32) (rest : List ℕ) (k : ℕ)
    → IsFinite v
    → find_subslice rest frame_end ≡ some k
    → (n : ℕ) × (find_subslice (element i v rest) frame_end ≡ some n)
      × (n + length rest ≡ k + length (element i v rest))
unfolding find_subslice
element_end i v rest k f h =
    let behind : find_subslice (end_tag ++ rest) frame_end ≡ some (6 + k) =
      rw h (ap some (omega arith)) in
    let text =
      marks-Skips 60 (codes "/Rob>") (print_fixed v) (print_fixed-IsMark v f) no_angle
        (end_tag ++ rest) (6 + k) behind in
    let after : find_subslice (codes "\">" ++ (print_fixed v ++ (end_tag ++ rest))) frame_end
        ≡ some (2 + (length (print_fixed v) + (6 + k))) =
      rw text (ap some (omega arith)) in
    let close : find_subslice (codes "]" ++ (codes "\">" ++ (print_fixed v ++ (end_tag ++ rest))))
          frame_end
        ≡ some (3 + (length (print_fixed v) + (6 + k))) =
      rw after (ap some (omega arith)) in
    let digits =
      marks-Skips 60 (codes "/Rob>") (print_uint (i + 1)) (number_marks (i + 1)) no_angle
        (codes "]" ++ (codes "\">" ++ (print_fixed v ++ (end_tag ++ rest))))
        (3 + (length (print_fixed v) + (6 + k))) close in
    (
      16 + (length (print_uint (i + 1)) + (3 + (length (print_fixed v) + (6 + k)))),
      rw
          (
            append_assoc (print_uint (i + 1)) (codes "]")
                (codes "\">" ++ (print_fixed v ++ (end_tag ++ rest))),
            digits,
          )
          (ap some (omega arith)),
      omega (
        arith,
        length-append (print_uint (i + 1) ++ codes "]")
            (codes "\">" ++ (print_fixed v ++ (end_tag ++ rest))),
        length-append (print_uint (i + 1)) (codes "]"),
        length-append (print_fixed v) (end_tag ++ rest),
      ),
    )

abbrev pub closing : List ℕ
closing = codes "</Data>"

pub elements-append :
    (i : ℕ) (vs : List F32) (t u : List ℕ) → elements i vs t ++ u ≡ elements i vs (t ++ u)
elements-append i [] t u = refl
elements-append i (v ∷ vs) t u =
    rw
      (
        append_assoc (print_uint (i + 1) ++ codes "]")
            (codes "\">" ++ (print_fixed v ++ (end_tag ++ elements (suc i) vs t))) u,
        append_assoc (print_fixed v) (end_tag ++ elements (suc i) vs t) u,
        elements-append (suc i) vs t u,
      )
      refl

elements_end :
    (i : ℕ) (vs : List F32) (rest : List ℕ)
    → All IsFinite vs
    → (n : ℕ) × (find_subslice (elements i vs (closing ++ (frame_end ++ rest))) frame_end ≡ some n)
      × (n + length (frame_end ++ rest) ≡ length (elements i vs (closing ++ (frame_end ++ rest))))
unfolding find_subslice
elements_end i [] rest f = (7, refl, omega arith)
elements_end i (v ∷ vs) rest (fv, f) =
    let (k, found, size) = elements_end (suc i) vs rest f in
    let (n, here, longer) =
      element_end i v (elements (suc i) vs (closing ++ (frame_end ++ rest))) k fv found in
    (n, here, omega (arith, size, longer))

header_end :
    (t : List ℕ) (k : ℕ)
    → find_subslice t frame_end ≡ some k
    → find_subslice (xml_header ++ t) frame_end ≡ some (length xml_header + k)
unfolding find_subslice
header_end t k found = rw found (ap some (omega arith))

-- Each element has bytes of its own.
pub elements-longer : (i : ℕ) (vs : List F32) (t : List ℕ) → length vs ≤ length (elements i vs t)
elements-longer i [] t = omega arith
elements-longer i (v ∷ vs) t = omega (
  arith,
  elements-longer (suc i) vs t,
  length-append (print_uint (i + 1) ++ codes "]")
      (codes "\">" ++ (print_fixed v ++ (end_tag ++ elements (suc i) vs t))),
  length-append (print_fixed v) (end_tag ++ elements (suc i) vs t),
)

pub reply_end :
    (values : List F32) (rest : List ℕ)
    → All IsFinite values
    → find_subslice (reply values ++ (frame_end ++ rest)) frame_end ≡ some (length (reply values))
reply_end values rest f =
    let (n, found, size) = elements_end 0 values rest f in
    let whole : elements 0 values closing ++ (frame_end ++ rest)
        ≡ elements 0 values (closing ++ (frame_end ++ rest)) =
      elements-append 0 values closing (frame_end ++ rest) in
    ap (λ t. find_subslice (xml_header ++ t) frame_end) whole
    ∙ header_end (elements 0 values (closing ++ (frame_end ++ rest))) n found
    ∙ ap some (
        omega (
          arith,
          size,
          ap length whole,
          length-append (elements 0 values closing) (frame_end ++ rest),
          length-append xml_header (elements 0 values closing),
        ))
