-- ===== src/Adapters/Kuka/Skips.antt =====
-- Searches past a text in which the needle does not begin.
use sonny.Prelude.{
  ℕ, ◌+◌, ◌-◌, ◌≡◌, refl, ap, ◌∙◌, false, List, [], ◌∷◌, ◌++◌, All, none, some, arith, ltb, leb,
  ◌&&◌, true, ◌==◌, length, length-append, take-append, drop-append,
}
use mathlib.Core.List.{append_assoc}
use sonny.Text.Decimal.{IsMark}
use sonny.Adapters.Packet.{sub_slice}
use sonny.Adapters.Kuka.{find_subslice, find_from}

-- What is found behind the text is found with the text in front.
abbrev pub Skips : (needle s : List ℕ) → Type 0
Skips needle s =
    (t : List ℕ) (k : ℕ)
    → find_subslice t needle ≡ some k
    → find_subslice (s ++ t) needle ≡ some (length s + k)

pub Skips-append :
    (needle s s' : List ℕ) → Skips needle s → Skips needle s' → Skips needle (s ++ s')
Skips-append needle s s' h h' t k e =
    rw (append_assoc s s' t)
      (h (s' ++ t) (length s' + k) (h' t k e) ∙ ap some (omega (arith, length-append s s')))

-- The parts of numbers are neither brackets nor quotes.
pub marks-Skips :
    (c : ℕ) (needle s : List ℕ)
    → All IsMark s
    → ((d : ℕ) → IsMark d → (d == c) ≡ false)
    → Skips (c ∷ needle) s
unfolding find_subslice
marks-Skips c needle [] marks h t k e = e ∙ ap some (omega arith)
marks-Skips c needle (d ∷ s) (mark, marks) h t k e =
    rw (find_subslice, h d mark, marks-Skips c needle s marks h t k e) (ap some (omega arith))

-- A search from behind a text.
pub find_from-at :
    (body pre rest needle : List ℕ) (from k : ℕ)
    → body ≡ pre ++ rest
    → from ≡ length pre
    → find_subslice rest needle ≡ some k
    → find_from body needle from ≡ some (k + from)
unfolding find_from
find_from-at body pre rest needle from k e at_end found =
    let inside : ltb (length (pre ++ rest)) (length pre) ≡ false =
      ground (arith, length-append pre rest) in
    rw (e, at_end, inside, drop-append pre rest, found) refl

pub find_from-none :
    (body pre rest needle : List ℕ) (from : ℕ)
    → body ≡ pre ++ rest
    → from ≡ length pre
    → find_subslice rest needle ≡ none
    → find_from body needle from ≡ none
unfolding find_from
find_from-none body pre rest needle from e at_end lost =
    let inside : ltb (length (pre ++ rest)) (length pre) ≡ false =
      ground (arith, length-append pre rest) in
    rw (e, at_end, inside, drop-append pre rest, lost) refl

pub sub_slice-at :
    (body pre mid rest : List ℕ) (from to : ℕ)
    → body ≡ pre ++ (mid ++ rest)
    → from ≡ length pre
    → to ≡ length pre + length mid
    → sub_slice body from to ≡ some mid
unfolding sub_slice
sub_slice-at body pre mid rest from to e h k =
    let size : (length pre + length mid) - length pre ≡ length mid = omega arith in
    let fits : (leb (length pre) (length pre + length mid)
          && leb (length pre + length mid) (length (pre ++ (mid ++ rest))))
        ≡ true =
      ground (arith, length-append pre (mid ++ rest), length-append mid rest) in
    rw (e, h, k, fits, drop-append pre (mid ++ rest), size, take-append mid rest) refl
