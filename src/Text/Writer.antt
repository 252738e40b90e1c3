-- ===== src/Text/Writer.antt =====
-- The writer cuts what does not fit off, and never panics.
use mathlib.Core.Path.{ap₂}
use mathlib.Core.List.{append_assoc, append-nil}
use sonny.Prelude.{
  ℕ, zero, suc, ◌+◌, ◌-◌, ◌≤◌, ◌≡◌, refl, sym, ap, ◌∙◌, List, [], ◌∷◌, ◌++◌, some, arith, length,
  min, take, drop, overwrite, overwrite-append, copy_into-fits, length-append, length-take,
  length-drop, drop-drop, take-append, Returns, lt_or_le, inl, inr,
}
use sonny.Text.{SliceWriter, write, write_pieces}

-- The pieces, joined.
abbrev pub concat : List (List ℕ) → List ℕ
concat [] = []
concat (piece ∷ pieces) = piece ++ concat pieces

-- As much of the text as fits stands in front of the buffer, and the rest of the buffer is as it was.
pub record Wrote (out text : List ℕ) (w : SliceWriter) : Type 0 where
  pub buf : w.buf ≡ take (length out) text ++ drop (length text) out
  pub pos : w.pos ≡ min (length text) (length out)

take-append_split :
    (n : ℕ) (xs ys : List ℕ) → take n (xs ++ ys) ≡ take n xs ++ take (n - length xs) ys
take-append_split zero xs ys = let e : 0 - length xs ≡ 0 = omega arith in rw e refl
take-append_split (suc n) [] ys = let e : suc n - 0 ≡ suc n = omega arith in rw e refl
take-append_split (suc n) (x ∷ xs) ys =
    let e : suc n - suc (length xs) ≡ n - length xs = omega arith in
    rw e (ap (◌∷◌ x) (take-append_split n xs ys))

drop_past : (n : ℕ) (xs : List ℕ) → length xs ≤ n → drop n xs ≡ []
drop_past zero [] h = refl
drop_past (suc n) [] h = refl
drop_past zero (x ∷ xs) h = absurd (omega (arith, h))
drop_past (suc n) (x ∷ xs) h = drop_past n xs (omega arith)

take_nil : (n : ℕ) → take {A = ℕ} n [] ≡ []
take_nil zero = refl
take_nil (suc n) = refl

take_min : (n : ℕ) (xs : List ℕ) → take (min (length xs) n) xs ≡ take n xs
take_min zero xs = let e : min (length xs) 0 ≡ 0 = omega arith in rw e refl
take_min (suc n) [] = let e : min 0 (suc n) ≡ 0 = omega arith in rw e refl
take_min (suc n) (x ∷ xs) =
    let e : min (suc (length xs)) (suc n) ≡ suc (min (length xs) n) = omega arith in
    rw e (ap (◌∷◌ x) (take_min n xs))

write-Wrote :
    (out text piece : List ℕ) (w : SliceWriter)
    → Wrote out text w
    → Returns (Wrote out (text ++ piece)) (write piece w)
unfolding write
write-Wrote out text piece w h = (
  record { buf = overwrite w.buf w.pos cut; pos = w.pos + n },
  runs,
  record { buf = shape; pos = count },
)
  where
    n : ℕ
    n = min (length piece) (length w.buf - w.pos)

    cut : List ℕ
    cut = take n piece

    done : List ℕ
    done = take (length out) text

    rest : List ℕ
    rest = drop (length text) out

    length_done : length done ≡ w.pos
    length_done = omega (arith, length-take (length out) text, h.pos)

    length_buf : length w.buf ≡ length out
    length_buf = omega (
      arith,
      ap length h.buf,
      length-append done rest,
      length-take (length out) text,
      length-drop (length text) out,
    )

    length_rest : length rest ≡ length out - length text
    length_rest = length-drop (length text) out

    length_cut : length cut ≡ n
    length_cut = omega (arith, length-take n piece)

    runs : write piece w ≡ some (record { buf = overwrite w.buf w.pos cut; pos = w.pos + n })
    runs =
        rw
          (copy_into-fits w.buf w.pos cut
            (omega (arith, length_cut, length_done, length_buf, h.pos)))
          refl

    count : w.pos + n ≡ min (length (text ++ piece)) (length out)
    count = omega (arith, h.pos, length-append text piece, length_buf)

    front : done ++ cut ≡ take (length out) (text ++ piece)
    front =
        let e : n ≡ min (length piece) (length out - length text) =
          omega (arith, length_buf, h.pos) in
        ap (λ k. done ++ take k piece) e
        ∙ ap (λ p. done ++ p) (take_min (length out - length text) piece)
        ∙ sym (take-append_split (length out) text piece)

    back : drop (length cut) rest ≡ drop (length (text ++ piece)) out
    back = elim (lt_or_le (length out) (length text + length piece)) [
      | inl h' ↦
          drop_past (length cut) rest
            (omega (arith, length_cut, length_rest, length_buf, h.pos, h'))
          ∙ sym
              (drop_past (length (text ++ piece)) out (omega (arith, length-append text piece, h')))
      | inr h' ↦
          drop-drop (length cut) (length text) out
          ∙ ap (λ k. drop k out)
              (omega (arith, length_cut, length_buf, h.pos, length-append text piece, h'))
    ]

    shape :
        overwrite w.buf w.pos cut
        ≡ take (length out) (text ++ piece) ++ drop (length (text ++ piece)) out
    shape =
        ap₂ (λ a b. overwrite a b cut) h.buf (sym length_done)
        ∙ overwrite-append done cut rest
        ∙ ap₂ ◌++◌ front back

write_pieces-Wrote :
    (out text : List ℕ) (pieces : List (List ℕ)) (w : SliceWriter)
    → Wrote out text w
    → Returns (Wrote out (text ++ concat pieces)) (write_pieces pieces w)
unfolding write_pieces
write_pieces-Wrote out text [] w h = (w, refl, rw (append-nil text) h)
write_pieces-Wrote out text (piece ∷ pieces) w h =
    let (v, runs, hv) = write-Wrote out text piece w h in
    let (u, runs', hu) = write_pieces-Wrote out (text ++ piece) pieces v hv in
    (u, rw (write_pieces, runs) runs', rw (← append_assoc text piece (concat pieces)) hu)

-- From the front of a buffer.
pub write_pieces_front :
    (out : List ℕ) (pieces : List (List ℕ))
    → Returns
        (λ w.
          (take w.pos w.buf ≡ take (length out) (concat pieces))
          × (length w.buf ≡ length out)
          × (w.pos ≤ length out))
        (write_pieces pieces (record { buf = out; pos = 0 }))
write_pieces_front out pieces =
    let (w, runs, h) =
      write_pieces-Wrote out [] pieces (record { buf = out; pos = 0 })
        (record { buf = start; pos = omega arith }) in
    (w, runs, (front w h, size w h, omega (arith, h.pos)))
  where
    start : out ≡ take (length out) [] ++ drop 0 out
    start = rw (take_nil (length out)) refl

    text : List ℕ
    text = concat pieces

    front : (w : SliceWriter) → Wrote out text w → take w.pos w.buf ≡ take (length out) text
    front w h =
        ap₂ take (omega (arith, h.pos, length-take (length out) text)) h.buf
        ∙ take-append (take (length out) text) (drop (length text) out)

    size : (w : SliceWriter) → Wrote out text w → length w.buf ≡ length out
    size w h = omega (
      arith,
      ap length h.buf,
      length-append (take (length out) text) (drop (length text) out),
      length-take (length out) text,
      length-drop (length text) out,
    )
