-- ===== src/Adapters/Kuka/Element.antt =====
-- What the decoder reads from one variable of a frame.
use mathlib.Core.List.{append_assoc}
use sonny.Prelude.{
  ℕ, ◌+◌, ◌^◌, ◌≡◌, ◌<◌, refl, sym, ap, ◌∙◌, true, false, List, [], ◌∷◌, ◌++◌, All, some, arith,
  ltb, leb, ◌==◌, length, length-append,
}
use sonny.Float.{F32, IsFinite}
use sonny.Vectors.{max_joints}
use sonny.Text.{codes, print_uint, print_fixed, parse_usize, parse_digits, number_of, eval, trim}
use sonny.Text.Digits.{IsDigit, print_uint-IsDigit, eval-print_uint, span_digits-All}
use sonny.Text.Decimal.{
  IsMark, settled, print_fixed-IsMark, trim_id, All-map, NotSpace, IsMark-NotSpace,
  parse_f32-print_fixed,
}
use sonny.Adapters.Packet.{sub_slice}
use sonny.Adapters.Kuka.{
  find_subslice, find_from, name_tag, end_tag, locate_var, read_var, parse_var, parse_bracket_index,
}
use sonny.Adapters.Kuka.Skips.{Skips, marks-Skips, find_from-at, sub_slice-at}
use sonny.Adapters.Kuka.Reply.{send_name, element, number_marks, no_angle, no_quote, no_bracket}

parse_usize-digits :
    (ds : List ℕ) (n : ℕ)
    → All IsDigit ds
    → eval 0 ds ≡ n
    → 0 < n
    → n < 2 ^ 64
    → parse_usize ds ≡ some n
unfolding parse_usize parse_digits number_of eval
parse_usize-digits [] n h e low high = absurd (omega (arith, e, low))
parse_usize-digits (c ∷ cs) n h e low high =
    let no_plus : (c == 43) ≡ false = ground (arith, h.0) in
    let small : ltb n (2 ^ 64) ≡ true = ground (arith, high) in
    rw (no_plus, span_digits-All (c ∷ cs) h, e, small) refl

name_opens : (i : ℕ) → find_subslice (send_name i) (codes "[") ≡ some 4
unfolding find_subslice
name_opens i = refl

name_closes :
    (i : ℕ) → find_subslice (send_name i) (codes "]") ≡ some (5 + length (print_uint (i + 1)))
unfolding find_subslice
name_closes i =
    let close : find_subslice (print_uint (i + 1) ++ codes "]") (codes "]")
        ≡ some (length (print_uint (i + 1)) + 0) =
      marks-Skips 93 [] (print_uint (i + 1)) (number_marks (i + 1)) no_bracket (codes "]") 0 refl in
    rw close (ap some (omega arith))

index_between :
    (name text : List ℕ) (open_at close n : ℕ)
    → find_subslice name (codes "[") ≡ some open_at
    → find_subslice name (codes "]") ≡ some close
    → leb close open_at ≡ false
    → sub_slice name (open_at + 1) close ≡ some text
    → parse_usize (trim text) ≡ some n
    → parse_bracket_index name ≡ some (some n)
unfolding parse_bracket_index
index_between name text open_at close n opens closes behind inside value =
    rw (parse_bracket_index, opens, closes, behind, inside, value) refl

-- The index of a name.
pub index_of : (i : ℕ) → i < max_joints → parse_bracket_index (send_name i) ≡ some (some (i + 1))
index_of i h =
    let digits : List ℕ = print_uint (i + 1) in
    let marks : All IsMark digits = number_marks (i + 1) in
    let behind : leb (5 + length digits) 4 ≡ false = ground arith in
    let text : sub_slice (send_name i) 5 (5 + length digits) ≡ some digits =
      sub_slice-at (send_name i) (codes "SEND[") digits (codes "]") 5 (5 + length digits) refl refl
        (omega arith) in
    let value : parse_usize (trim digits) ≡ some (i + 1) =
      ap parse_usize (trim_id digits (All-map IsMark NotSpace IsMark-NotSpace digits marks))
      ∙ parse_usize-digits digits (i + 1) (print_uint-IsDigit (i + 1)) (eval-print_uint (i + 1))
          (omega arith) (omega (arith, h)) in
    index_between (send_name i) digits 4 (5 + length digits) (i + 1) (name_opens i) (name_closes i)
      behind text value

name_found : (i : ℕ) (v : F32) (rest : List ℕ) → find_subslice (element i v rest) name_tag ≡ some 0
unfolding find_subslice
name_found i v rest = refl

quote_found :
    (i : ℕ) (rest : List ℕ)
    → find_subslice (send_name i ++ (codes "\"" ++ rest)) (codes "\"")
      ≡ some (6 + length (print_uint (i + 1)))
unfolding find_subslice
quote_found i rest =
    let quote : find_subslice (print_uint (i + 1) ++ (codes "]" ++ (codes "\"" ++ rest)))
          (codes "\"")
        ≡ some (length (print_uint (i + 1)) + 1) =
      marks-Skips 34 [] (print_uint (i + 1)) (number_marks (i + 1)) no_quote
        (codes "]" ++ (codes "\"" ++ rest)) 1 refl in
    rw (append_assoc (print_uint (i + 1)) (codes "]") (codes "\"" ++ rest), quote)
      (ap some (omega arith))

angle_found : (rest : List ℕ) → find_subslice (codes ">" ++ rest) (codes ">") ≡ some 0
unfolding find_subslice
angle_found rest = refl

tag_found :
    (v : F32) (rest : List ℕ)
    → IsFinite v
    → find_subslice (print_fixed v ++ (end_tag ++ rest)) end_tag ≡ some (length (print_fixed v) + 0)
unfolding find_subslice
tag_found v rest f =
    marks-Skips 60 (codes "/Var>") (print_fixed v) (print_fixed-IsMark v f) no_angle
      (end_tag ++ rest) 0 refl

-- The name, the value and the place behind it.
pub parse_var-element :
    (body pre gap rest : List ℕ) (i : ℕ) (v : F32) (from : ℕ)
    → IsFinite v
    → Skips name_tag gap
    → body ≡ pre ++ (gap ++ element i v rest)
    → from ≡ length pre
    → (next : ℕ) × (parse_var body from
        ≡ some (some (record { name = send_name i; value = settled v; next_offset = next })))
      × ((done : List ℕ) × (body ≡ done ++ rest) × (next ≡ length done))
unfolding parse_var locate_var read_var
parse_var-element body pre gap rest i v from f skips e h =
    let digits : List ℕ = print_uint (i + 1) in
    let text : List ℕ = print_fixed v in
    let ending : List ℕ = end_tag ++ rest in
    let p : List ℕ = (pre ++ gap) ++ name_tag in
    let q : List ℕ = (p ++ (send_name i ++ codes "\"")) ++ codes ">" in
    let e1 : body ≡ p ++ (send_name i ++ (codes "\">" ++ (text ++ ending))) =
      e
      ∙ sym (append_assoc pre gap (element i v rest))
      ∙ sym (append_assoc (pre ++ gap) name_tag _) in
    let e2 : body ≡ (p ++ (send_name i ++ codes "\"")) ++ (codes ">" ++ (text ++ ending)) =
      e1
      ∙ ap (λ r. p ++ r)
          (sym (append_assoc (send_name i) (codes "\"") (codes ">" ++ (text ++ ending))))
      ∙ sym (append_assoc p (send_name i ++ codes "\"") (codes ">" ++ (text ++ ending))) in
    let e3 : body ≡ q ++ (text ++ ending) =
      e2 ∙ sym (append_assoc (p ++ (send_name i ++ codes "\"")) (codes ">") (text ++ ending)) in
    let start : ℕ = (length gap + 0) + from in
    let name_end : ℕ = (6 + length digits) + (start + 11) in
    let close : ℕ = 0 + (name_end + 1) in
    let value_end : ℕ = (length text + 0) + (close + 1) in
    let at_p : start + 11 ≡ length p =
      omega (arith, h, length-append pre gap, length-append (pre ++ gap) name_tag) in
    let name_size : length (send_name i) ≡ 6 + length digits =
      omega (arith, length-append digits (codes "]")) in
    let at_q : close + 1 ≡ length q = omega (
      arith,
      at_p,
      name_size,
      length-append (p ++ (send_name i ++ codes "\"")) (codes ">"),
      length-append p (send_name i ++ codes "\""),
      length-append (send_name i) (codes "\""),
    ) in
    let at_close : name_end + 1 ≡ length (p ++ (send_name i ++ codes "\"")) = omega (
      arith,
      at_p,
      name_size,
      length-append p (send_name i ++ codes "\""),
      length-append (send_name i) (codes "\""),
    ) in
    let starts : find_from body name_tag from ≡ some start =
      find_from-at body pre (gap ++ element i v rest) name_tag from (length gap + 0) e h
        (skips (element i v rest) 0 (name_found i v rest)) in
    let names : find_from body (codes "\"") (start + 11) ≡ some name_end =
      find_from-at body p _ (codes "\"") (start + 11) (6 + length digits) e1 at_p
        (quote_found i (codes ">" ++ (text ++ ending))) in
    let closes : find_from body (codes ">") (name_end + 1) ≡ some close =
      find_from-at body (p ++ (send_name i ++ codes "\"")) _ (codes ">") (name_end + 1) 0 e2
        at_close (angle_found (text ++ ending)) in
    let ends : find_from body end_tag (close + 1) ≡ some value_end =
      find_from-at body q (text ++ ending) end_tag (close + 1) (length text + 0) e3 at_q
        (tag_found v rest f) in
    let name : sub_slice body (start + 11) name_end ≡ some (send_name i) =
      sub_slice-at body p (send_name i) _ (start + 11) name_end e1 at_p
        (omega (arith, at_p, name_size)) in
    let value : sub_slice body (close + 1) value_end ≡ some text =
      sub_slice-at body q text ending (close + 1) value_end e3 at_q (omega (arith, at_q)) in
    (
      value_end + 6,
      rw
          (
            parse_var,
            locate_var,
            starts,
            names,
            closes,
            ends,
            read_var,
            name,
            value,
            parse_f32-print_fixed v f,
          )
          refl,
      (
        q ++ (text ++ end_tag),
        e3
            ∙ ap (λ r. q ++ r) (sym (append_assoc text end_tag rest))
            ∙ sym (append_assoc q (text ++ end_tag) rest),
        omega (arith, at_q, length-append q (text ++ end_tag), length-append text end_tag),
      ),
    )
