-- ===== src/Adapters/Kuka/Frames.antt =====
-- The decoder over a whole frame of a robot.
use mathlib.Core.List.{append_assoc, append-nil}
use sonny.Prelude.{
  ℕ, zero, suc, ◌+◌, ◌-◌, ◌≡◌, ◌≤◌, ◌<◌, refl, sym, ap, ◌∙◌, true, false, ◌&&◌, List, [], ◌∷◌, ◌++◌,
  All, none, some, arith, leb, map, min, set, length, take, length-append, length-set, take-set,
  take-append, get_elem?, get_or, get_elem?-eq-get_or,
}
use sonny.Float.{F32, IsFinite}
use sonny.Vectors.{max_joints, zero_array}
use sonny.Brand.{starts_with}
use sonny.Text.{codes}
use sonny.Text.Decimal.{settled}
use sonny.Adapters.Kuka.{
  find_subslice, name_tag, xml_header, locate_var, parse_var, ParsedVar, parse_bracket_index,
  slot_of, take_var, scan_vars, decode_telemetry,
}
use sonny.Adapters.Kuka.Skips.{Skips, find_from-none}
use sonny.Adapters.Kuka.Reply.{
  send_name, elements, reply, frame_end, closing, elements-longer, reply_end,
}
use sonny.Adapters.Kuka.Element.{index_of, parse_var-element}

take_send :
    (var : ParsedVar) (array : List F32) (i : ℕ) (old : F32)
    → starts_with var.name (codes "SEND") ≡ true
    → parse_bracket_index var.name ≡ some (some (i + 1))
    → get_elem? array i ≡ some old
    → i < max_joints
    → take_var var (array, i) ≡ some (set array i var.value, suc i)
unfolding take_var slot_of
take_send var array i old sends index there low =
    let first : (leb 1 (i + 1) && leb (i + 1) max_joints) ≡ true = ground (arith, low) in
    let slot : i + 1 - 1 ≡ i = omega arith in
    rw (take_var, sends, index, first, slot, there)
      (ap (λ n. some (set array i var.value, n)) (omega arith))

-- A step of the loop over an element.
scan_step :
    (fuel : ℕ) (body : List ℕ) (limit from i : ℕ) (array : List F32) (var : ParsedVar)
    → parse_var body from ≡ some (some var)
    → leb limit i ≡ false
    → take_var var (array, i) ≡ some (set array i var.value, suc i)
    → scan_vars (suc fuel) body limit from (array, i)
      ≡ scan_vars fuel body limit var.next_offset (set array i var.value, suc i)
unfolding scan_vars
scan_step fuel body limit from i array var parsed here taken =
    rw (scan_vars, parsed, here, taken) refl

scan_stop :
    (fuel : ℕ) (body : List ℕ) (limit from i : ℕ) (array : List F32)
    → parse_var body from ≡ some none
    → scan_vars (suc fuel) body limit from (array, i) ≡ some (array, i)
unfolding scan_vars
scan_stop fuel body limit from i array parsed = rw (scan_vars, parsed) refl

no_var :
    (body pre rest : List ℕ) (from : ℕ)
    → body ≡ pre ++ rest
    → from ≡ length pre
    → find_subslice rest name_tag ≡ none
    → parse_var body from ≡ some none
unfolding parse_var locate_var
no_var body pre rest from e h lost =
    rw (parse_var, locate_var, find_from-none body pre rest name_tag from e h lost) refl

no_tag : find_subslice closing name_tag ≡ none
unfolding find_subslice
no_tag = refl

scan-elements :
    (fuel limit i : ℕ) (vs array done : List F32) (body pre gap : List ℕ) (from : ℕ)
    → length vs < fuel
    → i + length vs ≤ limit
    → limit ≤ max_joints
    → length array ≡ max_joints
    → take i array ≡ done
    → All IsFinite vs
    → Skips name_tag gap
    → find_subslice (gap ++ closing) name_tag ≡ none
    → body ≡ pre ++ (gap ++ elements i vs closing)
    → from ≡ length pre
    → (out : List F32) × (scan_vars fuel body limit from (array, i) ≡ some (out, i + length vs))
      × (take (i + length vs) out ≡ done ++ map settled vs)
scan-elements zero limit i vs array done body pre gap from fuel fits most size t f skips lost e h =
    absurd (omega (arith, fuel))
scan-elements (suc fuel) limit i [] array done body pre gap from more fits most size t f skips lost
      e h =
    let same : i + 0 ≡ i = omega arith in
    (
      array,
      rw same
          (scan_stop fuel body limit from i array (no_var body pre (gap ++ closing) from e h lost)),
      rw (same, append-nil done) t,
    )
scan-elements (suc fuel) limit i (v ∷ vs) array done body pre gap from more fits most size t (fv, f)
      skips lost e h =
    let low : i < length array = omega (arith, fits, most, size) in
    let (next, parsed, (front, e', h')) =
      parse_var-element body pre gap (elements (suc i) vs closing) i v from fv skips e h in
    let here : leb limit i ≡ false = ground (arith, fits) in
    let taken =
      take_send (record { name = send_name i; value = settled v; next_offset = next }) array i
        (get_or array i 0) refl (index_of i (omega (arith, low, size)))
        (get_elem?-eq-get_or array i 0 low) (omega (arith, low, size)) in
    let (out, runs, read) =
      scan-elements fuel limit (suc i) vs (set array i (settled v)) (done ++ (settled v ∷ [])) body
        front [] next (omega (arith, more)) (omega (arith, fits)) most
        (length-set array i (settled v) ∙ size)
        (take-set array i (settled v) low ∙ ap (λ s. s ++ (settled v ∷ [])) t) f
        (λ t k found. found ∙ ap some (omega arith)) (no_tag) e' h' in
    let count : suc i + length vs ≡ i + suc (length vs) = omega arith in
    (
      out,
      scan_step fuel body limit from i array _ parsed here taken
          ∙ runs
          ∙ ap (λ n. some (out, n)) count,
      ap (λ n. take n out) (sym count) ∙ read ∙ append_assoc done (settled v ∷ []) (map settled vs),
    )

header_Skips : Skips name_tag xml_header
unfolding find_subslice
header_Skips t k found = rw found (ap some (omega arith))

header_lost : find_subslice (xml_header ++ closing) name_tag ≡ none
unfolding find_subslice
header_lost = refl

-- A frame with the finite values of a robot's joints, at most as many as are asked for and 32, as the
-- variables SEND[1], SEND[2] and so on, is read as one message: its bytes are consumed and nothing of
-- what follows, and it has as many values, each the nearest number to its six places.
pub decode_telemetry-reply :
    (values : List F32) (rest : List ℕ) (joint_count : ℕ)
    → length values ≤ joint_count
    → length values ≤ max_joints
    → All IsFinite values
    → (array : List F32) × (decode_telemetry (reply values ++ (frame_end ++ rest)) joint_count
        ≡ some (some (length (reply values) + 6, array, length values)))
      × (take (length values) array ≡ map settled values)
unfolding decode_telemetry
decode_telemetry-reply values rest joint_count asked most f =
    let (array, runs, front) =
      scan-elements (suc (length (reply values))) (min joint_count max_joints) 0 values zero_array
        [] (reply values) [] xml_header 0
        (omega (
          arith,
          elements-longer 0 values closing,
          length-append xml_header (elements 0 values closing),
        ))
        (omega (arith, asked, most)) (omega arith) refl refl f header_Skips header_lost refl refl in
    let count : 0 + length values ≡ length values = omega arith in
    (
      array,
      rw
          (
            decode_telemetry,
            reply_end values rest f,
            take-append (reply values) (frame_end ++ rest),
            runs,
          )
          (ap (λ n. some (some (length (reply values) + 6, array, n))) count),
      ap (λ n. take n array) (sym count) ∙ front,
    )
