-- ===== src/Adapters/Kuka/Progress.antt =====
-- The decoder of KUKA frames ends, does not panic, and consumes the bytes of a frame.
use sonny.Prelude.{
  ℕ, zero, suc, ◌+◌, ◌≤◌, ◌<◌, ◌≡◌, refl, ◌∙◌, List, Option, none, some, ◌>>=◌, if◌then◌else◌,
  arith, leb, min, max, length, set, length-set, take, length-take, get_elem?, get_or,
  get_elem?-eq-get_or, Bool-cases, Option-cases, inl, inr, Returns,
}
use sonny.Float.{F32}
use sonny.Vectors.{max_joints, zero_array}
use sonny.Text.{codes}
use sonny.Brand.{starts_with}
use sonny.Adapters.Slice.{sub_slice-fits}
use sonny.Fieldbus.Drain.{Consumes, IsProductive}
use sonny.Adapters.Kuka.{
  find_subslice, ParsedVar, Places, locate_var, read_var, parse_var, parse_bracket_index, slot_of,
  take_var, scan_vars, decode_telemetry, kuka_ethernet_krl,
}
use sonny.Adapters.Kuka.Find.{find_subslice-fits, InOrder, locate_var-InOrder}

-- A variable that is read ends in the text, past where the search began.
abbrev Ends : List ℕ → ℕ → Option ParsedVar → Type 0
Ends body from none = Unit
Ends body from (some var) = (from < var.next_offset) × (var.next_offset ≤ length body)

read_var-Ends :
    (body : List ℕ) (from : ℕ) (p : Places)
    → InOrder body from p
    → Returns (Ends body from) (read_var body p)
unfolding read_var
read_var-Ends body from p o =
    let (name, _) =
      sub_slice-fits body p.name_begin p.name_end o.name
        (omega (arith, o.closes, o.value, o.ends)) in
    let (text, _) = sub_slice-fits body (p.close + 1) p.value_end o.value (omega (arith, o.ends)) in
    rw (name, text) (parsed _ _)
  where
    parsed :
        (name : List ℕ) (value : Option F32)
        → Returns (Ends body from) (
            some (do
              value ← value
              some (record { name = name; value = value; next_offset = p.value_end + 6 })))
    parsed name none = (none, refl, tt)
    parsed name (some value) = (
      some (record { name = name; value = value; next_offset = p.value_end + 6 }),
      refl,
      (omega (arith, o.begins, o.name, o.closes, o.value), o.ends),
    )

parse_var-Ends : (body : List ℕ) (from : ℕ) → Returns (Ends body from) (parse_var body from)
unfolding parse_var
parse_var-Ends body from = elim (Option-cases (locate_var body from)) [
  | inl e ↦ rw (parse_var, e) (none, refl, tt)
  | inr (p, e) ↦ rw (parse_var, e) (read_var-Ends body from p (locate_var-InOrder body from p e))
]

parse_bracket_index-Returns : (name : List ℕ) → Returns (λ _. Unit {0}) (parse_bracket_index name)
unfolding parse_bracket_index
parse_bracket_index-Returns name = elim (Option-cases (find_subslice name (codes "["))) [
  | inl e ↦ rw (parse_bracket_index, e) (none, refl, tt)
  | inr (open_at, e) ↦ elim (Option-cases (find_subslice name (codes "]"))) [
    | inl e' ↦ rw (parse_bracket_index, e, e') (none, refl, tt)
    | inr (close, e') ↦ elim (Bool-cases (leb close open_at)) [
      | inl b ↦ rw (parse_bracket_index, e, e', b) (none, refl, tt)
      | inr b ↦
          let fits : close + 1 ≤ length name =
            omega (arith, find_subslice-fits name (codes "]") close e') in
          let (text, _) =
            sub_slice-fits name (open_at + 1) close (ground arith) (omega (arith, fits)) in
          rw (parse_bracket_index, e, e', b, text) (_, refl, tt)
    ]
  ]
]

slot_of-lt : (index : Option ℕ) (n : ℕ) → n < max_joints → slot_of index n < max_joints
unfolding slot_of
slot_of-lt none n h = h
slot_of-lt (some i) n h = ground arith

-- The array keeps its size, and no more than 32 values count.
abbrev Fits : List F32 × ℕ → Type 0
Fits (values, n) = (length values ≡ max_joints) × (n ≤ max_joints)

take_var-Fits :
    (var : ParsedVar) (values : List F32) (n : ℕ)
    → n < max_joints
    → Fits (values, n)
    → Returns Fits (take_var var (values, n))
unfolding take_var
take_var-Fits var values n b (e, h) = elim (Bool-cases (starts_with var.name (codes "SEND"))) [
  | inl s ↦
      let (index, runs, _) = parse_bracket_index-Returns var.name in
      let idx = slot_of index n in
      let there : idx < max_joints = slot_of-lt index n b in
      let put : get_elem? values idx ≡ some (get_or values idx 0) =
        get_elem?-eq-get_or values idx 0 (omega (arith, there, e)) in
      rw (s, runs, put)
        (
          (set values idx var.value, max n (idx + 1)),
          refl,
          (length-set values idx var.value ∙ e, omega (arith, there, h)),
        )
  | inr s ↦ rw s ((values, n), refl, (e, h))
]

scan_vars-Fits :
    (fuel : ℕ) (body : List ℕ) (limit from : ℕ) (values : List F32) (n : ℕ)
    → limit ≤ max_joints
    → length body < from + fuel
    → from ≤ length body
    → Fits (values, n)
    → Returns Fits (scan_vars fuel body limit from (values, n))
unfolding scan_vars
scan_vars-Fits zero body limit from values n l b k f = absurd (omega (arith, b, k))
scan_vars-Fits (suc fuel) body limit from values n l b k f =
    let (found, runs, ends) = parse_var-Ends body from in
    rw (scan_vars, runs)
      (go found ends
        (λ from' values' n' b' k' f'. scan_vars-Fits fuel body limit from' values' n' l b' k' f'))
  where
    go :
        (found : Option ParsedVar)
        → Ends body from found
        → ((next : ℕ) (values' : List F32) (n' : ℕ)
            → length body < next + fuel
            → next ≤ length body
            → Fits (values', n')
            → Returns Fits (scan_vars fuel body limit next (values', n')))
        → Returns Fits (elim (some found) [
          | none ↦ none
          | some none ↦ some (values, n)
          | some (some var) ↦ if leb limit n then some (values, n) else (do
            read ← take_var var (values, n)
            scan_vars fuel body limit var.next_offset read)
        ])
    go none ends again = ((values, n), refl, f)
    go (some var) (past, there) again = elim (Bool-cases (leb limit n)) [
      | inl e ↦ rw e ((values, n), refl, f)
      | inr e ↦
          let ((values', n'), runs, f') = take_var-Fits var values n (ground arith) f in
          rw (e, runs) (again var.next_offset values' n' (omega (arith, b, past)) there f')
    ]

-- A frame of KUKA's is decoded without a panic, whatever stands in it: the search for variables ends,
-- the message consumes the bytes up to the end of the frame, and has at most 32 values.
pub decode_telemetry-Consumes :
    (acc : List ℕ) (joint_count : ℕ) → Returns (Consumes acc) (decode_telemetry acc joint_count)
unfolding decode_telemetry
decode_telemetry-Consumes acc joint_count =
    elim (Option-cases (find_subslice acc (codes "</Rob>"))) [
      | inl e ↦ rw (decode_telemetry, e) (none, refl, tt)
      | inr (end, e) ↦
          let there : end + 6 ≤ length acc = find_subslice-fits acc (codes "</Rob>") end e in
          let size : length (take end acc) ≡ end = omega (arith, length-take end acc, there) in
          let ((values, n), runs, (full, few)) =
            scan_vars-Fits (suc end) (take end acc) (min joint_count max_joints) 0 zero_array 0
              (omega arith) (omega (arith, size)) (omega arith) (refl, omega arith) in
          rw (decode_telemetry, e, runs)
            (some (end + 6, values, n), refl, (omega arith, there, omega (arith, full, few)))
    ]

pub kuka_ethernet_krl-IsProductive :
    (joint_count : ℕ) → IsProductive kuka_ethernet_krl joint_count (λ _. Unit {0})
unfolding kuka_ethernet_krl
kuka_ethernet_krl-IsProductive joint_count s acc h =
    let (decoded, runs, consumes) = decode_telemetry-Consumes acc joint_count in
    ((s, decoded), rw runs refl, (tt, consumes))
