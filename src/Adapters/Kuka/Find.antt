-- ===== src/Adapters/Kuka/Find.antt =====
-- Where a search finds: the needle lies in the text, behind the place where the search began.
use mathlib.Core.Option.{none-ne-some, some-injective}
use sonny.Prelude.{
  ℕ, suc, ◌+◌, ◌-◌, ◌≤◌, ◌≡◌, true, List, [], ◌∷◌, some, arith, ltb, ◌==◌, length, drop,
  length-drop, Bool-cases, Option-cases, inl, inr,
}
use sonny.Brand.{starts_with}
use sonny.Adapters.Kuka.{find_subslice, find_from, Places, name_tag, end_tag, locate_var}

starts_with-length : (s needle : List ℕ) → starts_with s needle ≡ true → length needle ≤ length s
starts_with-length s [] h = omega arith
starts_with-length [] (c ∷ cs) h = ground (arith, h)
starts_with-length (d ∷ s) (c ∷ cs) h = elim (Bool-cases (d == c)) [
  | inl e ↦ omega (arith, starts_with-length s cs (rw e at h))
  | inr e ↦ ground (arith, rw e at h)
]

pub find_subslice-fits :
    (s needle : List ℕ) (i : ℕ) → find_subslice s needle ≡ some i → i + length needle ≤ length s
unfolding find_subslice
find_subslice-fits [] needle i h = absurd (none-ne-some i h)
find_subslice-fits (c ∷ cs) needle i h = elim (Bool-cases (starts_with (c ∷ cs) needle)) [
  | inl e ↦
      let k : 0 ≡ i = some-injective _ _ (rw (find_subslice, e) at h) in
      omega (arith, k, starts_with-length (c ∷ cs) needle e)
  | inr e ↦ elim (Option-cases (find_subslice cs needle)) [
    | inl n ↦ absurd (none-ne-some i (rw (find_subslice, e, n) at h))
    | inr (j, n) ↦
        let k : suc j ≡ i = some-injective _ _ (rw (find_subslice, e, n) at h) in
        omega (arith, k, find_subslice-fits cs needle j n)
  ]
]

pub find_from-fits :
    (s needle : List ℕ) (from i : ℕ)
    → find_from s needle from ≡ some i
    → (from ≤ i) × (i + length needle ≤ length s)
unfolding find_from
find_from-fits s needle from i h = elim (Bool-cases (ltb (length s) from)) [
  | inl e ↦ absurd (none-ne-some i (rw e at h))
  | inr e ↦ elim (Option-cases (find_subslice (drop from s) needle)) [
    | inl n ↦ absurd (none-ne-some i (rw (e, n) at h))
    | inr (j, n) ↦
        let k : j + from ≡ i = some-injective _ _ (rw (e, n) at h) in
        let fits : j + length needle ≤ length s - from =
          omega (arith, find_subslice-fits (drop from s) needle j n, length-drop from s) in
        let b : from ≤ length s = ground (arith, e) in (omega (arith, k), omega (arith, k, fits, b))
  ]
]

-- The parts of an element stand in their order, in the text.
pub record InOrder (body : List ℕ) (from : ℕ) (p : Places) : Type 0 where
  pub begins : from + 11 ≤ p.name_begin
  pub name : p.name_begin ≤ p.name_end
  pub closes : p.name_end + 1 ≤ p.close
  pub value : p.close + 1 ≤ p.value_end
  pub ends : p.value_end + 6 ≤ length body

pub locate_var-InOrder :
    (body : List ℕ) (from : ℕ) (p : Places) → locate_var body from ≡ some p → InOrder body from p
unfolding locate_var
locate_var-InOrder body from p h = elim (Option-cases (find_from body name_tag from)) [
  | inl e ↦ absurd (none-ne-some p (rw e at h))
  | inr (start, e) ↦ elim (Option-cases (find_from body (34 ∷ []) (start + 11))) [
    | inl e' ↦ absurd (none-ne-some p (rw (e, e') at h))
    | inr (name_end, e') ↦ elim (Option-cases (find_from body (62 ∷ []) (name_end + 1))) [
      | inl e'' ↦ absurd (none-ne-some p (rw (e, e', e'') at h))
      | inr (close, e'') ↦ elim (Option-cases (find_from body end_tag (close + 1))) [
        | inl e3 ↦ absurd (none-ne-some p (rw (e, e', e'', e3) at h))
        | inr (value_end, e3) ↦
            let q : Places = record {
              name_begin = start + 11;
              name_end = name_end;
              close = close;
              value_end = value_end;
            } in
            let same : q ≡ p = some-injective _ _ (rw (e, e', e'', e3) at h) in
            rw (← same) (record {
              begins = omega (arith, find_from-fits body name_tag from start e);
              name = (find_from-fits body (34 ∷ []) (start + 11) name_end e').0;
              closes = (find_from-fits body (62 ∷ []) (name_end + 1) close e'').0;
              value = (find_from-fits body end_tag (close + 1) value_end e3).0;
              ends = (find_from-fits body end_tag (close + 1) value_end e3).1;
            })
      ]
    ]
  ]
]
