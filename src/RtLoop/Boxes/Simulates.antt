-- ===== src/RtLoop/Boxes/Simulates.antt =====
-- When the boxes hold what the register as a value does.
use sonny.Prelude.{
  ℕ, ◌≡◌, ◌≢◌, refl, sym, ap, ◌∙◌, Option, none, some, ◌==◌, arith, Returns, Bool-cases, inl, inr,
}
use sonny.Vectors.{CommandVector}
use sonny.RtLoop.{LatestCommand}
use sonny.RtLoop.Boxes.{
  Boxes, lookup, Place, idle, boxed, replaced, taken, Shared, at, Log, Phase, resting, ready,
  replacing, returning, Abstract,
}
use sonny.RtLoop.Boxes.Ownership.{Owner, held, IsOwned}

-- A place, with the box for its address.
abbrev pub view : Option CommandVector → Place → Phase
view o idle = resting
view none (boxed p) = resting
view (some v) (boxed p) = ready v
view o (replaced p) = replacing
view none (taken p) = resting
view (some v) (taken p) = returning v

abbrev pub box_of : Boxes → Option ℕ → Option CommandVector
box_of m none = none
box_of m (some p) = lookup p m

-- The register holds what the slot's box does, and each thread is as far with the same command.
pub record Simulates (s : Shared) (a : Abstract) : Type 0 where
  pub register : a.register.slot ≡ box_of s.boxes s.slot
  pub phase : (t : ℕ) → a.phase t ≡ view (box_of s.boxes (held (s.place t))) (s.place t)

-- After a step: nothing undefined happens, the same is returned, and all is owned and alike.
abbrev pub Agrees : Option (Shared × Log) → Abstract × Log → Type 0
Agrees o a =
    Returns
      (λ out. ((owner : ℕ → Owner) × IsOwned owner out.0) × Simulates out.0 a.0 × (out.1 ≡ a.1)) o

pub box_same :
    (o : Option ℕ) (m m' : Boxes)
    → ((q : ℕ) → o ≡ some q → lookup q m' ≡ lookup q m)
    → box_of m' o ≡ box_of m o
box_same none m m' h = refl
box_same (some q) m m' h = h q refl

-- A step of one thread that leaves the boxes of the others alone.
pub update-Simulates :
    (s : Shared) (a : Abstract) (t : ℕ) (slot' : Option ℕ) (m' : Boxes) (place' : Place)
    (register' : LatestCommand) (phase' : Phase)
    → Simulates s a
    → register'.slot ≡ box_of m' slot'
    → phase' ≡ view (box_of m' (held place')) place'
    → ((u q : ℕ) → t ≢ u → held (s.place u) ≡ some q → lookup q m' ≡ lookup q s.boxes)
    → Simulates
        (record { slot = slot'; boxes = m'; place = at s.place t place' })
        (record { register = register'; phase = at a.phase t phase' })
update-Simulates s a t slot' m' place' register' phase' sim r e same = record {
  register = r;
  phase = λ u. elim (Bool-cases (t == u)) [
    | inl now ↦ rw now e
    | inr other ↦ rw other (
        sim.phase u
        ∙ ap (λ o. view o (s.place u))
            (sym (box_same (held (s.place u)) s.boxes m' (λ q. same u q (ground arith)))))
  ];
}
