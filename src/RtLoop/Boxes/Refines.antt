-- ===== src/RtLoop/Boxes/Refines.antt =====
-- The boxes behave as the register does, and none is used after it is freed, freed twice, or lost.
use sonny.Prelude.{
  subst, ℕ, ◌≡◌, refl, sym, ap, ◌∙◌, List, [], ◌∷◌, ◌++◌, Option, none, some, if◌then◌else◌, ◌==◌,
  arith, Returns,
}
use mathlib.Core.Path.{ap₂}
use sonny.Vectors.{CommandVector}
use sonny.RtLoop.Boxes.{
  Boxes, lookup, IsFresh, idle, Shared, Action, Log, act, run, start, Abstract, act_abstract,
  run_abstract, start_abstract,
}
use sonny.RtLoop.Boxes.Ownership.{Owner, nobody, by_slot, by_thread, held, IsOwned}
use sonny.RtLoop.Boxes.Simulates.{box_of, Simulates, Agrees}
use sonny.RtLoop.Boxes.Steps.{act-Agrees}

-- The place decides the phase, so a step of the one is a step of the other.
abbrev pub IsAlike : Shared → Abstract → Type 0
IsAlike s a = ((owner : ℕ → Owner) × IsOwned owner s) × Simulates s a

step-Agrees :
    (alloc : Boxes → ℕ) (s : Shared) (a : Abstract) (t : ℕ) (action : Action)
    → IsFresh alloc
    → IsAlike s a
    → Agrees (act alloc t action (s.place t) s) (act_abstract t action (a.phase t) a)
step-Agrees alloc s a t action fresh ((owner, own), sim) = rw (sim.phase t) (
    act-Agrees owner s a own sim t alloc action (s.place t) (box_of s.boxes (held (s.place t)))
      fresh refl refl)

run-Alike :
    (alloc : Boxes → ℕ) (schedule : List (ℕ × Action)) (s : Shared) (a : Abstract)
    → IsFresh alloc
    → IsAlike s a
    → Agrees (run alloc schedule s) (run_abstract schedule a)
unfolding run run_abstract
run-Alike alloc [] s a fresh ((owner, own), sim) = ((s, []), refl, ((owner, own), sim, refl))
run-Alike alloc ((t, action) ∷ schedule) s a fresh alike =
    let (now, steps, (own, sim, log)) = step-Agrees alloc s a t action fresh alike in
    let (later, runs, (own', sim', log')) =
      run-Alike alloc schedule now.0 (act_abstract t action (a.phase t) a).0 fresh (own, sim) in
    ((later.0, now.1 ++ later.1), rw (steps, runs) refl, (own', sim', ap₂ ◌++◌ log log'))

start-IsAlike : IsAlike start start_abstract
unfolding start start_abstract
start-IsAlike = (
  (
    λ p. nobody,
    record { live = λ p. ground arith; slot = λ p. ground arith; thread = λ t p. ground arith },
  ),
  record { register = refl; phase = λ t. refl },
)

-- However publishers and takers come between each other, no box is read or freed that is not there,
-- and the takes return what they return where a call is one step of the register as a value.
pub run-run_abstract :
    (alloc : Boxes → ℕ) (schedule : List (ℕ × Action))
    → IsFresh alloc
    → Returns (λ out. out.1 ≡ (run_abstract schedule start_abstract).1) (run alloc schedule start)
run-run_abstract alloc schedule fresh =
    let (out, runs, (own, sim, log)) =
      run-Alike alloc schedule start start_abstract fresh start-IsAlike in
    (out, runs, log)

-- The memory of one box, or of none.
abbrev pub only : Option ℕ → Option CommandVector → ℕ → Option CommandVector
only none v p = none
only (some q) v p = if q == p then v else none

at_rest :
    (owner : ℕ → Owner) (s : Shared) (a : Abstract)
    → IsOwned owner s
    → Simulates s a
    → ((t : ℕ) → s.place t ≡ idle)
    → (p : ℕ) (o : Owner) (slot : Option ℕ) → owner p ≡ o
    → s.slot ≡ slot
    → lookup p s.boxes ≡ only slot a.register.slot p
at_rest owner s a own sim done p nobody none e h = ground (arith, own.live p)
at_rest owner s a own sim done p nobody (some q) e h = ground (arith, own.live p, own.slot p)
at_rest owner s a own sim done p by_slot none e h = ground (arith, own.slot p)
at_rest owner s a own sim done p by_slot (some q) e h =
    let mine : some q ≡ some p = sym h ∙ (own.slot p).1 e in
    rw (sim.register ∙ ap (box_of s.boxes) h) (ground arith)
at_rest owner s a own sim done p (by_thread t) slot e h =
    absurd (ground (arith, own.thread t p, done t))

-- When every call has returned, the only box that is left is the one in the slot, if there is one, and
-- it holds the value of the register: nothing leaks.
pub run_leaves :
    (alloc : Boxes → ℕ) (schedule : List (ℕ × Action)) (s : Shared) (log : Log)
    → IsFresh alloc
    → run alloc schedule start ≡ some (s, log)
    → ((t : ℕ) → s.place t ≡ idle)
    → (p : ℕ)
    → lookup p s.boxes ≡ only s.slot (run_abstract schedule start_abstract).0.register.slot p
run_leaves alloc schedule s log fresh e done p =
    let (out, runs, ((owner, own), sim, logs)) =
      run-Alike alloc schedule start start_abstract fresh start-IsAlike in
    let same : out.0 ≡ s = cc in
    at_rest owner s _ (subst (IsOwned owner) same own)
      (subst (λ r. Simulates r (run_abstract schedule start_abstract).0) same sim) done p (owner p)
      s.slot refl refl
