-- ===== src/RtLoop/Boxes/Tests.antt =====
-- Two producers and the loop, cut in the middle of each other's calls.
use sonny.Prelude.{ℕ, suc, ◌≤◌, max, ◌≡◌, refl, List, [], ◌∷◌, none, some, arith, Returns}
use sonny.Vectors.{zeros}
use sonny.RtLoop.Boxes.{
  Boxes, lookup, IsFresh, Action, make, swap_in, drop_old, swap_out, read, Shared, boxed, at, idle,
  run, start, run_abstract, start_abstract,
}
use sonny.RtLoop.Boxes.Refines.{only, run-run_abstract, run_leaves}

-- An allocator that never gives an address again that is below one in use.
abbrev above : Boxes → ℕ
above [] = 0
above ((p, v) ∷ m) = max (suc p) (above m)

above_le : (m : Boxes) (p : ℕ) → above m ≤ p → lookup p m ≡ none
above_le [] p h = refl
above_le ((q, v) ∷ m) p h = ground (arith, above_le m p)

above-IsFresh : IsFresh above
above-IsFresh m = above_le m (above m) (omega arith)

-- Both producers have their boxes before either swaps, and the loop takes the first while the second
-- frees nothing yet.
abbrev crossed : List (ℕ × Action)
crossed =
    (0, make (zeros 1))
    ∷ (1, make (zeros 2))
    ∷ (0, swap_in)
    ∷ (1, swap_in)
    ∷ (2, swap_out)
    ∷ (1, drop_old)
    ∷ (2, read)
    ∷ (2, swap_out)
    ∷ []

run-run_abstract_example :
    Returns (λ out. out.1 ≡ (run_abstract crossed start_abstract).1) (run above crossed start)
run-run_abstract_example = run-run_abstract above crossed above-IsFresh

returned : (run_abstract crossed start_abstract).1 ≡ (2, some (zeros 2)) ∷ (2, none) ∷ []
unfolding run_abstract start_abstract
returned = refl

-- A box that is published and not taken.
abbrev published_only : List (ℕ × Action)
published_only = (0, make (zeros 1)) ∷ (0, swap_in) ∷ []

abbrev after : Shared
after = record {
  slot = some 0;
  boxes = (0, zeros 1) ∷ [];
  place = at (at (λ t. idle) 0 (boxed 0)) 0 idle;
}

comes_to : run above published_only start ≡ some (after, [])
unfolding run start
comes_to = refl

at_rest : (t : ℕ) → after.place t ≡ idle
at_rest t = ground arith

run_leaves_example :
    lookup 0 after.boxes
    ≡ only after.slot (run_abstract published_only start_abstract).0.register.slot 0
run_leaves_example = run_leaves above published_only after [] above-IsFresh comes_to at_rest 0
