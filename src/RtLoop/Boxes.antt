-- ===== src/RtLoop/Boxes.antt =====
-- src/diagnostics/frequency_enforcer.rs: the raw pointers behind LatestCommand. The heap holds the
-- boxes that are allocated, each at its address, and an address is not null. Any number of threads
-- publish and take; a call is cut where another thread can come between: after the box is made, and
-- after the swap. The allocator is a parameter. `none` is undefined behaviour: a box that is read or
-- freed and is not there. Two swaps of one slot come one after the other, as AcqRel orders them.
pub mod Ownership
pub mod Simulates
pub mod Steps
pub mod Refines
mod Tests
use sonny.Prelude.{ℕ, List, [], ◌∷◌, ◌++◌, Option, none, some, ◌>>=◌, if◌then◌else◌, ◌==◌, ◌≡◌}
use sonny.Vectors.{CommandVector}
use sonny.RtLoop.{LatestCommand, new_slot, publish, take_slot}

-- The boxes, the last one made first.
abbrev pub Boxes : Type 0
Boxes = List (ℕ × CommandVector)

abbrev pub lookup : ℕ → Boxes → Option CommandVector
lookup p [] = none
lookup p ((q, v) ∷ m) = if q == p then some v else lookup p m

-- The memory without a box; none when it is not there.
unfoldable pub release : ℕ → Boxes → Boxes
release p [] = []
release p ((q, v) ∷ m) = let rest = release p m in if q == p then rest else (q, v) ∷ rest

-- What an allocator has to give: an address that is not in use.
abbrev pub IsFresh : (Boxes → ℕ) → Type 0
IsFresh alloc = (m : Boxes) → lookup (alloc m) m ≡ none

-- Where a thread is: in no call; in `publish` with its new box, or with the old one; in `take` or
-- `take_or` with the box that it took.
pub data Place : Type 0 where
  idle : Place
  boxed : ℕ → Place
  replaced : ℕ → Place
  taken : ℕ → Place

pub record Shared : Type 0 where
  pub slot : Option ℕ
  pub boxes : Boxes
  pub place : ℕ → Place

-- What a thread does next.
pub data Action : Type 0 where
  make : CommandVector → Action
  swap_in : Action
  drop_old : Action
  swap_out : Action
  read : Action

abbrev pub at {ℓ} : {A : Type ℓ} → (ℕ → A) → ℕ → A → ℕ → A
at f t a u = if t == u then a else f u

-- What a take returns, and to which thread; `take_or` puts the fallback for `none`.
abbrev pub Log : Type 0
Log = List (ℕ × Option CommandVector)

module _ (alloc : Boxes → ℕ) where
  -- A step of a thread; an action that does not fit where the thread is does nothing.
  unfoldable pub act : ℕ → Action → Place → Shared → Option (Shared × Log)
  unfolding release
  act t (make cmd) idle s = some (
    record s {
      boxes = (alloc s.boxes, cmd) ∷ s.boxes;
      place = at s.place t (boxed (alloc s.boxes));
    },
    [],
  )
  act t swap_in (boxed p) s = some (
    record s {
      slot = some p;
      place = at s.place t (elim s.slot [ none ↦ idle | some q ↦ replaced q ]);
    },
    [],
  )
  act t drop_old (replaced p) s = elim (lookup p s.boxes) [
    | none ↦ none
    | some v ↦ some (record s { boxes = release p s.boxes; place = at s.place t idle }, [])
  ]
  act t swap_out idle s = elim s.slot [
    | none ↦ some (record s { slot = none }, (t, none) ∷ [])
    | some p ↦ some (record s { slot = none; place = at s.place t (taken p) }, [])
  ]
  act t read (taken p) s = elim (lookup p s.boxes) [
    | none ↦ none
    | some v ↦
        some (record s { boxes = release p s.boxes; place = at s.place t idle }, (t, some v) ∷ [])
  ]
  act t _ _ s = some (s, [])

  -- A schedule says which thread makes its next step.
  unfoldable pub run : List (ℕ × Action) → Shared → Option (Shared × Log)
  unfolding act
  run [] s = some (s, [])
  run ((t, a) ∷ schedule) s = do
    now ← act t a (s.place t) s
    later ← run schedule now.0
    some (later.0, now.1 ++ later.1)

unfoldable pub start : Shared
start = record { slot = none; boxes = []; place = λ t. idle }

-- The same calls on the register as a value, where a swap is the whole call: what a thread keeps until
-- it returns is a command.
pub data Phase : Type 0 where
  resting : Phase
  ready : CommandVector → Phase
  replacing : Phase
  returning : CommandVector → Phase

pub record Abstract : Type 0 where
  pub register : LatestCommand
  pub phase : ℕ → Phase

unfoldable pub act_abstract : ℕ → Action → Phase → Abstract → Abstract × Log
unfolding publish take_slot
act_abstract t (make cmd) resting s = (record s { phase = at s.phase t (ready cmd) }, [])
act_abstract t swap_in (ready cmd) s = (
  record {
    register = publish s.register cmd;
    phase = at s.phase t (elim s.register.slot [ none ↦ resting | some _ ↦ replacing ]);
  },
  [],
)
act_abstract t drop_old replacing s = (record s { phase = at s.phase t resting }, [])
act_abstract t swap_out resting s =
    let out = take_slot s.register in
    elim out.1 [
      | none ↦ (record s { register = out.0 }, (t, none) ∷ [])
      | some v ↦ (record { register = out.0; phase = at s.phase t (returning v) }, [])
    ]
act_abstract t read (returning v) s = (record s { phase = at s.phase t resting }, (t, some v) ∷ [])
act_abstract t _ _ s = (s, [])

unfoldable pub run_abstract : List (ℕ × Action) → Abstract → Abstract × Log
unfolding act_abstract
run_abstract [] s = (s, [])
run_abstract ((t, a) ∷ schedule) s =
    let now = act_abstract t a (s.phase t) s in
    let later = run_abstract schedule now.0 in (later.0, now.1 ++ later.1)

unfoldable pub start_abstract : Abstract
unfolding new_slot
start_abstract = record { register = new_slot; phase = λ t. resting }
