-- ===== src/RtLoop/Boxes/Ownership.antt =====
-- Each box has one owner: the slot, or the thread whose call holds it.
use sonny.Prelude.{ℕ, ◌≡◌, ◌↔◌, [], ◌∷◌, Option, none, some, if◌then◌else◌, ◌==◌, arith}
use sonny.Vectors.{CommandVector}
use sonny.RtLoop.Boxes.{Boxes, lookup, release, Place, idle, boxed, replaced, taken, Shared, at}

pub data Owner : Type 0 where
  nobody : Owner
  by_slot : Owner
  by_thread : ℕ → Owner

-- The box that a thread holds.
abbrev pub held : Place → Option ℕ
held idle = none
held (boxed p) = some p
held (replaced p) = some p
held (taken p) = some p

pub record IsOwned (owner : ℕ → Owner) (s : Shared) : Type 0 where
  pub live : (p : ℕ) → (owner p ≡ nobody) ↔ (lookup p s.boxes ≡ none)
  pub slot : (p : ℕ) → (s.slot ≡ some p) ↔ (owner p ≡ by_slot)
  pub thread : (t p : ℕ) → (held (s.place t) ≡ some p) ↔ (owner p ≡ by_thread t)

pub lookup-release :
    (p q : ℕ) (m : Boxes) → lookup p (release q m) ≡ (if q == p then none else lookup p m)
unfolding release
lookup-release p q [] = ground arith
lookup-release p q ((r, v) ∷ m) = ground (arith, lookup-release p q m)

module _ (owner : ℕ → Owner) (s : Shared) (own : IsOwned owner s) (t : ℕ) where
  -- A new box is the thread's.
  pub make-IsOwned :
      (p : ℕ) (cmd : CommandVector)
      → s.place t ≡ idle
      → lookup p s.boxes ≡ none
      → IsOwned
          (at owner p (by_thread t))
          (record s { boxes = (p, cmd) ∷ s.boxes; place = at s.place t (boxed p) })
  make-IsOwned p cmd e fresh = record {
    live = λ q. ground (arith, own.live q);
    slot = λ q. ground (arith, own.slot q, own.live p);
    thread = λ u q. ground (arith, own.thread u q, own.live p, own.thread t q);
  }

  -- A box that is freed is nobody's.
  pub free-IsOwned :
      (p : ℕ)
      → held (s.place t) ≡ some p
      → IsOwned
          (at owner p nobody)
          (record s { boxes = release p s.boxes; place = at s.place t idle })
  free-IsOwned p e = record {
    live = λ q. ground (arith, own.live q, lookup-release q p s.boxes);
    slot = λ q. ground (arith, own.slot q, own.thread t p);
    thread = λ u q. ground (arith, own.thread u q, own.thread t q, own.thread t p);
  }

  -- A swap hands the new box to the slot, and the slot's to the thread.
  pub swap_in_empty :
      (p : ℕ)
      → held (s.place t) ≡ some p
      → s.slot ≡ none
      → IsOwned (at owner p by_slot) (record s { slot = some p; place = at s.place t idle })
  swap_in_empty p e empty = record {
    live = λ q. ground (arith, own.live q, own.thread t p);
    slot = λ q. ground (arith, own.slot q, own.thread t p);
    thread = λ u q. ground (arith, own.thread u q, own.thread t q, own.thread t p);
  }

  pub swap_in_full :
      (p r : ℕ)
      → held (s.place t) ≡ some p
      → s.slot ≡ some r
      → IsOwned
          (at (at owner r (by_thread t)) p by_slot)
          (record s { slot = some p; place = at s.place t (replaced r) })
  swap_in_full p r e full = record {
    live = λ q. ground (arith, own.live q, own.thread t p, own.slot r);
    slot = λ q. ground (arith, own.slot q, own.thread t p, own.slot r);
    thread = λ u q.
        ground (arith, own.thread u q, own.thread t q, own.thread t p, own.slot r, own.slot q);
  }

  pub swap_out-IsOwned :
      (p : ℕ)
      → s.place t ≡ idle
      → s.slot ≡ some p
      → IsOwned
          (at owner p (by_thread t))
          (record s { slot = none; place = at s.place t (taken p) })
  swap_out-IsOwned p e full = record {
    live = λ q. ground (arith, own.live q, own.slot p);
    slot = λ q. ground (arith, own.slot q, own.slot p);
    thread = λ u q. ground (arith, own.thread u q, own.thread t q, own.slot p, own.slot q);
  }
