-- ===== src/RtLoop/Boxes/Steps.antt =====
-- One step over the boxes beside one step of the register as a value, action by action.
use sonny.Prelude.{
  ℕ, ◌≡◌, ◌≢◌, refl, sym, ap, ◌∙◌, [], ◌∷◌, Option, none, some, arith, Option-cases, inl, inr,
}
use sonny.Vectors.{CommandVector}
use sonny.RtLoop.Boxes.{
  Boxes, lookup, release, IsFresh, Place, idle, boxed, replaced, taken, Shared, at, Action, make,
  swap_in, drop_old, swap_out, read, act, resting, ready, replacing, returning, Abstract,
  act_abstract,
}
use sonny.RtLoop.Boxes.Ownership.{
  Owner, nobody, by_slot, by_thread, held, IsOwned, lookup-release, make-IsOwned, free-IsOwned,
  swap_in_empty, swap_in_full, swap_out-IsOwned,
}
use sonny.RtLoop.Boxes.Simulates.{view, box_of, Simulates, Agrees, box_same, update-Simulates}

module _ (owner : ℕ → Owner) (s : Shared) (a : Abstract) (own : IsOwned owner s)
    (sim : Simulates s a) (t : ℕ) where
  stay : Agrees (some (s, [])) (a, [])
  stay = ((s, []), refl, ((owner, own), sim, refl))

  held-ne-none : (p : ℕ) → held (s.place t) ≡ some p → lookup p s.boxes ≢ none
  held-ne-none p e gone = ground (arith, own.thread t p, own.live p)

  register_value : (o : Option ℕ) → s.slot ≡ o → a.register.slot ≡ box_of s.boxes o
  register_value o e = sim.register ∙ ap (box_of s.boxes) e

  -- The slot's box is there.
  in_slot : (r : ℕ) → s.slot ≡ some r → (w : CommandVector) × (lookup r s.boxes ≡ some w)
  in_slot r full = elim (Option-cases (lookup r s.boxes)) [
    | inl gone ↦ absurd (ground (arith, own.slot r, own.live r))
    | inr there ↦ there
  ]

  free-Simulates :
      (p : ℕ)
      → held (s.place t) ≡ some p
      → Simulates
          (record s { boxes = release p s.boxes; place = at s.place t idle })
          (record a { phase = at a.phase t resting })
  free-Simulates p e =
      update-Simulates s a t s.slot (release p s.boxes) idle a.register resting sim
        (sim.register
          ∙ sym (
              box_same s.slot s.boxes (release p s.boxes)
                (λ q h. ground (arith, lookup-release q p s.boxes, own.slot q, own.thread t p))))
        refl (λ u q n h. ground (arith, lookup-release q p s.boxes, own.thread u q, own.thread t p))

  make-Agrees :
      (alloc : Boxes → ℕ) (cmd : CommandVector)
      → IsFresh alloc
      → s.place t ≡ idle
      → Agrees (act alloc t (make cmd) idle s) (act_abstract t (make cmd) resting a)
  unfolding act act_abstract
  make-Agrees alloc cmd fresh e =
      let p = alloc s.boxes in
      let boxes' : Boxes = (p, cmd) ∷ s.boxes in
      let free : lookup p s.boxes ≡ none = fresh s.boxes in
      (
        (record s { boxes = boxes'; place = at s.place t (boxed p) }, []),
        refl,
        (
          (at owner p (by_thread t), make-IsOwned owner s own t p cmd e free),
          update-Simulates s a t s.slot boxes' (boxed p) a.register (ready cmd) sim
              (sim.register
                ∙ sym (
                    box_same s.slot s.boxes boxes' (λ q h. ground (arith, own.slot q, own.live p))))
              (ground arith) (λ u q n h. ground (arith, own.thread u q, own.live p)),
          refl,
        ),
      )

  drop-Agrees :
      (alloc : Boxes → ℕ) (p : ℕ)
      → s.place t ≡ replaced p
      → Agrees (act alloc t drop_old (replaced p) s) (act_abstract t drop_old replacing a)
  unfolding act act_abstract
  drop-Agrees alloc p e = elim (Option-cases (lookup p s.boxes)) [
    | inl none_there ↦ absurd (held-ne-none p (ap held e) none_there)
    | inr (v, there) ↦ (
      (record s { boxes = release p s.boxes; place = at s.place t idle }, []),
      rw (there, act) refl,
      (
        (at owner p nobody, free-IsOwned owner s own t p (ap held e)),
        free-Simulates p (ap held e),
        refl,
      ),
    )
  ]

  read-Agrees :
      (alloc : Boxes → ℕ) (p : ℕ) (v : CommandVector)
      → s.place t ≡ taken p
      → lookup p s.boxes ≡ some v
      → Agrees (act alloc t read (taken p) s) (act_abstract t read (returning v) a)
  unfolding act act_abstract
  read-Agrees alloc p v e there = (
    (record s { boxes = release p s.boxes; place = at s.place t idle }, (t, some v) ∷ []),
    rw (there, act) refl,
    (
      (at owner p nobody, free-IsOwned owner s own t p (ap held e)),
      free-Simulates p (ap held e),
      refl,
    ),
  )

  swap_in-Agrees :
      (alloc : Boxes → ℕ) (p : ℕ) (cmd : CommandVector)
      → s.place t ≡ boxed p
      → lookup p s.boxes ≡ some cmd
      → Agrees (act alloc t swap_in (boxed p) s) (act_abstract t swap_in (ready cmd) a)
  unfolding act act_abstract
  swap_in-Agrees alloc p cmd e there = elim (Option-cases s.slot) [
    | inl empty ↦ (
      (record s { slot = some p; place = at s.place t idle }, []),
      rw (empty, act) refl,
      (
        (at owner p by_slot, swap_in_empty owner s own t p (ap held e) empty),
        rw (register_value none empty) (
            update-Simulates s a t (some p) s.boxes idle _ resting sim (sym there) refl
              (λ u q n h. refl)),
        refl,
      ),
    )
    | inr (r, full) ↦
        let (w, old) = in_slot r full in
        (
          (record s { slot = some p; place = at s.place t (replaced r) }, []),
          rw (full, act) refl,
          (
            (
              at (at owner r (by_thread t)) p by_slot,
              swap_in_full owner s own t p r (ap held e) full,
            ),
            rw (register_value (some r) full ∙ old) (
                update-Simulates s a t (some p) s.boxes (replaced r) _ replacing sim (sym there)
                  refl (λ u q n h. refl)),
            refl,
          ),
        )
  ]

  swap_out-Agrees :
      (alloc : Boxes → ℕ)
      → s.place t ≡ idle
      → Agrees (act alloc t swap_out idle s) (act_abstract t swap_out resting a)
  unfolding act act_abstract
  swap_out-Agrees alloc e = elim (Option-cases s.slot) [
    | inl empty ↦ (
      (record s { slot = none }, (t, none) ∷ []),
      rw (empty, act) refl,
      rw (register_value none empty) (
        (
          owner,
          record { live = own.live; slot = λ q. ground (arith, own.slot q); thread = own.thread },
        ),
        record { register = refl; phase = sim.phase },
        refl,
      ),
    )
    | inr (r, full) ↦
        let (w, there) = in_slot r full in
        (
          (record s { slot = none; place = at s.place t (taken r) }, []),
          rw (full, act) refl,
          rw (register_value (some r) full ∙ there) (
            (at owner r (by_thread t), swap_out-IsOwned owner s own t r e full),
            update-Simulates s a t none s.boxes (taken r) _ (returning w) sim refl (rw there refl)
                (λ u q n h. refl),
            refl,
          ),
        )
  ]

  pub act-Agrees :
      (alloc : Boxes → ℕ) (action : Action) (place : Place) (o : Option CommandVector)
      → IsFresh alloc
      → s.place t ≡ place
      → box_of s.boxes (held place) ≡ o
      → Agrees (act alloc t action place s) (act_abstract t action (view o place) a)
  unfolding act act_abstract
  act-Agrees alloc (make cmd) idle o fresh e h = make-Agrees alloc cmd fresh e
  act-Agrees alloc swap_out idle o fresh e h = swap_out-Agrees alloc e
  act-Agrees alloc action (boxed p) none fresh e h = absurd (held-ne-none p (ap held e) h)
  act-Agrees alloc action (taken p) none fresh e h = absurd (held-ne-none p (ap held e) h)
  act-Agrees alloc swap_in (boxed p) (some cmd) fresh e h = swap_in-Agrees alloc p cmd e h
  act-Agrees alloc read (taken p) (some v) fresh e h = read-Agrees alloc p v e h
  act-Agrees alloc drop_old (replaced p) o fresh e h = drop-Agrees alloc p e
  act-Agrees alloc action place o fresh e h = stay
