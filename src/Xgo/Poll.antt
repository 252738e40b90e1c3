-- ===== src/Xgo/Poll.antt =====
-- The polls go round the registers.
use sonny.Prelude.{
  ℕ, zero, suc, ◌+◌, ◌-◌, ◌%◌, ◌≤◌, ◌<◌, ◌≡◌, refl, sym, ap, ◌∙◌, List, [], ◌∷◌, ◌++◌, Option, some,
  ◌>>=◌, arith, length, get_elem?, take, drop, length-append, take-append, Returns, lt_or_le, inl,
  inr,
}
use mathlib.Core.Path.{ap₂}
use sonny.Xgo.Wire.{wire, length-wire, push_frame-wire}
use sonny.Xgo.Uart.{XgoUart, poll_target, poll_request}

-- Polls one after the other, in one buffer, and what each of them puts on the bus.
abbrev pub poll_many : ℕ → XgoUart → List ℕ → Option (XgoUart × List (List ℕ))
poll_many zero x out = some (x, [])
poll_many (suc n) x out = do
  polled ← poll_request x out
  rest ← poll_many n polled.0 polled.1
  some (rest.0, take polled.2 polled.1 ∷ rest.1)

-- The registers and the bytes that they hold: the motors, roll, pitch, yaw and the battery.
abbrev pub register : ℕ → ℕ × ℕ
register zero = (0x50, 12)
register (suc zero) = (0x62, 4)
register (suc (suc zero)) = (0x63, 4)
register (suc (suc (suc zero))) = (0x64, 4)
register (suc (suc (suc (suc k)))) = (0x01, 1)

-- The request for a register.
abbrev pub request : ℕ → List ℕ
request k = let (addr, read_len) = register k in wire 0x02 addr (read_len ∷ [])

poll_target-register : (k : ℕ) → poll_target k ≡ register k
unfolding poll_target
poll_target-register zero = refl
poll_target-register (suc zero) = refl
poll_target-register (suc (suc zero)) = refl
poll_target-register (suc (suc (suc zero))) = refl
poll_target-register (suc (suc (suc (suc k)))) = ground arith

poll_request-wire :
    (x : XgoUart) (out : List ℕ)
    → 9 ≤ length out
    → poll_request x out
      ≡ some (
        record x { poll_phase = (x.poll_phase + 1) % 256 },
        request (x.poll_phase % 5) ++ drop 9 out,
        9,
      )
unfolding poll_request
poll_request-wire x out h =
    rw
      (
        poll_target-register (x.poll_phase % 5),
        push_frame-wire out 0x02 (register (x.poll_phase % 5)).0
            ((register (x.poll_phase % 5)).1 ∷ []) (omega arith) h,
      )
      refl

-- The phase after some polls.
abbrev pub phase_after : ℕ → ℕ → ℕ
phase_after zero p = p
phase_after (suc i) p = phase_after i ((p + 1) % 256)

length-request : (phase : ℕ) → length (request phase) ≡ 9
length-request phase = omega (arith, length-wire 0x02 (register phase).0 ((register phase).1 ∷ []))

room : (out : List ℕ) → 9 ≤ length out → (phase : ℕ) → 9 ≤ length (request phase ++ drop 9 out)
room out h phase = omega (arith, length-append (request phase) (drop 9 out), length-request phase)

-- The requests of some polls in a row.
abbrev pub requests : ℕ → ℕ → List (List ℕ)
requests zero phase = []
requests (suc n) phase = request (phase % 5) ∷ requests n ((phase + 1) % 256)

poll_many-requests :
    (n : ℕ) (x : XgoUart) (out : List ℕ)
    → 9 ≤ length out
    → Returns (λ r. r.1 ≡ requests n x.poll_phase) (poll_many n x out)
poll_many-requests zero x out h = ((x, []), refl, refl)
poll_many-requests (suc n) x out h =
    let next = record x { poll_phase = (x.poll_phase + 1) % 256 } in
    let sent = request (x.poll_phase % 5) in
    let (more, runs, same) =
      poll_many-requests n next (sent ++ drop 9 out) (room out h (x.poll_phase % 5)) in
    (
      (more.0, take 9 (sent ++ drop 9 out) ∷ more.1),
      rw (poll_request-wire x out h, runs) refl,
      ap₂ ◌∷◌
          (ap (λ n. take n (sent ++ drop 9 out)) (sym (length-request (x.poll_phase % 5)))
            ∙ take-append sent (drop 9 out))
          same,
    )

requests-phase :
    (n i phase : ℕ)
    → i < n
    → get_elem? (requests n phase) i ≡ some (request (phase_after i phase % 5))
requests-phase zero i phase h = absurd (omega (arith, h))
requests-phase (suc n) zero phase h = refl
requests-phase (suc n) (suc i) phase h = requests-phase n i ((phase + 1) % 256) (omega (arith, h))

phase_after_lem : (i p : ℕ) → p < 256 → phase_after i p ≡ (p + i) % 256
phase_after_lem zero p h = omega (arith, h)
phase_after_lem (suc i) p h = phase_after_lem i ((p + 1) % 256) (omega arith) ∙ omega (arith, h)

-- How many polls it takes to come to a phase: at the wrap of the counter, from 255 to 0, the first
-- phase comes twice.
wait_for : (k p : ℕ) → k < 5 → p < 256 → (i : ℕ) × (i < 6) × ((p + i) % 256 % 5 ≡ k)
wait_for k p h b = elim (lt_or_le (p + (k + 5 - p % 5) % 5) 256) [
  | inl w ↦ ((k + 5 - p % 5) % 5, omega arith, omega (arith, h, b, w))
  | inr w ↦ (256 + k - p, omega (arith, h, b, w), omega (arith, h, b, w))
]

-- None of the five registers, 0x50, 0x62, 0x63, 0x64 and 0x01, is forgotten: of any six polls in a row at
-- least one asks for all its bytes, 12, 4, 4, 4 and 1, also over the wrap of the counter, and no poll
-- panics.
pub poll_many-asks :
    (k : ℕ) (x : XgoUart) (out : List ℕ)
    → k < 5
    → x.poll_phase < 256
    → 9 ≤ length out
    → Returns (λ r. (i : ℕ) × (i < 6) × (get_elem? r.1 i ≡ some (request k))) (poll_many 6 x out)
poll_many-asks k x out h b fits =
    let (r, runs, same) = poll_many-requests 6 x out fits in
    let (i, early, comes) = wait_for k x.poll_phase h b in
    (
      r,
      runs,
      (
        i,
        early,
        ap (λ l. get_elem? l i) same
            ∙ requests-phase 6 i x.poll_phase early
            ∙ ap (λ p. some (request p))
                (ap (λ q. q % 5) (phase_after_lem i x.poll_phase b) ∙ comes),
      ),
    )
