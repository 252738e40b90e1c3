-- ===== src/System/Stops.antt =====
-- The stops that a sequence of events carries, and those that the bus brings.
use sonny.Prelude.{
  ℕ, ◌<◌, ◌≡◌, refl, sym, ◌∙◌, Bool, true, false, List, [], ◌∷◌, ◌++◌, map, length, length-append,
  arith, Bool-cases, inl, inr,
}
use sonny.Text.{codes}
use sonny.HalLoader.{same_bytes}
use sonny.Watchdog.{Message, command, estop, status}
use sonny.Watchdog.Latch.{latch}
use sonny.Fieldbus.Loop
use sonny.Fieldbus.Loop.{Event, received, closed, poll_tick, LoopState, is_active}
use sonny.Fieldbus.Serve.Outputs.{stop_after}
use sonny.Fieldbus.Reconnect.{Attempt, refused, lost}
use sonny.Fieldbus.Reconnect.Keeps.{stop_attempts}
use sonny.System.{Put, cmd_topic, estop_topic, status_topic, put_message, receive, deliver}

same_bytes_refl : (s : List ℕ) → same_bytes s s ≡ true
same_bytes_refl [] = refl
same_bytes_refl (c ∷ s) = ground (arith, same_bytes_refl s)

same_bytes-length : (s t : List ℕ) → same_bytes s t ≡ true → length s ≡ length t
same_bytes-length [] [] h = refl
same_bytes-length [] (d ∷ t) h = cc
same_bytes-length (c ∷ s) [] h = cc
same_bytes-length (c ∷ s) (d ∷ t) h = ground (arith, same_bytes-length s t)

longer_not_same : (s t : List ℕ) → length t < length s → same_bytes s t ≡ false
longer_not_same s t h = elim (Bool-cases (same_bytes s t)) [
  | inl e ↦ absurd (omega (arith, same_bytes-length s t e))
  | inr e ↦ e
]

estop_not_cmd : (id : List ℕ) → same_bytes (estop_topic id) (cmd_topic id) ≡ false
unfolding estop_topic
estop_not_cmd id =
    longer_not_same (estop_topic id) (cmd_topic id)
      (omega (arith, length-append (cmd_topic id) (codes "/estop")))

-- A subscriber's stop after the watchdog's messages have come over the bus.
pub deliver-latch :
    (status_text : Bool → ℕ → ℕ → List ℕ) (elapsed : ℕ) (id : List ℕ) (b : Bool) (ms : List Message)
    → stop_after b (deliver elapsed id (map (put_message status_text id) ms)) ≡ latch b ms
unfolding deliver put_message is_active
deliver-latch text elapsed id b [] = refl
deliver-latch text elapsed id b (command bytes ∷ ms) =
    rw (deliver, receive, same_bytes_refl (cmd_topic id)) (deliver-latch text elapsed id b ms)
deliver-latch text elapsed id b (estop true ∷ ms) =
    rw (deliver, receive, estop_not_cmd id, same_bytes_refl (estop_topic id))
      (deliver-latch text elapsed id true ms)
deliver-latch text elapsed id b (estop false ∷ ms) =
    rw (deliver, receive, estop_not_cmd id, same_bytes_refl (estop_topic id))
      (deliver-latch text elapsed id false ms)
deliver-latch text elapsed id b (status tripped trips timeout ∷ ms) =
    unfold cmd_topic estop_topic status_topic in deliver-latch text elapsed id b ms

-- The stops among the events, and the last of them.
abbrev pub stops : List Event → List (List ℕ)
stops [] = []
stops (received _ _ ∷ es) = stops es
stops (closed ∷ es) = stops es
stops (Loop.command _ _ ∷ es) = stops es
stops (Loop.estop bytes ∷ es) = bytes ∷ stops es
stops (poll_tick _ ∷ es) = stops es

abbrev pub last_stop : Bool → List (List ℕ) → Bool
last_stop b [] = b
last_stop b (bytes ∷ rest) = last_stop (is_active bytes) rest

-- Events of a connection that is open.
abbrev pub IsOpen : List Event → Type 0
IsOpen [] = Unit
IsOpen (received _ _ ∷ es) = IsOpen es
IsOpen (closed ∷ es) = ⊥
IsOpen (Loop.command _ _ ∷ es) = IsOpen es
IsOpen (Loop.estop _ ∷ es) = IsOpen es
IsOpen (poll_tick _ ∷ es) = IsOpen es

pub stop_after-last_stop :
    (b : Bool) (es : List Event) → IsOpen es → stop_after b es ≡ last_stop b (stops es)
stop_after-last_stop b [] h = refl
stop_after-last_stop b (received _ _ ∷ es) h = stop_after-last_stop b es h
stop_after-last_stop b (closed ∷ es) h = elim h [ ]
stop_after-last_stop b (Loop.command _ _ ∷ es) h = stop_after-last_stop b es h
stop_after-last_stop b (Loop.estop bytes ∷ es) h = stop_after-last_stop (is_active bytes) es h
stop_after-last_stop b (poll_tick _ ∷ es) h = stop_after-last_stop b es h

pub deliver-IsOpen :
    (elapsed : ℕ) (id : List ℕ) (puts : List Put) → IsOpen (deliver elapsed id puts)
unfolding deliver
deliver-IsOpen elapsed id [] = tt
deliver-IsOpen elapsed id ((topic, payload) ∷ puts) =
    elim (Bool-cases (same_bytes topic (cmd_topic id))) [
      | inl cmd ↦ rw (deliver, receive, cmd) (deliver-IsOpen elapsed id puts)
      | inr not_cmd ↦ elim (Bool-cases (same_bytes topic (estop_topic id))) [
        | inl stop ↦ rw (deliver, receive, not_cmd, stop) (deliver-IsOpen elapsed id puts)
        | inr other ↦ rw (deliver, receive, not_cmd, other) (deliver-IsOpen elapsed id puts)
      ]
    ]

-- All events, over all connections.
abbrev pub all_events : List Attempt → List Event → List Event
all_events [] es = es
all_events (refused ∷ tries) es = all_events tries es
all_events (lost before ∷ tries) es = before ++ all_events tries es

stop_after-append :
    (b : Bool) (xs ys : List Event)
    → IsOpen (xs ++ ys)
    → stop_after b (xs ++ ys) ≡ stop_after (stop_after b xs) ys
stop_after-append b [] ys h = refl
stop_after-append b (received _ _ ∷ xs) ys h = stop_after-append b xs ys h
stop_after-append b (closed ∷ xs) ys h = elim h [ ]
stop_after-append b (Loop.command _ _ ∷ xs) ys h = stop_after-append b xs ys h
stop_after-append b (Loop.estop bytes ∷ xs) ys h = stop_after-append (is_active bytes) xs ys h
stop_after-append b (poll_tick _ ∷ xs) ys h = stop_after-append b xs ys h

IsOpen-tail : (xs ys : List Event) → IsOpen (xs ++ ys) → IsOpen ys
IsOpen-tail [] ys h = h
IsOpen-tail (received _ _ ∷ xs) ys h = IsOpen-tail xs ys h
IsOpen-tail (closed ∷ xs) ys h = elim h [ ]
IsOpen-tail (Loop.command _ _ ∷ xs) ys h = IsOpen-tail xs ys h
IsOpen-tail (Loop.estop _ ∷ xs) ys h = IsOpen-tail xs ys h
IsOpen-tail (poll_tick _ ∷ xs) ys h = IsOpen-tail xs ys h

pub stop_attempts-all_events :
    (b : Bool) (tries : List Attempt) (es : List Event)
    → IsOpen (all_events tries es)
    → stop_after (stop_attempts b tries) es ≡ stop_after b (all_events tries es)
stop_attempts-all_events b [] es h = refl
stop_attempts-all_events b (refused ∷ tries) es h = stop_attempts-all_events b tries es h
stop_attempts-all_events b (lost before ∷ tries) es h =
    stop_attempts-all_events (stop_after b before) tries es
      (IsOpen-tail before (all_events tries es) h)
    ∙ sym (stop_after-append b before (all_events tries es) h)
