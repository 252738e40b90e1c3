-- ===== src/RtThread.antt =====
-- src/system/rt_thread.rs on Linux: a thread is pinned to a core and gets a real-time priority. What
-- the kernel answers is an argument, and what comes out are the calls that change the thread, in order,
-- and the lines that are printed. On other systems the function does nothing.
mod Tests
use sonny.Prelude.{
  ℕ, Bool, List, [], ◌∷◌, ◌++◌, Option, none, some, if◌then◌else◌, leb, ltb, ◌==◌, ◌&&◌, ◌^◌,
}

-- The answers of the kernel. A count that is not positive is 0, and a priority that is negative is
-- `none`; `confirmed` says that the mask was read and holds the core. `mask_size` is how many cores a
-- `cpu_set_t` of the C library has bits for: `CPU_SET` panics past its array.
pub record Kernel : Type 0 where
  pub mask_size : ℕ
  pub online : ℕ
  pub affinity_set : Bool
  pub confirmed : Bool
  pub priority_min : Option ℕ
  pub priority_max : Option ℕ
  pub scheduler_set : Bool
  pub nice_set : Bool

pub data Call : Type 0 where
  set_affinity : (core : ℕ) → Call
  set_fifo : (priority : ℕ) → Call
  set_nice : Call

pub data Line : Type 0 where
  cannot_count : Line
  core_unavailable : (core online : ℕ) → Line
  affinity_rejected : (core : ℕ) → Line
  pinned : (core : ℕ) → Line
  not_confirmed : (core : ℕ) → Line
  no_priorities : Line
  fifo_active : (priority : ℕ) → Line
  nice_fallback : Line
  no_priority : Line

-- The lowest and the highest priority, if the kernel has both.
abbrev pub priorities : Kernel → Option ℕ
priorities k = elim k.priority_min [ none ↦ none | some _ ↦ k.priority_max ]

-- Step 3, with the highest priority.
unfoldable pub raise_priority : Kernel → List Call × List Line
raise_priority k = elim (priorities k) [
  | none ↦ ([], no_priorities ∷ [])
  | some highest ↦ if k.scheduler_set then (set_fifo highest ∷ [], fifo_active highest ∷ []) else (
    set_fifo highest ∷ set_nice ∷ [],
    (if k.nice_set then nice_fallback else no_priority) ∷ [],
  )
]

-- `core as c_long >= online`: from 2 ^ 63 on the cast is negative.
unfoldable pub is_past : (core online : ℕ) → Bool
is_past core online = ltb core (2 ^ 63) && leb online core

-- `none` is a panic.
unfoldable pub pin_critical_thread : (core : ℕ) → Kernel → Option (List Call × List Line)
unfolding raise_priority is_past
pin_critical_thread core k =
    if k.online == 0
    then some ([], cannot_count ∷ [])
    else if is_past core k.online
    then some ([], core_unavailable core k.online ∷ [])
    else if leb k.mask_size core
    then none
    else if k.affinity_set
    then (let raised = raise_priority k in
        some (
          set_affinity core ∷ raised.0,
          (if k.confirmed then pinned core else not_confirmed core) ∷ raised.1,
        ))
    else some (set_affinity core ∷ [], affinity_rejected core ∷ [])
