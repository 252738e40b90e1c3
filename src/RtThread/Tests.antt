-- ===== src/RtThread/Tests.antt =====
-- A container without the right to real-time priorities.
use sonny.Prelude.{◌≡◌, ◌^◌, refl, true, false, [], ◌∷◌, none, some}
use sonny.RtThread.{
  Kernel, set_affinity, set_fifo, set_nice, pinned, nice_fallback, core_unavailable,
  pin_critical_thread,
}

abbrev container : Kernel
container = record {
  mask_size = 1024;
  online = 4;
  affinity_set = true;
  confirmed = true;
  priority_min = some 1;
  priority_max = some 99;
  scheduler_set = false;
  nice_set = true;
}

falls_back :
    pin_critical_thread 0 container
    ≡ some (set_affinity 0 ∷ set_fifo 99 ∷ set_nice ∷ [], pinned 0 ∷ nice_fallback ∷ [])
unfolding pin_critical_thread
falls_back = refl

not_there : pin_critical_thread 4 container ≡ some ([], core_unavailable 4 4 ∷ [])
unfolding pin_critical_thread
not_there = refl

-- A core whose cast is negative passes the check.
out_of_the_mask : pin_critical_thread (2 ^ 63) container ≡ none
unfolding pin_critical_thread
out_of_the_mask = refl
