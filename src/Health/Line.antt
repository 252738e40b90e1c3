-- ===== src/Health/Line.antt =====
-- src/diagnostics/atomic_health.rs: the line of the health command.
use sonny.Prelude.{ℕ, ◌/◌, List, [], ◌∷◌, ◌++◌, Option, none, some}
use sonny.Text.{codes, print_uint}
use sonny.Text.Writer.{concat}
use sonny.Health.{AtomicHealth, HealthSnapshot, snapshot}

unfoldable pub fmt_opt : Option ℕ → List ℕ
unfolding print_uint
fmt_opt none = codes "never"
fmt_opt (some ms) = print_uint ms ++ codes " ms"

-- Microseconds, from nanoseconds.
abbrev pub us : ℕ → List ℕ
us ns = print_uint (ns / 1000)

-- The pieces of the format string, with the values between them.
unfoldable pub health_pieces : HealthSnapshot → List (List ℕ)
unfolding fmt_opt
health_pieces s =
    codes "[HEALTH] RT(core1): frame "
    ∷ us s.rt_frame.last_ns
    ∷ codes " us (max "
    ∷ us s.rt_frame.max_ns
    ∷ codes " us) | beat "
    ∷ fmt_opt s.rt_age_ms
    ∷ codes " ms | SANITIZER: "
    ∷ print_uint s.sanitizer.last_ns
    ∷ codes " ns (max "
    ∷ print_uint s.sanitizer.max_ns
    ∷ codes ") | WASM(core2): "
    ∷ us s.wasm.last_ns
    ∷ codes " us (max "
    ∷ us s.wasm.max_ns
    ∷ codes ") | beat "
    ∷ fmt_opt s.wasm_age_ms
    ∷ codes " ms | ZENOH: tx "
    ∷ us s.zenoh_tx.last_ns
    ∷ codes " us (max "
    ∷ us s.zenoh_tx.max_ns
    ∷ codes ", err "
    ∷ print_uint s.zenoh_tx_errors
    ∷ codes ") rx "
    ∷ print_uint s.zenoh_rx_frames
    ∷ codes " frames"
    ∷ []

unfoldable pub render_line : (now_ns : ℕ) → AtomicHealth → List ℕ
unfolding snapshot health_pieces
render_line now_ns h = concat (health_pieces (snapshot now_ns h))
