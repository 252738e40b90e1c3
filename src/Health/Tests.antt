-- ===== src/Health/Tests.antt =====
-- Three samples of a metric.
use sonny.Prelude.{ℕ, ◌≡◌, refl, List, [], ◌∷◌, ◌++◌, some, take, drop, arith}
use sonny.Text.{codes}
use sonny.Text.Writer.{concat}
use sonny.Health.Line.{health_pieces}
use sonny.Health.{snapshot, new_health, new_metric, record_all, snapshot_metric}
use sonny.Health.Metrics.{snapshot_metric-record_all}

abbrev samples : List ℕ
samples = 500 ∷ 1500 ∷ 1001 ∷ []

snapshot_metric-record_all_example :
    snapshot_metric (record_all new_metric samples)
    ≡ record { last_ns = 1001; max_ns = 1500; avg_ns = 1000; count = 3 }
snapshot_metric-record_all_example = snapshot_metric-record_all samples (omega arith) (omega arith)

-- A beat of 5 ms: the unit is printed twice.
twice :
    concat (take 6 (health_pieces (record (snapshot 0 new_health) { rt_age_ms = some 5 })))
      ++ concat (take 1 (drop 6 (health_pieces (snapshot 0 new_health))))
    ≡ codes "[HEALTH] RT(core1): frame 0 us (max 0 us) | beat 5 ms ms | SANITIZER: "
unfolding health_pieces snapshot new_health
twice = refl
