-- ===== src/Health/Metrics.antt =====
-- What a metric shows of the samples that a thread has recorded.
use sonny.Prelude.{
  ℕ, ◌+◌, ◌/◌, ◌^◌, ◌<◌, ◌≡◌, refl, List, [], ◌∷◌, arith, max, length, if◌then◌else◌, ◌==◌,
}
use sonny.Health.{CycleMetric, new_metric, record_ns, snapshot_metric, record_all}

abbrev pub sum : List ℕ → ℕ
sum [] = 0
sum (d ∷ ds) = d + sum ds

abbrev pub largest : List ℕ → ℕ
largest [] = 0
largest (d ∷ ds) = max d (largest ds)

abbrev pub last_or : ℕ → List ℕ → ℕ
last_or d [] = d
last_or d (e ∷ es) = last_or e es

record_all_lem :
    (m : CycleMetric) (ds : List ℕ)
    → m.total_ns + sum ds < 2 ^ 64
    → m.count + length ds < 2 ^ 64
    → let r = record_all m ds in
      (r.last_ns ≡ last_or m.last_ns ds)
      × (r.max_ns ≡ max m.max_ns (largest ds))
      × (r.total_ns ≡ m.total_ns + sum ds)
      × (r.count ≡ m.count + length ds)
unfolding record_all record_ns
record_all_lem m [] h k = (refl, omega arith, omega arith, omega arith)
record_all_lem m (d ∷ ds) h k =
    let (a, b, c, e) = record_all_lem (record_ns m d) ds (omega arith) (omega arith) in
    (a, omega arith, omega arith, omega arith)

-- A snapshot after a thread's samples shows the last of them, the largest, their mean rounded down
-- and their number, as long as their sum and their number stay below 2 ^ 64.
pub snapshot_metric-record_all :
    (ds : List ℕ)
    → sum ds < 2 ^ 64
    → length ds < 2 ^ 64
    → snapshot_metric (record_all new_metric ds) ≡ record {
      last_ns = last_or 0 ds;
      max_ns = largest ds;
      avg_ns = if length ds == 0 then 0 else sum ds / length ds;
      count = length ds;
    }
unfolding snapshot_metric new_metric
snapshot_metric-record_all ds h k =
    ground (arith, record_all_lem new_metric ds (omega arith) (omega arith))
