-- ===== src/Pallets/Listed.antt =====
-- The tables of pallets and of benchmarks (runtime/src/lib.rs) fit each other.
use lunes_nightly.Prelude.{String, ◌≡◌, All}
use lunes_nightly.Pallets.{
  crate_of, Runner, runs, baseline_bench, system_bench, offences_bench, benchmarks,
}

-- The crate that a benchmark measures.
abbrev measured : Runner → String
measured (runs p) = crate_of p
measured baseline_bench = "frame_benchmarking"
measured system_bench = "frame_system"
measured offences_bench = "pallet_offences"

-- Every benchmark is listed under the crate of the pallet that runs it.
benchmarks-measured : All (λ (b : String × Runner). measured b.1 ≡ b.0) benchmarks
benchmarks-measured = search
