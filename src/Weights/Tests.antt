-- ===== src/Weights/Tests.antt =====
-- The weights of runtime/src/weights/frame_system.rs as pairs of `u64`, with the read and the write
-- of a common database.
use lunes_nightly.Prelude.{ℕ, refl, saturating_add, saturating_mul, u64_max}
use lunes_nightly.Weights.{Weights, IsLawful}

abbrev pairs : Weights
pairs = record {
  Weight = ℕ × ℕ;
  from_parts = λ t p. (t, p);
  saturating_add = λ x y. (saturating_add u64_max x.0 y.0, saturating_add u64_max x.1 y.1);
  saturating_mul = λ x n. (saturating_mul u64_max x.0 n, saturating_mul u64_max x.1 n);
  reads = λ n. (saturating_mul u64_max 25_000_000 n, 0);
  writes = λ n. (saturating_mul u64_max 100_000_000 n, 0);
  ref_time = λ x. x.0;
  proof_size = λ x. x.1;
  read_time = 25_000_000;
  write_time = 100_000_000;
}

pairs-IsLawful : IsLawful pairs
pairs-IsLawful = record {
  ref_time-from_parts = λ t p _. refl;
  proof_size-from_parts = λ t p _. refl;
  ref_time-add = λ x y. refl;
  proof_size-add = λ x y. refl;
  ref_time-mul = λ x n. refl;
  proof_size-mul = λ x n. refl;
  ref_time-reads = λ n. refl;
  proof_size-reads = λ n. refl;
  ref_time-writes = λ n. refl;
  proof_size-writes = λ n. refl;
}
