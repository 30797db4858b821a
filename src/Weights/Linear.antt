-- ===== src/Weights/Linear.antt =====
-- The weights of runtime/src/weights/frame_system.rs are linear: no step saturates.
use native.Mathlib.Nat.{mul-le-mul}
use lunes_nightly.Prelude.{ℕ, ◌+◌, ◌*◌, ◌≤◌, ◌∙◌, ap, arith, saturating_mul, u32_max, u64_max, ◌^◌}
use lunes_nightly.Weights.{
  Weights, IsLawful, remark, remark_with_event, set_heap_pages, set_storage, kill_storage,
  kill_prefix, Costs,
}

module _ (w : Weights) (laws : IsLawful w) where
  open w use {Weight, from_parts, ref_time, proof_size, write_time, read_time}

  constant-Costs : (t : ℕ) → t ≤ u64_max → Costs w (from_parts t 0) t
  constant-Costs t small =
      (laws.ref_time-from_parts t 0 small, laws.proof_size-from_parts t 0 (omega arith))

  sum-Costs :
      (x y : Weight) (s t : ℕ)
      → Costs w x s
      → Costs w y t
      → s + t ≤ u64_max
      → Costs w (w.saturating_add x y) (s + t)
  sum-Costs x y s t (xs, xp) (yt, yp) small =
      (omega (arith, laws.ref_time-add x y), omega (arith, laws.proof_size-add x y))

  linear-Costs :
      (t n : ℕ)
      → t ≤ u64_max
      → t * n ≤ u64_max
      → Costs w (w.saturating_mul (from_parts t 0) n) (t * n)
  linear-Costs t n part small = (
    laws.ref_time-mul (from_parts t 0) n
        ∙ ap (λ r. saturating_mul u64_max r n) (laws.ref_time-from_parts t 0 part)
        ∙ omega (arith, small),
    laws.proof_size-mul (from_parts t 0) n
        ∙ ap (λ r. saturating_mul u64_max r n) (laws.proof_size-from_parts t 0 (omega arith))
        ∙ omega arith,
  )

  reads-Costs : (n : ℕ) → read_time * n ≤ u64_max → Costs w (w.reads n) (read_time * n)
  reads-Costs n small = (omega (arith, laws.ref_time-reads n), laws.proof_size-reads n)

  writes-Costs : (n : ℕ) → write_time * n ≤ u64_max → Costs w (w.writes n) (write_time * n)
  writes-Costs n small = (omega (arith, laws.ref_time-writes n), laws.proof_size-writes n)

  -- The weight of a call that starts with nothing, spends `t` and a write on each item.
  items-Costs :
      (t n : ℕ)
      → t ≤ 2 ^ 31
      → n ≤ u32_max
      → write_time ≤ 2 ^ 31
      → Costs w
          (w.saturating_add
            (w.saturating_add (from_parts 0 0) (w.saturating_mul (from_parts t 0) n))
            (w.writes n))
          (0 + t * n + write_time * n)
  items-Costs t n t_small n_small write_small =
      let time = mul-le-mul t_small n_small in
      let writing = mul-le-mul write_small n_small in
      sum-Costs _ _ (0 + t * n) (write_time * n)
        (sum-Costs _ _ 0 (t * n) (constant-Costs 0 (omega arith))
          (linear-Costs t n (omega arith) (omega (arith, time))) (omega (arith, time)))
        (writes-Costs n (omega (arith, writing))) (omega (arith, time, writing))

  -- For every `u32` argument, and reads and writes that take at most 2 ^ 31 each, no step of the
  -- six weights saturates: the time is exactly the constant part and the arguments' multiples, one
  -- write for each item stored or removed among them, and none accounts for any proof size.
  weights_exact :
      (n : ℕ)
      → n ≤ u32_max
      → read_time ≤ 2 ^ 31
      → write_time ≤ 2 ^ 31
      → Costs w (remark w n) (2_007_000 + 408 * n)
        × Costs w (remark_with_event w n) (8_000_000 + 1_500 * n)
        × Costs w (set_heap_pages w) (6_000_000 + read_time * 1 + write_time * 2)
        × Costs w (set_storage w n) (0 + 596_000 * n + write_time * n)
        × Costs w (kill_storage w n) (0 + 434_000 * n + write_time * n)
        × Costs w (kill_prefix w n) (0 + 1_002_000 * n + write_time * n)
  unfolding remark remark_with_event set_heap_pages set_storage kill_storage kill_prefix
  weights_exact n small read_small write_small = (
    sum-Costs _ _ _ _ (constant-Costs 2_007_000 (omega arith))
        (linear-Costs 408 n (omega arith) (omega arith)) (omega arith),
    sum-Costs _ _ _ _ (constant-Costs 8_000_000 (omega arith))
        (linear-Costs 1_500 n (omega arith) (omega arith)) (omega arith),
    sum-Costs _ _ _ _
        (sum-Costs _ _ _ _ (constant-Costs 6_000_000 (omega arith)) (reads-Costs 1 (omega arith))
          (omega arith))
        (writes-Costs 2 (omega arith)) (omega arith),
    items-Costs 596_000 n (omega arith) small write_small,
    items-Costs 434_000 n (omega arith) small write_small,
    items-Costs 1_002_000 n (omega arith) small write_small,
  )
