-- ===== src/Weights.antt =====
-- The baseline weights of the system pallet's calls (runtime/src/weights/frame_system.rs). The type
-- of weights and the cost of a read and of a write belong to libraries.
pub mod Linear
mod Tests
use lunes_nightly.Prelude.{ℕ, ◌*◌, ◌+◌, ◌≤◌, ◌≡◌, min, saturating_add, saturating_mul, u64_max}

pub record Weights : Type 1 where
  pub Weight : Type 0
  pub from_parts : ℕ → ℕ → Weight
  pub saturating_add : Weight → Weight → Weight
  pub saturating_mul : Weight → ℕ → Weight
  -- `T::DbWeight::get().reads(n)` and `writes(n)`
  pub reads : ℕ → Weight
  pub writes : ℕ → Weight
  -- Read by the statements alone: the two parts of a weight, and the time of one read and one
  -- write.
  pub ref_time : Weight → ℕ
  pub proof_size : Weight → ℕ
  pub read_time : ℕ
  pub write_time : ℕ

module _ (w : Weights) where
  open w use {Weight, from_parts, reads, writes, ref_time, proof_size}

  unfoldable pub remark : ℕ → Weight
  remark b = w.saturating_add (from_parts 2_007_000 0) (w.saturating_mul (from_parts 408 0) b)

  unfoldable pub remark_with_event : ℕ → Weight
  remark_with_event b =
      w.saturating_add (from_parts 8_000_000 0) (w.saturating_mul (from_parts 1_500 0) b)

  unfoldable pub set_heap_pages : Weight
  set_heap_pages = w.saturating_add (w.saturating_add (from_parts 6_000_000 0) (reads 1)) (writes 2)

  unfoldable pub set_storage : ℕ → Weight
  set_storage i =
      w.saturating_add
        (w.saturating_add (from_parts 0 0) (w.saturating_mul (from_parts 596_000 0) i)) (writes i)

  unfoldable pub kill_storage : ℕ → Weight
  kill_storage i =
      w.saturating_add
        (w.saturating_add (from_parts 0 0) (w.saturating_mul (from_parts 434_000 0) i)) (writes i)

  unfoldable pub kill_prefix : ℕ → Weight
  kill_prefix p =
      w.saturating_add
        (w.saturating_add (from_parts 0 0) (w.saturating_mul (from_parts 1_002_000 0) p)) (writes p)

  -- A weight takes the time `t` and no proof.
  abbrev pub Costs : Weight → ℕ → Type 0
  Costs x t = (ref_time x ≡ t) × (proof_size x ≡ 0)

  -- The two parts of a weight are `u64`, and each is computed by itself.
  pub record IsLawful : Type 0 where
    pub ref_time-from_parts : (t p : ℕ) → t ≤ u64_max → ref_time (from_parts t p) ≡ t
    pub proof_size-from_parts : (t p : ℕ) → p ≤ u64_max → proof_size (from_parts t p) ≡ p
    pub ref_time-add :
        (x y : Weight)
        → ref_time (w.saturating_add x y) ≡ saturating_add u64_max (ref_time x) (ref_time y)
    pub proof_size-add :
        (x y : Weight)
        → proof_size (w.saturating_add x y) ≡ saturating_add u64_max (proof_size x) (proof_size y)
    pub ref_time-mul :
        (x : Weight) (n : ℕ)
        → ref_time (w.saturating_mul x n) ≡ saturating_mul u64_max (ref_time x) n
    pub proof_size-mul :
        (x : Weight) (n : ℕ)
        → proof_size (w.saturating_mul x n) ≡ saturating_mul u64_max (proof_size x) n
    pub ref_time-reads : (n : ℕ) → ref_time (reads n) ≡ saturating_mul u64_max w.read_time n
    pub proof_size-reads : (n : ℕ) → proof_size (reads n) ≡ 0
    pub ref_time-writes : (n : ℕ) → ref_time (writes n) ≡ saturating_mul u64_max w.write_time n
    pub proof_size-writes : (n : ℕ) → proof_size (writes n) ≡ 0
