-- ===== src/Transaction/Tests.antt =====
-- The theorems about signed transactions at a signer that refuses key 0.
use lunes_nightly.Prelude.{
  ℕ, ◌+◌, ◌*◌, ◌^◌, ◌<◌, ◌≤◌, ◌≡◌, ◌↔◌, refl, none, some, List, arith, ◌==◌, if◌then◌else◌,
}
use lunes_nightly.Transaction.{
  Signing, Extension, Transaction, create_transaction, mortal_period, block_hash_count,
  checked_next_power_of_two, power_from,
}
use lunes_nightly.Transaction.Period.{mortal_period_bounds}
use lunes_nightly.Transaction.Signed.{IsSigned, untipped, create_transaction-IsSigned}

period_is_2048 : mortal_period block_hash_count ≡ 2048
unfolding mortal_period checked_next_power_of_two power_from
period_is_2048 = refl

mortal_period_bounds_example :
    (2400 ≤ 2 ^ 31
      → ((j : ℕ) × (mortal_period 2400 ≡ 2 ^ j))
        × (mortal_period 2400 < 2400)
        × (2400 ≤ 2 * mortal_period 2400))
    × (2 ^ 31 < 2400 → mortal_period 2400 ≡ 2)
mortal_period_bounds_example = mortal_period_bounds 2400 (omega arith)

abbrev toy : Signing
toy = record {
  RuntimeCall = ℕ;
  Era = ℕ × ℕ;
  mortal = λ period current. (period, current);
  Payload = ℕ × List (Extension (ℕ × ℕ));
  new_payload = λ call extra. some (call, extra);
  deconstruct = λ payload. payload;
  Public = ℕ;
  Signature = ℕ;
  sign = λ payload public. if public == 0 then none else some (payload.0 + public);
  Address = ℕ;
  unlookup = λ who. who;
}

create_transaction-IsSigned_example :
    ((t : Transaction toy)
      → (create_transaction toy 8 5 3 1 100 ≡ some t) ↔ IsSigned toy 8 5 3 1 100 t)
    × ((create_transaction toy 8 5 3 1 100 ≡ none) ↔ (
        (payload : ℕ × List (Extension (ℕ × ℕ)))
        → some (8, untipped toy 1 99) ≡ some payload
        → (if 5 == 0 then none else some (payload.0 + 5)) ≡ none))
create_transaction-IsSigned_example =
    create_transaction-IsSigned toy (λ call extra payload e. ground arith) 8 5 3 1 100
