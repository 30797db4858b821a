-- ===== src/RuntimeApi/Quotes.antt =====
-- What the payment APIs of runtime/src/lib.rs quote for calls and extrinsics.
use lunes_nightly.Prelude.{
  ℕ, ◌+◌, ◌*◌, ◌≤◌, ◌≡◌, arith, min, saturating_add, u32_max, u128_max, true, Option, none, some,
  ◌∙◌, ap, refl, Bool-cases, inl, inr, if◌then◌else◌,
}
use lunes_nightly.Fees.{Weight, weight_to_fee, max_block}
use lunes_nightly.Fees.Bounds.{weight_to_fee_exact}
use lunes_nightly.RuntimeApi.Payment.{
  TransactionPayment, Config, InclusionFee, config, length_to_fee, query_info, query_fee_details,
  query_weight_to_fee, query_length_to_fee, query_call_info, query_call_fee_details,
  query_call_weight_to_fee, query_call_length_to_fee,
}

-- `Weight::min`, reading by reading
abbrev pub min_weight : Weight → Weight → Weight
min_weight v w = record {
  ref_time = min v.ref_time w.ref_time;
  proof_size = min v.proof_size w.proof_size;
}

-- `FeeDetails::final_fee`, without a tip
abbrev pub final_fee : Option InclusionFee → ℕ
final_fee none = 0
final_fee (some f) =
    saturating_add u128_max (saturating_add u128_max f.base_fee f.len_fee) f.adjusted_weight_fee

module _ (t : TransactionPayment) where
  open t use {RuntimeCall, Chain, Multiplier}

  -- The three parts of a fee for a configuration.
  abbrev pub inclusion_fee : Config Multiplier → RuntimeCall → ℕ → Chain → InclusionFee
  inclusion_fee f call len c = record {
    base_fee = t.weight_to_fee f t.base_extrinsic;
    len_fee = t.length_to_fee f len;
    adjusted_weight_fee =
        t.saturating_mul_int (t.next_fee_multiplier c) (t.weight_to_fee f (t.weight_of call));
  }

-- What the pallet documents: weights above that of a block are cut to it, both conversions are the
-- configured ones, the multiplier is updated at the end of a block, and the quotes of calls and of
-- signed extrinsics are made of the three parts.
pub record IsLawful (t : TransactionPayment) : Type 0 where
  pub weight_fee :
      (f : Config t.Multiplier) (w : Weight)
      → t.weight_to_fee f w ≡ f.weight_to_fee (min_weight w f.max_block)
  pub length_fee : (f : Config t.Multiplier) (l : ℕ) → t.length_to_fee f l ≡ f.length_to_fee l
  pub mul_one : (n : ℕ) → t.saturating_mul_int t.one n ≡ n
  pub update_multiplier :
      (f : Config t.Multiplier) (c : t.Chain)
      → t.next_fee_multiplier (t.on_finalize f c)
        ≡ f.fee_multiplier_update (t.next_fee_multiplier c)
  pub call_details :
      (f : Config t.Multiplier) (call : t.RuntimeCall) (l : ℕ) (c : t.Chain)
      → t.query_call_fee_details f call l c
        ≡ (if t.pays_fee call then some (inclusion_fee t f call l c) else none)
  pub call_info :
      (f : Config t.Multiplier) (call : t.RuntimeCall) (l : ℕ) (c : t.Chain)
      → t.query_call_info f call l c ≡ record {
        weight = t.weight_of call;
        partial_fee = final_fee (t.query_call_fee_details f call l c);
      }
  pub signed_details :
      (f : Config t.Multiplier) (x : t.Extrinsic) (l : ℕ) (c : t.Chain)
      → t.is_signed x ≡ true
      → t.query_fee_details f x l c ≡ t.query_call_fee_details f (t.function_of x) l c
  pub signed_info :
      (f : Config t.Multiplier) (x : t.Extrinsic) (l : ℕ) (c : t.Chain)
      → t.is_signed x ≡ true
      → t.query_info f x l c ≡ t.query_call_info f (t.function_of x) l c

-- The fee of a paying call of a weight, with an extrinsic's base weight and length.
abbrev pub fee_of : Weight → Weight → ℕ → ℕ
fee_of base w len =
    weight_to_fee (min_weight base max_block) + 10 * len + weight_to_fee (min_weight w max_block)

-- The weight of a block bounds the fee of a weight.
capped_fee : (w : Weight) → weight_to_fee (min_weight w max_block) ≤ 36_893_488_147_419_103_232
capped_fee w =
    let b =
      (weight_to_fee_exact (min_weight w max_block)
        (record { ref_time_fits = omega arith; proof_size_fits = omega arith })).1 in
    omega (arith, b)

pub fee_of_bound :
    (base w : Weight) (len : ℕ) → len ≤ u32_max → fee_of base w len ≤ 73_786_976_337_787_879_414
fee_of_bound base w len fits =
    let b = capped_fee base in let c = capped_fee w in omega (arith, b, c)

module _ (t : TransactionPayment) (laws : IsLawful t) where
  open t use {RuntimeCall, Extrinsic, Chain, base_extrinsic, weight_of, pays_fee}

  parts-fee :
      (call : RuntimeCall) (len : ℕ) (c : Chain)
      → len ≤ u32_max
      → t.next_fee_multiplier c ≡ t.one
      → final_fee (some (inclusion_fee t (config t) call len c))
        ≡ fee_of base_extrinsic (weight_of call) len
  unfolding length_to_fee
  parts-fee call len c fits one =
      let b = capped_fee base_extrinsic in
      let w = capped_fee (weight_of call) in
      rw
        (
          laws.weight_fee (config t) base_extrinsic,
          laws.weight_fee (config t) (weight_of call),
          laws.length_fee (config t) len,
          one,
          laws.mul_one (weight_to_fee (min_weight (weight_of call) max_block)),
        )
        (omega (arith, b, w))

  pub quote_of :
      (call : RuntimeCall) (len : ℕ) (previous : Chain)
      → len ≤ u32_max
      → pays_fee call ≡ true
      → (query_call_info t call len (t.on_finalize (config t) previous)).partial_fee
        ≡ fee_of base_extrinsic (weight_of call) len
  unfolding query_call_info
  quote_of call len previous fits pays =
      let f = config t in
      let c = t.on_finalize f previous in
      rw (laws.call_info f call len c, laws.call_details f call len c, pays)
        (parts-fee call len c fits (laws.update_multiplier f previous))

  -- After any block, for a length that is a `u32`, the API quotes for a call exactly the fee of the
  -- extrinsic's base weight, ten units for each byte, and the fee of the call's weight, weights
  -- above that of a block cut to it, where the call pays, and nothing where it does not; the same
  -- for a signed extrinsic with that call; and both APIs convert any weight, cut to that of a block,
  -- with `WeightToFeeLunes`, and any length that is a `u32` into ten units for each byte. The pallet
  -- behaves as documented.
  pub quotes_exact :
      (call : RuntimeCall) (len : ℕ) (previous : Chain) (x : Extrinsic) (w : Weight)
      → len ≤ u32_max
      → t.is_signed x ≡ true
      → t.function_of x ≡ call
      → let c = t.on_finalize (config t) previous in
        ((query_call_info t call len c).partial_fee
          ≡ (if pays_fee call then fee_of base_extrinsic (weight_of call) len else 0))
        × (query_info t x len c ≡ query_call_info t call len c)
        × (query_fee_details t x len c ≡ query_call_fee_details t call len c)
        × (query_weight_to_fee t w ≡ weight_to_fee (min_weight w max_block))
        × (query_call_weight_to_fee t w ≡ weight_to_fee (min_weight w max_block))
        × (query_length_to_fee t len ≡ 10 * len)
        × (query_call_length_to_fee t len ≡ 10 * len)
  unfolding query_info query_call_info query_fee_details query_call_fee_details query_weight_to_fee
      query_call_weight_to_fee query_length_to_fee query_call_length_to_fee length_to_fee
  quotes_exact call len previous x w fits signed same =
      let f = config t in
      let c = t.on_finalize f previous in
      let parts = parts-fee call len c fits (laws.update_multiplier f previous) in
      let len_fee : t.length_to_fee f len ≡ 10 * len = rw (laws.length_fee f len) (omega arith) in
      (
        rw (laws.call_info f call len c, laws.call_details f call len c)
            (elim (Bool-cases (pays_fee call)) [
              | inl pays ↦ rw pays parts
              | inr free ↦ rw free refl
            ]),
        laws.signed_info f x len c signed ∙ ap (λ k. t.query_call_info f k len c) same,
        laws.signed_details f x len c signed ∙ ap (λ k. t.query_call_fee_details f k len c) same,
        laws.weight_fee f w,
        laws.weight_fee f w,
        len_fee,
        len_fee,
      )
