-- ===== src/Transaction/Signed.antt =====
-- What `create_transaction` (runtime/src/lib.rs) signs and returns.
use lunes_nightly.Prelude.{
  ℕ, ◌+◌, ◌-◌, ◌≡◌, ◌↔◌, refl, ap, sym, ◌∙◌, List, [], ◌∷◌, none, some, arith, Option-cases, inl,
  inr,
}
use mathlib.Core.Option.{some-injective}
use mathlib.Core.Path.{subst}
use lunes_nightly.Transaction.{
  Signing, Extension, Transaction, transaction_extra, benchmark_extra, create_transaction,
  check_non_zero_sender, check_spec_version, check_tx_version, check_genesis, check_era,
  check_nonce, check_weight, restrict_asset_mint, charge_transaction_payment, mortal_period,
  checked_next_power_of_two, power_from,
}

pred_suc : (n : ℕ) → n + 1 - 1 ≡ n
pred_suc n = omega arith

module _ (s : Signing) where
  open s use {RuntimeCall, Payload, new_payload, deconstruct, Public, Signature, sign, unlookup}

  -- The tuple `SignedExtra` as the runtime takes it apart: its nine extensions in their order, with
  -- the era, the nonce and the tip that three of them carry.
  unfoldable pub signed_extra : s.Era → ℕ → ℕ → List (Extension s.Era)
  signed_extra era nonce tip =
      check_non_zero_sender
      ∷ check_spec_version
      ∷ check_tx_version
      ∷ check_genesis
      ∷ check_era era
      ∷ check_nonce nonce
      ∷ check_weight
      ∷ restrict_asset_mint
      ∷ charge_transaction_payment tip
      ∷ []

  -- The extra of a transaction without a tip whose era begins with a block and lasts 2048.
  abbrev pub untipped : ℕ → ℕ → List (Extension s.Era)
  untipped nonce first = signed_extra (s.mortal 2048 first) nonce 0

  -- All nine are there, the period is 2048 and the era is that of the block before the one in
  -- progress.
  extra-untipped : (nonce block : ℕ) → transaction_extra s nonce block ≡ untipped nonce (block - 1)
  unfolding transaction_extra signed_extra mortal_period checked_next_power_of_two power_from
  extra-untipped nonce block = refl

  -- The signature is one of exactly what is sent: a payload of the call and of the extra.
  abbrev pub IsSigned : RuntimeCall → Public → ℕ → ℕ → ℕ → Transaction s → Type 0
  IsSigned call public account nonce block t =
      (t.call ≡ call)
      × (t.address ≡ unlookup account)
      × (t.extra ≡ untipped nonce (block - 1))
      × ((payload : Payload) × (new_payload t.call t.extra ≡ some payload)
          × (sign payload public ≡ some t.signature))

  -- What is made of a payload and its signature.
  created :
      ((call : RuntimeCall) (extra : List (Extension s.Era)) (payload : Payload)
        → new_payload call extra ≡ some payload
        → deconstruct payload ≡ (call, extra))
      → (call : RuntimeCall) (public : Public) (account nonce block : ℕ)
      → (payload : Payload) (signature : Signature)
      → new_payload call (untipped nonce (block - 1)) ≡ some payload
      → sign payload public ≡ some signature
      → create_transaction s call public account nonce block
        ≡ some (record {
          call = call;
          address = unlookup account;
          signature = signature;
          extra = untipped nonce (block - 1);
        })
  unfolding create_transaction
  created apart call public account nonce block payload signature made signed =
      let parts = apart call (untipped nonce (block - 1)) payload made in
      let same = ap (new_payload call) (extra-untipped nonce block) ∙ made in
      rw (create_transaction, same, signed, parts) refl

  unmade :
      (call : RuntimeCall) (public : Public) (account nonce block : ℕ)
      → new_payload call (untipped nonce (block - 1)) ≡ none
      → create_transaction s call public account nonce block ≡ none
  unfolding create_transaction
  unmade call public account nonce block refused =
      let same = ap (new_payload call) (extra-untipped nonce block) ∙ refused in
      rw (create_transaction, same) refl

  unsigned :
      (call : RuntimeCall) (public : Public) (account nonce block : ℕ) (payload : Payload)
      → new_payload call (untipped nonce (block - 1)) ≡ some payload
      → sign payload public ≡ none
      → create_transaction s call public account nonce block ≡ none
  unfolding create_transaction
  unsigned call public account nonce block payload made refused =
      let same = ap (new_payload call) (extra-untipped nonce block) ∙ made in
      rw (create_transaction, same, refused) refl

  only_signed :
      (call : RuntimeCall) (public : Public) (account nonce block : ℕ)
      → (payload : Payload) (signature : Signature)
      → new_payload call (untipped nonce (block - 1)) ≡ some payload
      → sign payload public ≡ some signature
      → (t : Transaction s) → IsSigned call public account nonce block t
      → record {
        call = call;
        address = unlookup account;
        signature = signature;
        extra = untipped nonce (block - 1);
      }
        ≡ t
  only_signed call public account nonce block payload signature made signed t
        (same_call, same_address, same_extra, (other, built, signs)) =
      let same : new_payload call (untipped nonce (block - 1)) ≡ some other =
        rw (← same_call, ← same_extra) built in
      let its : signature ≡ t.signature = ground (arith, made, same, signed, signs) in
      λ i. record {
        call = sym same_call i;
        address = sym same_address i;
        signature = its i;
        extra = sym same_extra i;
      }

  -- If a payload comes apart into the call and the extra that it was made of: a transaction is
  -- returned exactly if it carries the call, the account's address and the whole `SignedExtra`, with
  -- the nonce, no tip and an era of 2048 blocks from the one before the block in progress, and a
  -- signature by the key of just that call and extra; and none is returned exactly if the key signs
  -- no payload of that call and extra.
  pub create_transaction-IsSigned :
      ((call : RuntimeCall) (extra : List (Extension s.Era)) (payload : Payload)
        → new_payload call extra ≡ some payload
        → deconstruct payload ≡ (call, extra))
      → (call : RuntimeCall) (public : Public) (account nonce block : ℕ)
      → ((t : Transaction s)
          → (create_transaction s call public account nonce block ≡ some t)
            ↔ IsSigned call public account nonce block t)
        × ((create_transaction s call public account nonce block ≡ none) ↔ (
            (payload : Payload)
            → new_payload call (untipped nonce (block - 1)) ≡ some payload
            → sign payload public ≡ none))
  create_transaction-IsSigned apart call public account nonce block =
      let extra = untipped nonce (block - 1) in
      let make = created apart call public account nonce block in
      elim (Option-cases (new_payload call extra)) [
        | inl no_payload ↦
            let nothing = unmade call public account nonce block no_payload in
            (
              λ t. (
                λ e. absurd (ground (arith, nothing, e)),
                λ (same_call, _, same_extra, (payload, made, signed)).
                    absurd (ground (arith, no_payload, same_call, same_extra, made)),
              ),
              (λ e payload made. absurd (ground (arith, no_payload, made)), λ h. nothing),
            )
        | inr (payload, made) ↦ elim (Option-cases (sign payload public)) [
          | inl refused ↦
              let nothing = unsigned call public account nonce block payload made refused in
              (
                λ t. (
                  λ e. absurd (ground (arith, nothing, e)),
                  λ (same_call, _, same_extra, (other, built, signed)).
                      let same : new_payload call extra ≡ some other =
                        rw (← same_call, ← same_extra) built in
                      absurd (ground (arith, refused, made, same, signed)),
                ),
                (λ e other built. ground (arith, made, built, refused), λ h. nothing),
              )
          | inr (signature, signed) ↦
              let some_one = make payload signature made signed in
              (
                λ t. (
                  λ e.
                      let it = some-injective _ _ (sym some_one ∙ e) in
                      subst (IsSigned call public account nonce block) it
                        (refl, refl, refl, (payload, made, signed)),
                  λ is_signed.
                      some_one
                      ∙ ap some (
                          only_signed call public account nonce block payload signature made signed
                            t is_signed),
                ),
                (
                  λ e. absurd (ground (arith, some_one, e)),
                  λ h. absurd (ground (arith, h payload made, signed)),
                ),
              )
        ]
      ]

  -- The transactions of off-chain workers, whose block counter is one ahead, and those of the
  -- benchmark builder carry the same extensions in the same order: at a block in progress that
  -- follows the best block the two extras are equal.
  transaction-benchmark_extra :
      (nonce best : ℕ) → transaction_extra s nonce (best + 1) ≡ benchmark_extra s nonce best
  unfolding transaction_extra benchmark_extra
  transaction-benchmark_extra nonce best = rw (pred_suc best)
