-- ===== src/Rpc/Methods.antt =====
-- Which methods the node offers (node/src/rpc.rs).
use lunes_nightly.Prelude.{
  ◌≡◌, refl, ◌∙◌, ap, true, false, ok, err, ◌++◌, Bool-cases, inl, inr, ◌⊎◌,
}
use lunes_nightly.Rpc.{Modules, FullDeps, create_full, IsLawful}

module _ (m : Modules) (laws : IsLawful m) where
  open m use {
    Client, Pool, DenyUnsafe, RpcModule, RpcError, methods, disjoint, system_rpc, payment_rpc,
  }

  -- The node offers the methods of the system module, which is told whether to deny unsafe calls,
  -- and then those of the payment module, and no others; if the two share a name, it fails.
  create_full_methods :
      (deps : FullDeps Client Pool DenyUnsafe)
      → let system = methods (system_rpc deps.client deps.pool deps.deny_unsafe) in
        let payment = methods (payment_rpc deps.client) in
        ((disjoint system payment ≡ true)
          × (full : RpcModule) × (create_full m deps ≡ ok full)
          × (methods full ≡ system ++ payment))
        ⊎ ((disjoint system payment ≡ false) × (e : RpcError) × (create_full m deps ≡ err e))
  unfolding create_full
  create_full_methods deps =
      let system = system_rpc deps.client deps.pool deps.deny_unsafe in
      let payment = payment_rpc deps.client in
      let (first, merged, names) =
        laws.merge_disjoint m.new_module system
          (rw laws.methods-new (laws.disjoint_empty (methods system))) in
      let same : methods first ≡ methods system =
        names ∙ ap (λ t. t ++ methods system) laws.methods-new in
      elim (Bool-cases (disjoint (methods system) (methods payment))) [
        | inl apart ↦
            let (full, done, all) = laws.merge_disjoint first payment (rw same apart) in
            inl (apart, full, rw (merged, done) refl, all ∙ ap (λ t. t ++ methods payment) same)
        | inr clash ↦
            let (e, failed) = laws.merge_taken first payment (rw same clash) in
            inr (clash, e, rw (merged, failed) refl)
      ]
