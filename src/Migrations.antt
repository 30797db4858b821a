-- ===== src/Migrations.antt =====
-- The migrations of runtime/src/migrations.rs, which the executive of runtime/src/lib.rs runs on an
-- upgrade. What is stored is the executive's and the pallets'; a migration acts on it and writes to
-- the log.
use lunes_nightly.Prelude.{ℕ, String, List, [], ◌∷◌, ◌++◌, ◌≡◌, refl, Result, ok}
use lunes_nightly.Fees.{Weight}

-- The storage beside the log, whose entries have a target and a message.
pub record State (Storage : Type 0) : Type 0 where
  pub storage : Storage
  pub log : List (String × String)

-- `log::info!`
abbrev info : {Storage : Type 0} → String → State Storage → State Storage
info message s = record s { log = s.log ++ (("runtime::migrations", message) ∷ []) }

-- The trait `OnRuntimeUpgrade`, with the hooks of `try-runtime`.
pub record OnRuntimeUpgrade (Storage : Type 0) : Type 0 where
  pub on_runtime_upgrade : State Storage → Weight × State Storage
  pub pre_upgrade : State Storage → Result String (List ℕ) × State Storage
  pub post_upgrade : List ℕ → State Storage → Result String (Unit {0}) × State Storage

-- `Weight::zero()`
abbrev weight_zero : Weight
weight_zero = record { ref_time = 0; proof_size = 0 }

abbrev on_upgrade : {Storage : Type 0} → State Storage → Weight × State Storage
on_upgrade s = (weight_zero, info "MigrationV1ToV2: sem alterações de storage nesta versão" s)

abbrev before_upgrade : {Storage : Type 0} → State Storage → Result String (List ℕ) × State Storage
before_upgrade s = (ok [], info "MigrationV1ToV2::pre_upgrade" s)

abbrev after_upgrade :
    {Storage : Type 0} → List ℕ → State Storage → Result String (Unit {0}) × State Storage
after_upgrade state s = (ok tt, info "MigrationV1ToV2::post_upgrade: OK" s)

-- `MigrationV1ToV2`
abbrev migration_v1_to_v2 : (Storage : Type 0) → OnRuntimeUpgrade Storage
migration_v1_to_v2 Storage = record {
  on_runtime_upgrade = on_upgrade;
  pre_upgrade = before_upgrade;
  post_upgrade = after_upgrade;
}

-- `Migrations`
unfoldable pub migrations : (Storage : Type 0) → List (OnRuntimeUpgrade Storage)
migrations Storage = migration_v1_to_v2 Storage ∷ []

-- A checked upgrade by a migration, as `try-runtime` makes it: the hook before, the migration and
-- the hook after, which is given what the first one returned.
abbrev IsIdle : {Storage : Type 0} → OnRuntimeUpgrade Storage → Type 0
IsIdle {Storage = Storage} m =
    (s : State Storage)
    → let (saved, s1) = m.pre_upgrade s in
      let (weight, s2) = m.on_runtime_upgrade s1 in
      (saved ≡ ok [])
      × (weight ≡ weight_zero)
      × ((m.post_upgrade [] s2).0 ≡ ok tt)
      × ((m.post_upgrade [] s2).1.storage ≡ s.storage)

abbrev AllIdle : {Storage : Type 0} → List (OnRuntimeUpgrade Storage) → Type 0
AllIdle [] = Unit
AllIdle (m ∷ ms) = IsIdle m × AllIdle ms

-- Every migration of an upgrade to this version passes its checks, has no weight and leaves the
-- storage as it was.
migrations-AllIdle : (Storage : Type 0) → AllIdle (migrations Storage)
unfolding migrations
migrations-AllIdle Storage = ((λ s. (refl, refl, refl, refl)), tt)
