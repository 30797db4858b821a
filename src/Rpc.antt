-- ===== src/Rpc.antt =====
-- The RPC methods of the node (node/src/rpc.rs): `create_full` merges the modules of two libraries
-- into an empty one.
pub mod Methods
mod Tests
use lunes_nightly.Prelude.{Bool, true, false, String, Result, ok, err, List, [], ◌++◌, ◌≡◌, ◌⊎◌}

-- `FullDeps`
pub record FullDeps (Client Pool DenyUnsafe : Type 0) : Type 0 where
  pub client : Client
  pub pool : Pool
  pub deny_unsafe : DenyUnsafe

pub record Modules : Type 1 where
  pub Client : Type 0
  pub Pool : Type 0
  pub DenyUnsafe : Type 0
  pub RpcModule : Type 0
  pub RpcError : Type 0
  -- `RpcModule::new(())`
  pub new_module : RpcModule
  pub merge : RpcModule → RpcModule → Result RpcError RpcModule
  -- `System::new(...).into_rpc()` and `TransactionPayment::new(...).into_rpc()`
  pub system_rpc : Client → Pool → DenyUnsafe → RpcModule
  pub payment_rpc : Client → RpcModule
  -- Read by the statements alone: the methods of a module, and whether a module has one.
  pub Method : Type 0
  pub methods : RpcModule → List Method
  pub disjoint : List Method → List Method → Bool

module _ (m : Modules) where
  open m use {Client, Pool, DenyUnsafe, RpcModule, RpcError}

  infixl 5 ◌>>=◌
  abbrev ◌>>=◌ : {A B : Type 0} → Result RpcError A → (A → Result RpcError B) → Result RpcError B
  ok a >>= f = f a
  err e >>= f = err e

  unfoldable pub create_full : FullDeps Client Pool DenyUnsafe → Result RpcError RpcModule
  create_full deps = do
    with_system ← m.merge m.new_module (m.system_rpc deps.client deps.pool deps.deny_unsafe)
    with_payment ← m.merge with_system (m.payment_rpc deps.client)
    ok with_payment

  -- Merging adds all methods of the second module, or fails where a name is taken; a new module
  -- has no method.
  pub record IsLawful : Type 0 where
    pub methods-new : m.methods m.new_module ≡ []
    pub disjoint_empty : (ys : List m.Method) → m.disjoint [] ys ≡ true
    pub merge_disjoint :
        (x y : RpcModule)
        → m.disjoint (m.methods x) (m.methods y) ≡ true
        → (z : RpcModule) × (m.merge x y ≡ ok z) × (m.methods z ≡ m.methods x ++ m.methods y)
    pub merge_taken :
        (x y : RpcModule)
        → m.disjoint (m.methods x) (m.methods y) ≡ false
        → (e : RpcError) × (m.merge x y ≡ err e)
