-- ===== src/Extension/View.antt =====
-- The abstract token that a state of the chain holds, and what the memory of a call of
-- runtime/src/chain_extension.rs asks of it.
use lunes_nightly.Prelude.{ℕ, ◌≡◌, ok}
use lunes_nightly.Extension.{Pallets, Host, FuncId, Metadata, Query}
use lunes_nightly.Extension.Amounts.{described}
use lunes_nightly.Extension.Token.{Token, Request, Answer, Step}

module _ (p : Pallets) where
  open p use {Chain, Memory, balance, allowance, total_issuance}

  -- The token that a chain holds.
  abbrev pub token : Chain → Token
  token c = record {
    described = λ k asset. described p k asset c;
    supply = λ asset. total_issuance asset c;
    balances = λ asset who. balance asset who c;
    allowances = λ asset owner spender. allowance asset owner spender c;
  }

  pub Token-ext :
      (t t' : Token)
      → ((k : Metadata) (x : ℕ) → t.described k x ≡ t'.described k x)
      → ((x : ℕ) → t.supply x ≡ t'.supply x)
      → ((x w : ℕ) → t.balances x w ≡ t'.balances x w)
      → ((x o s : ℕ) → t.allowances x o s ≡ t'.allowances x o s)
      → t ≡ t'
  Token-ext t t' ds ss bs ls = λ i. record {
    described = λ k x. ds k x i;
    supply = λ x. ss x i;
    balances = λ x w. bs x w i;
    allowances = λ x o s. ls x o s i;
  }

  -- What the memory asks for under a function id.
  pub data Asks (m : Memory) : FuncId → Request → Type 0 where
    metadata_input :
        (k : Metadata) (asset : ℕ)
        → p.read_asset_id m ≡ ok asset
        → Asks m (FuncId.metadata k) (Request.describe k asset)
    supply_input :
        (asset : ℕ)
        → p.read_asset_id m ≡ ok asset
        → Asks m (FuncId.query Query.total_supply) (Request.total_supply asset)
    balance_input :
        (asset owner : ℕ)
        → p.read_balance_of m ≡ ok (record { asset_id = asset; owner = owner })
        → Asks m (FuncId.query Query.balance_of) (Request.balance_of asset owner)
    allowance_input :
        (asset owner spender : ℕ)
        → p.read_allowance m ≡ ok (record { asset_id = asset; owner = owner; spender = spender })
        → Asks m (FuncId.query Query.allowance) (Request.allowance asset owner spender)
    transfer_input :
        (asset to value : ℕ)
        → p.read_transfer m ≡ ok (record { asset_id = asset; to = to; value = value })
        → Asks m FuncId.transfer (Request.transfer asset to value)
    transfer_from_input :
        (asset from to value : ℕ)
        → p.read_transfer_from m
          ≡ ok (record { asset_id = asset; from = from; to = to; value = value })
        → Asks m FuncId.transfer_from (Request.transfer_from asset from to value)
    approve_input :
        (asset spender value : ℕ)
        → p.read_approve m ≡ ok (record { asset_id = asset; spender = spender; value = value })
        → Asks m FuncId.approve (Request.raise_allowance asset spender value)
    increase_input :
        (asset spender value : ℕ)
        → p.read_approve m ≡ ok (record { asset_id = asset; spender = spender; value = value })
        → Asks m FuncId.increase_allowance (Request.raise_allowance asset spender value)
    decrease_input :
        (asset spender value : ℕ)
        → p.read_approve m ≡ ok (record { asset_id = asset; spender = spender; value = value })
        → Asks m FuncId.decrease_allowance (Request.lower_allowance asset spender value)
    burn_input :
        (asset from value : ℕ)
        → p.read_burn m ≡ ok (record { asset_id = asset; from = from; value = value })
        → Asks m FuncId.burn (Request.burn asset from value)
    no_input : Asks m FuncId.mint Request.mint

  -- The memory with an answer written to it.
  abbrev pub told : Answer → Memory → Memory
  told Answer.silent m = m
  told (Answer.text bytes) m = (p.write bytes m).1
  told (Answer.number n) m = (p.write (p.encode_balance n) m).1

  -- From `s` to `s'` a call by the caller under a function id does one step of the token.
  pub record Granted (caller : ℕ) (f : FuncId) (s s' : Host p) : Type 0 where
    pub request : Request
    pub answer : Answer
    pub asked : Asks s.memory f request
    pub step : Step caller (token s.chain) request (token s'.chain) answer
    pub written : s'.memory ≡ told answer s.memory
