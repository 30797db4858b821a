-- ===== src/Extension/Token.antt =====
-- An abstract PSP22 token: what the chain extension of runtime/src/chain_extension.rs offers a
-- contract, without the assets pallet, the codec, the memory and the order of the pallet's calls.
use lunes_nightly.Prelude.{
  ℕ, ◌+◌, ◌-◌, ◌≤◌, ◌<◌, ◌≡◌, ◌⊎◌, List, min, u128_max, ◌==◌, ◌&&◌, Bool, if◌then◌else◌,
}
use lunes_nightly.Extension.{Metadata}

-- What is known of the tokens, by asset: the encoded metadata, the issuance, the balances by owner
-- and the allowances by owner and spender.
pub record Token : Type 0 where
  pub described : Metadata → ℕ → List ℕ
  pub supply : ℕ → ℕ
  pub balances : ℕ → ℕ → ℕ
  pub allowances : ℕ → ℕ → ℕ → ℕ

-- What a contract can ask for.
pub data Request : Type 0 where
  describe : Metadata → (asset : ℕ) → Request
  total_supply : (asset : ℕ) → Request
  balance_of : (asset owner : ℕ) → Request
  allowance : (asset owner spender : ℕ) → Request
  transfer : (asset to value : ℕ) → Request
  transfer_from : (asset from to value : ℕ) → Request
  raise_allowance lower_allowance : (asset spender value : ℕ) → Request
  burn : (asset from value : ℕ) → Request
  mint : Request

-- What it is told, beside the success.
pub data Answer : Type 0 where
  silent : Answer
  text : List ℕ → Answer
  number : ℕ → Answer

abbrev is : ℕ → ℕ → ℕ → ℕ → Bool
is asset who x w = x == asset && w == who

-- `n` goes from one account to another, which may be the same.
unfoldable pub moved : ℕ → ℕ → ℕ → ℕ → Token → Token
moved asset from to n t = record t {
  balances = λ x w.
      if is asset from x w
      then if from == to then t.balances x w else t.balances x w - n
      else if is asset to x w
      then t.balances x w + n
      else t.balances x w;
}

unfoldable pub burnt : ℕ → ℕ → ℕ → Token → Token
burnt asset from n t = record t {
  supply = λ x. if x == asset then t.supply x - n else t.supply x;
  balances = λ x w. if is asset from x w then t.balances x w - n else t.balances x w;
}

unfoldable pub allowed : ℕ → ℕ → ℕ → ℕ → Token → Token
allowed asset owner spender n t = record t {
  allowances = λ x o s. if is asset owner x o && s == spender then n else t.allowances x o s;
}

-- What a request by the caller, once granted, makes of the token, and its answer.
pub data Step (caller : ℕ) (t : Token) : Request → Token → Answer → Type 0 where
  described :
      (k : Metadata) (asset : ℕ) → Step caller t (describe k asset) t (text (t.described k asset))
  counted : (asset : ℕ) → Step caller t (total_supply asset) t (number (t.supply asset))
  held :
      (asset owner : ℕ) → Step caller t (balance_of asset owner) t (number (t.balances asset owner))
  permitted :
      (asset owner spender : ℕ)
      → Step caller t (allowance asset owner spender) t (number (t.allowances asset owner spender))
  sent :
      (asset to value : ℕ) (t' : Token)
      → value ≤ t.balances asset caller
      → t' ≡ moved asset caller to value t
      → Step caller t (transfer asset to value) t' silent
  -- With what is left below the minimum, the whole balance goes.
  fetched :
      (asset from to value n : ℕ) (t' : Token)
      → value ≤ t.allowances asset from caller
      → n ≤ t.balances asset from
      → (n ≡ value) ⊎ ((value < n) × (n ≡ t.balances asset from))
      → t'
        ≡ allowed asset from caller
            (t.allowances asset from caller - value)
            (moved asset from to n t)
      → Step caller t (transfer_from asset from to value) t' silent
  raised :
      (asset spender value : ℕ) (t' : Token)
      → t'
        ≡ allowed asset caller spender (min (t.allowances asset caller spender + value) u128_max) t
      → Step caller t (raise_allowance asset spender value) t' silent
  lowered :
      (asset spender value : ℕ) (t' : Token)
      → t' ≡ allowed asset caller spender (t.allowances asset caller spender - value) t
      → Step caller t (lower_allowance asset spender value) t' silent
  -- As much as there is, up to the value, or the whole balance.
  burned :
      (asset from value n : ℕ) (t' : Token)
      → n ≤ t.balances asset from
      → n ≤ t.supply asset
      → (n ≤ value) ⊎ (n ≡ t.balances asset from)
      → t' ≡ burnt asset from n t
      → Step caller t (burn asset from value) t' silent
  unminted : Step caller t mint t silent
