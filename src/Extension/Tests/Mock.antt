-- ===== src/Extension/Tests/Mock.antt =====
-- A small assets pallet, codec and contract memory that meet `Extension.Documented`.
use lunes_nightly.Prelude.{
  ℕ, ◌+◌, ◌-◌, Bool, ◌&&◌, ◌||◌, String, List, [], ◌∷◌, Result, ok, err, arith, min, u128_max, leb,
  ◌==◌, if◌then◌else◌, ◌++◌, inl, refl, ◌≡◌,
}
use lunes_nightly.Extension.{Pallets, Metadata}
use lunes_nightly.Extension.Documented.{IsLawful}
use lunes_nightly.Extension.Amounts.{described, IsExact}

pub record Ledger : Type 0 where
  pub balances : ℕ → ℕ → ℕ
  pub approvals : ℕ → ℕ → ℕ → ℕ
  pub issuance : ℕ → ℕ

-- The numbers that a contract passes, and what has been written back.
pub record Memory : Type 0 where
  pub args : List ℕ
  pub out : List ℕ

abbrev first : List ℕ → Result String ℕ
first [] = err "Codec"
first (a ∷ _) = ok a

abbrev two : {A : Type 0} → (ℕ → ℕ → A) → List ℕ → Result String A
two f (a ∷ b ∷ _) = ok (f a b)
two f _ = err "Codec"

abbrev three : {A : Type 0} → (ℕ → ℕ → ℕ → A) → List ℕ → Result String A
three f (a ∷ b ∷ c ∷ _) = ok (f a b c)
three f _ = err "Codec"

abbrev four : {A : Type 0} → (ℕ → ℕ → ℕ → ℕ → A) → List ℕ → Result String A
four f (a ∷ b ∷ c ∷ d ∷ _) = ok (f a b c d)
four f _ = err "Codec"

abbrev is : ℕ → ℕ → ℕ → ℕ → Bool
is a w x y = x == a && y == w

-- Takes `n` from `s` and gives it to `d`.
abbrev move : ℕ → ℕ → ℕ → ℕ → Ledger → Ledger
move a s d n c = record c {
  balances = λ x w.
      (if is a s x w then c.balances x w - n else c.balances x w) + (if is a d x w then n else 0);
}

abbrev destroy : ℕ → ℕ → ℕ → Ledger → Ledger
destroy a f n c = record c {
  balances = λ x w. if is a f x w then c.balances x w - n else c.balances x w;
  issuance = λ x. if x == a then c.issuance x - n else c.issuance x;
}

abbrev set_allowance : ℕ → ℕ → ℕ → ℕ → Ledger → Ledger
set_allowance a o t n c = record c {
  approvals = λ x v w. if x == a && v == o && w == t then n else c.approvals x v w;
}

abbrev allowed : ℕ → ℕ → ℕ → Ledger → ℕ
allowed a o t c = min (c.approvals a o t) u128_max

abbrev pub mock : Pallets
mock = record {
  DispatchError = String;
  other = λ text. text;
  RetVal = ℕ;
  converging = λ n. n;
  encode_bytes = λ bytes. bytes;
  encode_u8 = λ n. n ∷ [];
  encode_balance = λ n. n ∷ [];
  Memory = Memory;
  read_asset_id = λ m. first m.args;
  read_balance_of = λ m. two (λ a o. record { asset_id = a; owner = o }) m.args;
  read_allowance = λ m. three (λ a o s. record { asset_id = a; owner = o; spender = s }) m.args;
  read_transfer = λ m. three (λ a t v. record { asset_id = a; to = t; value = v }) m.args;
  read_transfer_from =
      λ m. four (λ a f t v. record { asset_id = a; from = f; to = t; value = v }) m.args;
  read_approve = λ m. three (λ a s v. record { asset_id = a; spender = s; value = v }) m.args;
  read_burn = λ m. three (λ a f v. record { asset_id = a; from = f; value = v }) m.args;
  write = λ bytes m. (ok tt, record m { out = m.out ++ bytes });
  Chain = Ledger;
  asset_name = λ a c. a ∷ [];
  asset_symbol = λ a c. [];
  asset_decimals = λ a c. 8;
  total_issuance = λ a c. c.issuance a;
  balance = λ a w c. c.balances a w;
  allowance = allowed;
  transfer = λ a s d n k c.
      if leb n (c.balances a s) then (ok n, move a s d n c) else (err "BalanceLow", c);
  transfer_from = λ a o s d n c.
      if leb n (allowed a o s c) && leb n (c.balances a o)
      then (ok tt, set_allowance a o s (allowed a o s c - n) (move a o d n c))
      else (err "Unapproved", c);
  approve = λ a o s n c.
      if leb n 1_000_000
      then (ok tt, set_allowance a o s (min (allowed a o s c + n) u128_max) c)
      else (err "Frozen", c);
  Origin = ℕ;
  signed = λ who. who;
  Address = ℕ;
  unlookup = λ who. who;
  cancel_approval = λ o a s c.
      if allowed a o s c == 0 then (err "Unknown", c) else (ok tt, set_allowance a o s 0 c);
  burn = λ o a f n c.
      if (o == 1 || n == 0) && leb n (c.balances a f) && leb n (c.issuance a)
      then (ok tt, destroy a f n c)
      else (err "NoPermission", c);
  is_admin = λ a w c. w == 1;
}

pub mock-IsLawful : IsLawful mock
mock-IsLawful = record {
  allowance_fits = λ a o s c. omega arith;
  transfer_atomic = λ a s d n k c e h. ground arith;
  transfer_from_atomic = λ a o s d n c e h. ground arith;
  approve_atomic = λ a o s n c e h. ground arith;
  cancel_atomic = λ o a s c e h. ground arith;
  burn_atomic = λ o a f n c e h. ground arith;
  transfer_debits = λ a s d n k c m h x w d'. ground arith;
  transfer_from_debits = λ a o s d n c h. (ground arith, λ x w d'. ground arith);
  approve_adds = λ a o s n c h. (ground arith, λ x v w d. ground arith, λ x w. ground arith);
  cancel_clears = λ o a s c h. (ground arith, λ x v w d. ground arith, λ x w. ground arith);
  burn_debits = λ o a f n c h. (λ d. ground arith, λ x w d. ground arith);
  burn_nothing = λ o a f n c e h x w. ground arith;
}

metadata_fixed :
    (k : Metadata) (x : ℕ) (c c' : Ledger) → described mock k x c' ≡ described mock k x c
unfolding described
metadata_fixed Metadata.name x c c' = refl
metadata_fixed Metadata.symbol x c c' = refl
metadata_fixed Metadata.decimals x c c' = refl

pub mock-IsExact : IsExact mock
mock-IsExact = record {
  transfer_moves = λ a s d n c m h. (
    record {
      enough = ground arith;
      debited = λ two. ground arith;
      credited = λ two. ground arith;
      itself = λ own. ground arith;
      others = λ x w e. ground arith;
      supply = λ x. ground arith;
      metadata = λ k x. metadata_fixed k x _ _;
    },
    λ x o t. ground arith,
  );
  transfer_from_moves = λ a o s d n c h. (
    (
      n,
      inl refl,
      record {
        enough = ground arith;
        debited = λ two. ground arith;
        credited = λ two. ground arith;
        itself = λ own. ground arith;
        others = λ x w e. ground arith;
        supply = λ x. ground arith;
        metadata = λ k x. metadata_fixed k x _ _;
      },
    ),
    ground arith,
    λ x v w d'. ground arith,
  );
  burn_burns = λ o a f n c h. (
    n,
    inl (ground arith),
    record {
      debited = ground arith;
      others = λ x w e. ground arith;
      shrunk = ground arith;
      other_assets = λ x e. ground arith;
      metadata = λ k x. metadata_fixed k x _ _;
      allowances = λ x v w. ground arith;
    },
  );
  approve_keeps = λ a o s n c h. (λ x. ground arith, λ k x. metadata_fixed k x _ _);
  cancel_keeps = λ o a s c h. (λ x. ground arith, λ k x. metadata_fixed k x _ _);
}
