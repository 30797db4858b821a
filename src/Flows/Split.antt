-- ===== src/Flows/Split.antt =====
-- Who gets what of the money that the pallets take (runtime/src/lib.rs).
use lunes_nightly.Prelude.{
  ℕ, ◌+◌, ◌-◌, ◌*◌, ◌^◌, ◌≤◌, ◌≡◌, ◌≢◌, sym, true, false, some, arith, refl, Bool, u128_max,
  if◌then◌else◌,
}
use lunes_nightly.Fees.Deal.{Currency, on_unbalanceds, treasury_unbalanced, treasury_account}
use lunes_nightly.Fees.Deal
use lunes_nightly.Fees.Shares.{quarter, half, is_deflating, deal-shares, on_unbalanced-Credits}
use lunes_nightly.Flows.{
  Flow, transaction_fee, reward_remainder, staking_slash, election_slash, democracy_slash,
  treasury_on_slash, treasury_burn, identity_slash, nick_slash, dust, Handler, deal_with_fees,
  treasury_lunes, treasury_pallet, unit_handler, handler_of, Treasury, treasury_pallet_id, handle,
}

-- An amount in parts: to the block's author, to the account of `TreasuryLunes`, to the account of the
-- treasury pallet, and out of the issuance.
pub record Parts : Type 0 where
  pub to_author : ℕ
  pub to_fixed : ℕ
  pub to_pallet : ℕ
  pub burned : ℕ

abbrev pub nothing : Parts
nothing = record { to_author = 0; to_fixed = 0; to_pallet = 0; burned = 0 }

-- What a handler does with an amount, while the issuance is above the threshold or not.
abbrev pub split : Handler → Bool → ℕ → Parts
split deal_with_fees above n =
    let share = quarter n in
    let paid = (if above then half share else share) in
    record { to_author = n - share; to_fixed = paid; to_pallet = 0; burned = share - paid }
split treasury_lunes above n = record nothing { to_fixed = n }
split treasury_pallet above n = record nothing { to_pallet = n }
split unit_handler above n = record nothing { burned = n }

-- Where each flow is to end, whatever the handlers are: fees are shared out, rewards that are not
-- paid and staking slashes go to the fixed account, slashes of democracy, identity and nicknames
-- to the treasury pallet, and all else is burnt.
unfoldable pub parts : Flow → Bool → ℕ → Parts
parts transaction_fee above n =
    let share = quarter n in
    let paid = (if above then half share else share) in
    record { to_author = n - share; to_fixed = paid; to_pallet = 0; burned = share - paid }
parts reward_remainder above n = record nothing { to_fixed = n }
parts staking_slash above n = record nothing { to_fixed = n }
parts election_slash above n = record nothing { burned = n }
parts democracy_slash above n = record nothing { to_pallet = n }
parts treasury_on_slash above n = record nothing { burned = n }
parts treasury_burn above n = record nothing { burned = n }
parts identity_slash above n = record nothing { to_pallet = n }
parts nick_slash above n = record nothing { to_pallet = n }
parts dust above n = record nothing { burned = n }

parts-split : (f : Flow) (above : Bool) (n : ℕ) → parts f above n ≡ split (handler_of f) above n
unfolding parts handler_of
parts-split transaction_fee above n = refl
parts-split reward_remainder above n = refl
parts-split staking_slash above n = refl
parts-split election_slash above n = refl
parts-split democracy_slash above n = refl
parts-split treasury_on_slash above n = refl
parts-split treasury_burn above n = refl
parts-split identity_slash above n = refl
parts-split nick_slash above n = refl
parts-split dust above n = refl

-- The parts add up to the amount.
split_sum :
    (h : Handler) (above : Bool) (n : ℕ)
    → let s = split h above n in s.to_author + s.to_fixed + s.to_pallet + s.burned ≡ n
split_sum deal_with_fees true n = omega arith
split_sum deal_with_fees false n = omega arith
split_sum treasury_lunes above n = omega arith
split_sum treasury_pallet above n = omega arith
split_sum unit_handler above n = omega arith

-- What the treasury pallet documents: it credits the account of its id, which is the text "modl"
-- and the eight bytes of the id, filled up with zeros to 32 bytes.
pub record IsLawful (b : Currency) (t : Treasury b) : Type 0 where
  pub into_account_lem : (id : ℕ) → t.into_account id ≡ (0x6d6f646c * 2 ^ 64 + id) * 2 ^ 160
  pub treasury_credits :
      (i : b.Imbalance) (c : b.Chain)
      → t.on_nonzero_unbalanced i c ≡ b.resolve_creating (t.into_account treasury_pallet_id) i c

module _ (b : Currency) (money : Deal.IsLawful b) (t : Treasury b) (laws : IsLawful b t) where
  open b use {Chain, Imbalance, peek, total_issuance, author, free_balance, accepts}

  abbrev pub pallet_account : ℕ
  pallet_account = t.into_account treasury_pallet_id

  accounts_differ : pallet_account ≢ treasury_account
  accounts_differ e = omega (arith, laws.into_account_lem treasury_pallet_id, e)

  -- From `c` to `c'` the parts have reached their accounts, and nothing else has changed.
  abbrev pub Reaches : ℕ → Parts → Chain → Chain → Type 0
  Reaches who s c c' =
      (free_balance who c' ≡ free_balance who c + s.to_author)
      × (free_balance treasury_account c' ≡ free_balance treasury_account c + s.to_fixed)
      × (free_balance pallet_account c' ≡ free_balance pallet_account c + s.to_pallet)
      × ((a : ℕ)
          → a ≢ who
          → a ≢ treasury_account
          → a ≢ pallet_account
          → free_balance a c' ≡ free_balance a c)
      × (total_issuance c' ≡ total_issuance c - s.burned)

  -- Both accounts of a treasury and the author exist, and are three accounts.
  pub record IsOpen (who : ℕ) (c : Chain) : Type 0 where
    pub author_known : author c ≡ some who
    pub not_fixed : who ≢ treasury_account
    pub not_pallet : who ≢ pallet_account
    pub author_open : (m : ℕ) → accepts who m c ≡ true
    pub fixed_open : (m : ℕ) → accepts treasury_account m c ≡ true
    pub pallet_open : (m : ℕ) → accepts pallet_account m c ≡ true

  handle-Reaches :
      (h : Handler) (i : Imbalance) (c : Chain) (who : ℕ)
      → peek i * 25 ≤ u128_max
      → IsOpen who c
      → Reaches who (split h (is_deflating (total_issuance c)) (peek i)) c (handle b t h i c)
  unfolding handle on_unbalanceds treasury_unbalanced
  handle-Reaches deal_with_fees i c who fits o =
      let (author_paid, fixed_paid, others, burned) =
        deal-shares b money i c who fits o.author_known o.not_fixed o.author_open o.fixed_open in
      (
        author_paid,
        fixed_paid,
        omega (arith, others pallet_account (λ e. o.not_pallet (sym e)) accounts_differ),
        (λ a x y z. others a x y),
        burned,
      )
  handle-Reaches treasury_lunes i c who fits o =
      let (credited, kept, _) =
        on_unbalanced-Credits b money (treasury_unbalanced b) treasury_account i c refl
          (o.fixed_open (peek i)) in
      (
        ground (arith, credited who, o.not_fixed),
        ground (arith, credited treasury_account),
        ground (arith, credited pallet_account, accounts_differ),
        (λ a x y z. ground (arith, credited a)),
        omega (arith, kept),
      )
  handle-Reaches treasury_pallet i c who fits o =
      let (credited, kept, _) =
        on_unbalanced-Credits b money t.on_nonzero_unbalanced pallet_account i c
          (laws.treasury_credits i c) (o.pallet_open (peek i)) in
      (
        ground (arith, credited who, o.not_pallet),
        ground (arith, credited treasury_account, accounts_differ),
        ground (arith, credited pallet_account),
        (λ a x y z. ground (arith, credited a)),
        omega (arith, kept),
      )
  handle-Reaches unit_handler i c who fits o = (
    omega (arith, money.balance-drop who i c),
    omega (arith, money.balance-drop treasury_account i c),
    omega (arith, money.balance-drop pallet_account i c),
    (λ a x y z. money.balance-drop a i c),
    money.issuance-drop i c,
  )

  -- For every flow, while both accounts of a treasury and that of the author are three existing
  -- accounts and 25 times the amount is a `u128`: the amount is split as the table `parts` says into
  -- what the author, the fixed account of `TreasuryLunes` and the account of the treasury pallet are
  -- credited with and what leaves the issuance, and nothing is lost. So fees go to the author, to the
  -- fixed account and, with an issuance above the threshold, in part out of the issuance; rewards
  -- that are not paid and staking slashes go to the fixed account whole; slashes of democracy,
  -- identity and nicknames to the treasury pallet; all else is burnt. These are all effects that the
  -- handler of the flow has on balances and issuance, and the treasury pallet's account is another
  -- one than the fixed account. The pallets behave as documented.
  pub flow-Reaches :
      (f : Flow) (i : Imbalance) (c : Chain) (who : ℕ)
      → peek i * 25 ≤ u128_max
      → IsOpen who c
      → let s = parts f (is_deflating (total_issuance c)) (peek i) in
        (s.to_author + s.to_fixed + s.to_pallet + s.burned ≡ peek i)
        × Reaches who s c (handle b t (handler_of f) i c)
        × (pallet_account ≢ treasury_account)
  flow-Reaches f i c who fits o =
      let above = is_deflating (total_issuance c) in
      let same = parts-split f above (peek i) in
      (
        rw same (split_sum (handler_of f) above (peek i)),
        rw same (handle-Reaches (handler_of f) i c who fits o),
        accounts_differ,
      )
