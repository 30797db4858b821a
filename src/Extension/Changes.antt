-- ===== src/Extension/Changes.antt =====
-- What the assets pallet documents of its operations, as changes of the abstract token
-- (runtime/src/chain_extension.rs).
use lunes_nightly.Prelude.{ℕ, ◌≡◌, arith, inl, inr, Bool-cases, ◌==◌}
use lunes_nightly.Extension.{Pallets, metadata}
use lunes_nightly.Extension.Documented.{IsLawful, OnlyAllowance}
use lunes_nightly.Extension.Allowance.{SetsAllowance}
use lunes_nightly.Extension.Amounts.{
  SameMetadata, SameSupply, SameAllowances, Moves, Burns, IsExact,
}
use lunes_nightly.Extension.Token.{moved, burnt, allowed}
use lunes_nightly.Extension.View.{token, Token-ext}

module _ (p : Pallets) (laws : IsLawful p) (exact : IsExact p) where
  open p use {Chain, DispatchError, balance, allowance, total_issuance}

  balances-moved :
      (a s d n : ℕ) (c c' : Chain)
      → Moves p a s d n c c'
      → (x w : ℕ) → balance x w c' ≡ (moved a s d n (token p c)).balances x w
  unfolding moved
  balances-moved a s d n c c' m x w = elim (Bool-cases (x == a)) [
    | inr other ↦ ground (arith, m.others x w (inl (ground arith)))
    | inl here ↦ elim (Bool-cases (w == s)) [
      | inl his ↦ elim (Bool-cases (s == d)) [
        | inl own ↦ ground (arith, m.itself (ground arith))
        | inr two ↦ ground (arith, m.debited (ground arith))
      ]
      | inr not_his ↦ elim (Bool-cases (w == d)) [
        | inl theirs ↦ ground (arith, m.credited (ground arith))
        | inr third ↦ ground (arith, m.others x w (inr (ground arith, ground arith)))
      ]
    ]
  ]

  allowances-allowed :
      (a o t n : ℕ) (c c' : Chain)
      → allowance a o t c' ≡ n
      → OnlyAllowance p a o t c c'
      → (x w v : ℕ) → allowance x w v c' ≡ (allowed a o t n (token p c)).allowances x w v
  unfolding allowed
  allowances-allowed a o t n c c' set others x w v = elim (Bool-cases (x == a)) [
    | inr other ↦ ground (arith, others x w v (inl (ground arith)))
    | inl here ↦ elim (Bool-cases (w == o)) [
      | inr not_his ↦ ground (arith, others x w v (inr (inl (ground arith))))
      | inl his ↦ elim (Bool-cases (v == t)) [
        | inr not_them ↦ ground (arith, others x w v (inr (inr (ground arith))))
        | inl them ↦ ground (arith, set)
      ]
    ]
  ]

  pub Moves-moved :
      (a s d n : ℕ) (c c' : Chain)
      → Moves p a s d n c c'
      → SameAllowances p c c'
      → token p c' ≡ moved a s d n (token p c)
  unfolding moved
  Moves-moved a s d n c c' m same =
      Token-ext p (token p c') (moved a s d n (token p c)) m.metadata m.supply
        (balances-moved a s d n c c' m) same

  pub Moves-spent :
      (a s t d n left : ℕ) (c c' : Chain)
      → Moves p a s d n c c'
      → allowance a s t c' ≡ left
      → OnlyAllowance p a s t c c'
      → token p c' ≡ allowed a s t left (moved a s d n (token p c))
  unfolding moved allowed
  Moves-spent a s t d n left c c' m set others =
      Token-ext p (token p c') (allowed a s t left (moved a s d n (token p c))) m.metadata m.supply
        (balances-moved a s d n c c' m) (allowances-allowed a s t left c c' set others)

  pub Burns-burnt :
      (a f n : ℕ) (c c' : Chain) → Burns p a f n c c' → token p c' ≡ burnt a f n (token p c)
  unfolding burnt
  Burns-burnt a f n c c' b =
      Token-ext p (token p c') (burnt a f n (token p c)) b.metadata
        (λ x. elim (Bool-cases (x == a)) [
          | inr other ↦ ground (arith, b.other_assets x (ground arith))
          | inl here ↦ ground (arith, b.shrunk)
        ])
        (λ x w. elim (Bool-cases (x == a)) [
          | inr other ↦ ground (arith, b.others x w (inl (ground arith)))
          | inl here ↦ elim (Bool-cases (w == f)) [
            | inl his ↦ ground (arith, b.debited)
            | inr not_his ↦ ground (arith, b.others x w (inr (ground arith)))
          ]
        ])
        b.allowances

  pub Sets-allowed :
      (a o t n : ℕ) (c c' : Chain)
      → SetsAllowance p laws a o t n c c'
      → SameSupply p c c'
      → SameMetadata p c c'
      → token p c' ≡ allowed a o t n (token p c)
  unfolding allowed
  Sets-allowed a o t n c c' (set, others, balances) supply metadata =
      Token-ext p (token p c') (allowed a o t n (token p c)) metadata supply balances
        (allowances-allowed a o t n c c' set others)
