-- ===== src/Extension/Supply.antt =====
-- Sequences of calls of runtime/src/chain_extension.rs and the sum of the balances.
use lunes_nightly.Prelude.{
  ℕ, ◌+◌, ◌-◌, ◌≤◌, ◌≡◌, ◌≢◌, inl, inr, refl, Bool, true, false, not, ◌&&◌, ◌||◌, ◌==◌,
  if◌then◌else◌, List, [], ◌∷◌, ◌++◌, All, ok, err, arith, Bool-cases, Result-cases,
}
use mathlib.Core.Path.{fun_ext}
use lunes_nightly.Extension.{Pallets, Env, Host, call}
use lunes_nightly.Extension.Documented.{IsLawful}
use lunes_nightly.Extension.Amounts.{IsExact}
use lunes_nightly.Extension.Token.{Token, Request, Answer, Step, moved, burnt, allowed}
use lunes_nightly.Extension.View.{token}
use lunes_nightly.Extension.Refines.{call_refines}

abbrev pub has : ℕ → List ℕ → Bool
has k [] = false
has k (x ∷ xs) = k == x || has k xs

abbrev pub distinct : List ℕ → Bool
distinct [] = true
distinct (x ∷ xs) = not (has x xs) && distinct xs

abbrev pub total : (ℕ → ℕ) → List ℕ → ℕ
total f [] = 0
total f (x ∷ xs) = f x + total f xs

total_same :
    (f g : ℕ → ℕ) (k : ℕ) (xs : List ℕ)
    → ((w : ℕ) → w ≢ k → g w ≡ f w)
    → has k xs ≡ false
    → total g xs ≡ total f xs
total_same f g k [] others absent = refl
total_same f g k (x ∷ xs) others absent =
    omega (
      arith,
      others x (ground (arith, absent)),
      total_same f g k xs others (ground (arith, absent)),
    )

-- Where one value has changed, the sum over distinct places with it has changed as the value.
total_changed :
    (f g : ℕ → ℕ) (k : ℕ) (xs : List ℕ)
    → ((w : ℕ) → w ≢ k → g w ≡ f w)
    → distinct xs ≡ true
    → has k xs ≡ true
    → total g xs + f k ≡ total f xs + g k
total_changed f g k [] others single present = absurd (ground arith)
total_changed f g k (x ∷ xs) others single present = elim (Bool-cases (k == x)) [
  | inl first ↦ ground (arith, total_same f g k xs others (ground arith))
  | inr later ↦
      omega (
        arith,
        others x (ground arith),
        total_changed f g k xs others (ground arith) (ground arith),
      )
]

All-split : (P : ℕ → Type 0) (xs ys : List ℕ) → All P (xs ++ ys) → All P xs × All P ys
All-split P [] ys h = (tt, h)
All-split P (x ∷ xs) ys (p, h) = let (l, r) = All-split P xs ys h in ((p, l), r)

-- From `t` to `t'` the supply of the asset has not risen, and it has fallen by what any distinct
-- accounts hold less, if they are not too few: some accounts must be among them.
pub record Conserved (asset : ℕ) (t t' : Token) : Type 0 where
  pub shrinks : t'.supply asset ≤ t.supply asset
  pub involved : List ℕ
  pub conserves :
      (accounts : List ℕ)
      → distinct accounts ≡ true
      → All (λ who. has who accounts ≡ true) involved
      → total (t'.balances asset) accounts + t.supply asset
        ≡ total (t.balances asset) accounts + t'.supply asset

Conserved-same :
    (x : ℕ) (t t' : Token)
    → t'.supply x ≡ t.supply x
    → t'.balances x ≡ t.balances x
    → Conserved x t t'
Conserved-same x t t' supply balances = record {
  shrinks = omega (arith, supply);
  involved = [];
  conserves = λ ws single within. rw (supply, balances) refl;
}

Conserved-trans :
    (x : ℕ) (t t' t'' : Token) → Conserved x t t' → Conserved x t' t'' → Conserved x t t''
Conserved-trans x t t' t'' h k = record {
  shrinks = omega (arith, h.shrinks, k.shrinks);
  involved = h.involved ++ k.involved;
  conserves = λ ws single within.
      let (l, r) = All-split (λ who. has who ws ≡ true) h.involved k.involved within in
      omega (arith, h.conserves ws single l, k.conserves ws single r);
}

burnt-Conserved :
    (x a f n : ℕ) (t : Token) → n ≤ t.balances a f → n ≤ t.supply a → Conserved x t (burnt a f n t)
unfolding burnt
burnt-Conserved x a f n t enough enough_supply = elim (Bool-cases (x == a)) [
  | inr other ↦ Conserved-same x t (burnt a f n t) (ground arith) (fun_ext λ w. ground arith)
  | inl here ↦ record {
    shrinks = ground arith;
    involved = f ∷ [];
    conserves = λ ws single within.
        let changed =
          total_changed (t.balances x) ((burnt a f n t).balances x) f ws (λ w other. ground arith)
            single within.0 in
        let less : (burnt a f n t).balances x f + n ≡ t.balances x f = ground arith in
        let left : (burnt a f n t).supply x + n ≡ t.supply x = ground arith in
        omega (arith, changed, less, left);
  }
]

moved-Conserved : (x a s d n : ℕ) (t : Token) → n ≤ t.balances a s → Conserved x t (moved a s d n t)
unfolding moved
moved-Conserved x a s d n t enough = elim (Bool-cases (x == a)) [
  | inr other ↦ Conserved-same x t (moved a s d n t) refl (fun_ext λ w. ground arith)
  | inl here ↦ elim (Bool-cases (s == d)) [
    | inl own ↦ Conserved-same x t (moved a s d n t) refl (fun_ext λ w. ground arith)
    | inr two ↦ record {
      shrinks = ground arith;
      involved = s ∷ d ∷ [];
      conserves = λ ws single within.
          let before = t.balances x in
          let after = (moved a s d n t).balances x in
          let between : ℕ → ℕ = λ w. if w == s then before w - n else before w in
          let taken = total_changed before between s ws (λ w other. ground arith) single within.0 in
          let given =
            total_changed between after d ws (λ w other. ground arith) single within.1.0 in
          let less : between s + n ≡ before s = ground arith in
          let more : after d ≡ between d + n = ground arith in
          omega (arith, taken, given, less, more);
    }
  ]
]

-- A step of the token conserves every asset.
Step-Conserved :
    (x caller : ℕ) (t t' : Token) (r : Request) (a : Answer)
    → Step caller t r t' a
    → Conserved x t t'
unfolding allowed
Step-Conserved x caller t _ _ _ (Step.described k asset) = Conserved-same x t t refl refl
Step-Conserved x caller t _ _ _ (Step.counted asset) = Conserved-same x t t refl refl
Step-Conserved x caller t _ _ _ (Step.held asset owner) = Conserved-same x t t refl refl
Step-Conserved x caller t _ _ _ (Step.permitted asset owner spender) =
    Conserved-same x t t refl refl
Step-Conserved x caller t _ _ _ Step.unminted = Conserved-same x t t refl refl
Step-Conserved x caller t _ _ _ (Step.sent asset to value t' enough e) =
    rw e (moved-Conserved x asset caller to value t enough)
Step-Conserved x caller t _ _ _ (Step.fetched asset from to value n t' allows enough how e) =
    let m = moved asset from to n t in
    let left = t.allowances asset from caller - value in
    rw e (
      Conserved-trans x t m (allowed asset from caller left m)
        (moved-Conserved x asset from to n t enough)
        (Conserved-same x m (allowed asset from caller left m) refl refl))
Step-Conserved x caller t _ _ _ (Step.raised asset spender value t' e) =
    rw e (Conserved-same x t (allowed asset caller spender _ t) refl refl)
Step-Conserved x caller t _ _ _ (Step.lowered asset spender value t' e) =
    rw e (Conserved-same x t (allowed asset caller spender _ t) refl refl)
Step-Conserved x caller t _ _ _ (Step.burned asset from value n t' enough enough_supply how e) =
    rw e (burnt-Conserved x asset from n t enough enough_supply)

module _ (p : Pallets) where
  -- One call after the other, each with its environment and memory; a call that fails is rolled
  -- back with its caller.
  abbrev pub after_calls : List (Env × p.Memory) → p.Chain → p.Chain
  after_calls [] c = c
  after_calls ((env, m) ∷ calls) c =
      let r = call p env (record { chain = c; memory = m }) in
      after_calls calls (elim r.0 [ ok _ ↦ r.1.chain | err _ ↦ c ])

module _ (p : Pallets) (laws : IsLawful p) (exact : IsExact p) where
  call-Conserved :
      (x : ℕ) (env : Env) (s : Host p) (v : p.RetVal)
      → (call p env s).0 ≡ ok v
      → Conserved x (token p s.chain) (token p (call p env s).1.chain)
  call-Conserved x env s v h =
      let (zero_code, (f, id, granted)) = call_refines p laws exact env s v h in
      Step-Conserved x env.caller (token p s.chain) (token p (call p env s).1.chain) granted.request
        granted.answer granted.step

  -- Whatever calls follow each other, by whichever contracts and with whatever inputs, where a
  -- failed call is rolled back: the supply of an asset never rises, and any distinct accounts that
  -- include some finitely many hold as much less of it as the supply has fallen. The assets pallet
  -- behaves and moves amounts as documented.
  pub after_calls-Conserved :
      (x : ℕ) (calls : List (Env × p.Memory)) (c : p.Chain)
      → Conserved x (token p c) (token p (after_calls p calls c))
  after_calls-Conserved x [] c = Conserved-same x (token p c) (token p c) refl refl
  after_calls-Conserved x ((env, m) ∷ calls) c =
      let s : Host p = record { chain = c; memory = m } in
      elim (Result-cases (call p env s).0) [
        | inl (v, done) ↦ rw done (
            Conserved-trans x (token p c) (token p (call p env s).1.chain) _
              (call-Conserved x env s v done)
              (after_calls-Conserved x calls (call p env s).1.chain))
        | inr (e, failed) ↦ rw failed (after_calls-Conserved x calls c)
      ]
