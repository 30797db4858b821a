-- ===== src/Rpc/Tests.antt =====
-- The methods of node/src/rpc.rs, with modules as lists of numbers.
use lunes_nightly.Prelude.{
  ℕ, refl, Bool, true, not, ◌&&◌, ok, err, List, [], ◌∷◌, ◌++◌, ◌==◌, if◌then◌else◌, Result,
}
use lunes_nightly.Rpc.{Modules, IsLawful}

abbrev lacks : ℕ → List ℕ → Bool
lacks x [] = true
lacks x (y ∷ ys) = not (x == y) && lacks x ys

abbrev apart : List ℕ → List ℕ → Bool
apart [] ys = true
apart (x ∷ xs) ys = lacks x ys && apart xs ys

abbrev merge_lists : List ℕ → List ℕ → Result ℕ (List ℕ)
merge_lists xs ys = if apart xs ys then ok (xs ++ ys) else err 1

abbrev lists : Modules
lists = record {
  Client = Unit {0};
  Pool = Unit {0};
  DenyUnsafe = Bool;
  RpcModule = List ℕ;
  RpcError = ℕ;
  new_module = [];
  merge = merge_lists;
  system_rpc = λ client pool deny. if deny then 1 ∷ 2 ∷ [] else 1 ∷ 2 ∷ 3 ∷ [];
  payment_rpc = λ client. 4 ∷ 5 ∷ [];
  Method = ℕ;
  methods = λ x. x;
  disjoint = apart;
}

lists-IsLawful : IsLawful lists
lists-IsLawful = record {
  methods-new = refl;
  disjoint_empty = λ ys. refl;
  merge_disjoint = λ x y h. (x ++ y, rw h refl, refl);
  merge_taken = λ x y h. (1, rw h refl);
}
