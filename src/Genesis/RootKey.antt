-- ===== src/Genesis/RootKey.antt =====
-- `get_root_key` (node/src/chain_spec.rs): the root account from the environment variable
-- `LUNES_ROOT_KEY`. A text is the list of its code points. The hexadecimal decoder is the `hex`
-- crate's and the key derivation is the node library's: both are parameters.
pub mod Parse
use lunes_nightly.Prelude.{
  ℕ, ◌+◌, ◌*◌, ◌≡◌, ◌≢◌, refl, Bool, true, false, ◌&&◌, ◌||◌, Option, none, some, List, [], ◌∷◌,
  ◌++◌, String, arith, leb, ◌==◌, if◌then◌else◌, length,
}
use mathlib.Core.List.{reverse, foldl}

-- What `std::env::var` finds.
pub data EnvVar : Type 0 where
  not_present : EnvVar
  not_unicode : EnvVar
  value : List ℕ → EnvVar

-- `char::is_whitespace`: the code points with the property `White_Space`.
abbrev pub is_whitespace : ℕ → Bool
is_whitespace c =
    (leb 9 c && leb c 13)
    || c == 0x20
    || c == 0x85
    || c == 0xa0
    || c == 0x1680
    || (leb 0x2000 c && leb c 0x200a)
    || c == 0x2028
    || c == 0x2029
    || c == 0x202f
    || c == 0x205f
    || c == 0x3000

unfoldable pub trim_start : List ℕ → List ℕ
trim_start [] = []
trim_start (c ∷ cs) = if is_whitespace c then trim_start cs else c ∷ cs

-- `str::trim`
unfoldable pub trim : List ℕ → List ℕ
trim text = reverse (trim_start (reverse (trim_start text)))

-- `raw.strip_prefix("0x").unwrap_or(raw)`
unfoldable pub strip_0x : List ℕ → List ℕ
strip_0x [] = []
strip_0x (a ∷ []) = a ∷ []
strip_0x (a ∷ b ∷ rest) = if a == 0x30 && b == 0x78 then rest else a ∷ b ∷ rest

-- An account is the number that its bytes spell, the first byte on top.
abbrev pub of_bytes : List ℕ → ℕ
of_bytes = foldl (λ n byte. n * 256 + byte) 0

module _ (hex_decode : List ℕ → Option (List ℕ)) (from_seed : String → ℕ) where
  -- The two `expect`s: `none` is the panic.
  unfoldable pub account_of : List ℕ → Option ℕ
  account_of cleaned = elim (hex_decode cleaned) [
    | none ↦ none
    | some bytes ↦ if length bytes == 32 then some (of_bytes bytes) else none
  ]

  unfoldable pub get_root_key : EnvVar → Option ℕ
  get_root_key (value raw) = account_of (strip_0x (trim raw))
  get_root_key not_present = some (from_seed "Alice")
  get_root_key not_unicode = some (from_seed "Alice")
