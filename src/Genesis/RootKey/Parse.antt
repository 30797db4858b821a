-- ===== src/Genesis/RootKey/Parse.antt =====
-- What `get_root_key` (node/src/chain_spec.rs) makes of the variable's text.
use lunes_nightly.Prelude.{
  ℕ, ◌*◌, ◌<◌, ◌≡◌, ◌≢◌, inl, inr, Option-cases, refl, Bool, true, false, ◌&&◌, ◌||◌, Option, none,
  some, List, [], ◌∷◌, ◌++◌, String, arith, leb, if◌then◌else◌, length, All, All-append,
}
use mathlib.Core.List.{reverse, reverse-append, reverse-reverse}
use lunes_nightly.Genesis.RootKey.{
  value, not_present, not_unicode, is_whitespace, trim_start, trim, strip_0x, of_bytes, account_of,
  get_root_key,
}

abbrev pub is_hex : ℕ → Bool
is_hex c = (leb 0x30 c && leb c 0x39) || (leb 0x41 c && leb c 0x46) || (leb 0x61 c && leb c 0x66)

abbrev pub AllSpaces : List ℕ → Type 0
AllSpaces = All λ c. is_whitespace c ≡ true

abbrev AllSolid : List ℕ → Type 0
AllSolid = All λ c. is_whitespace c ≡ false

abbrev pub AllHex : List ℕ → Type 0
AllHex = All λ c. is_hex c ≡ true

-- What the decoder documents: it takes hexadecimal digits only, two for each byte.
pub record IsHexDecoder (hex_decode : List ℕ → Option (List ℕ)) : Type 0 where
  pub digits : (text bytes : List ℕ) → hex_decode text ≡ some bytes → AllHex text
  pub halves : (text bytes : List ℕ) → hex_decode text ≡ some bytes → length text ≡ 2 * length bytes

hex-solid : (text : List ℕ) → AllHex text → AllSolid text
hex-solid [] h = tt
hex-solid (c ∷ cs) h = (ground arith, hex-solid cs h.1)

All-reverse : (P : ℕ → Type 0) (xs : List ℕ) → All P xs → All P (reverse xs)
All-reverse P [] h = tt
All-reverse P (x ∷ xs) h =
    rw (reverse-append (x ∷ []) xs)
      (All-append P (reverse xs) (x ∷ []) (All-reverse P xs h.1) (h.0, tt))

trim_start-spaces : (pre xs : List ℕ) → AllSpaces pre → trim_start (pre ++ xs) ≡ trim_start xs
unfolding trim_start
trim_start-spaces [] xs h = refl
trim_start-spaces (c ∷ cs) xs h = ground (arith, trim_start-spaces cs xs h.1)

trim_start-solid :
    (post : List ℕ) (c : ℕ) → is_whitespace c ≡ false → trim_start (c ∷ post) ≡ c ∷ post
unfolding trim_start
trim_start-solid post c h = ground arith

trim_start-all : (text : List ℕ) → AllSolid text → trim_start text ≡ text
unfolding trim_start
trim_start-all [] h = refl
trim_start-all (c ∷ cs) h = ground arith

trim_lem :
    (pre post cs : List ℕ) (c : ℕ)
    → AllSpaces pre
    → AllSpaces post
    → AllSolid (c ∷ cs)
    → trim (pre ++ ((c ∷ cs) ++ post)) ≡ c ∷ cs
unfolding trim
trim_lem pre post cs c h k solid =
    let text : List ℕ = c ∷ cs in
    rw (trim_start-spaces pre (text ++ post) h, trim_start-solid (cs ++ post) c solid.0)
      (rw
        (
          reverse-append text post,
          trim_start-spaces (reverse post) (reverse text) (All-reverse _ post k),
        )
        (rw (trim_start-all (reverse text) (All-reverse _ text solid)) (reverse-reverse text)))

strip_0x-hex : (text : List ℕ) → AllHex text → strip_0x text ≡ text
unfolding strip_0x
strip_0x-hex [] h = refl
strip_0x-hex (a ∷ []) h = refl
strip_0x-hex (a ∷ b ∷ cs) h = ground arith

module _ (hex_decode : List ℕ → Option (List ℕ)) (from_seed : String → ℕ) where
  -- The text of the variable with or without its prefix.
  abbrev pub prefixed : Bool → List ℕ → List ℕ
  prefixed with_0x text = if with_0x then 0x30 ∷ 0x78 ∷ text else text

  trimmed :
      (with_0x : Bool) (pre text post : List ℕ)
      → AllSpaces pre
      → AllSpaces post
      → AllHex text
      → 0 < length text
      → strip_0x (trim (pre ++ (prefixed with_0x text ++ post))) ≡ text
  unfolding strip_0x
  trimmed true pre text post h k hex some_text =
      rw (trim_lem pre post (0x78 ∷ text) 0x30 h k (refl, (refl, hex-solid text hex)))
  trimmed false pre [] post h k hex some_text = absurd (omega arith)
  trimmed false pre (c ∷ cs) post h k hex some_text =
      rw (trim_lem pre post cs c h k (hex-solid (c ∷ cs) hex)) (strip_0x-hex (c ∷ cs) hex)

  -- For every text that the decoder reads as 32 bytes, with or without "0x" in front and with any
  -- white space around, the root key is the account that the bytes spell; the decoder behaves as
  -- documented.
  pub get_root_key_parses :
      IsHexDecoder hex_decode
      → (with_0x : Bool) (pre text post bytes : List ℕ) → AllSpaces pre
      → AllSpaces post
      → hex_decode text ≡ some bytes
      → length bytes ≡ 32
      → get_root_key hex_decode from_seed (value (pre ++ (prefixed with_0x text ++ post)))
        ≡ some (of_bytes bytes)
  unfolding get_root_key account_of
  get_root_key_parses hex with_0x pre text post bytes h k e whole =
      let long_enough : 0 < length text = omega (arith, hex.halves text bytes e) in
      ground
        (arith, trimmed with_0x pre text post h k (hex.digits text bytes e) long_enough, e, whole)

-- A variable that is set to a text never gives the development account by default: the result does
-- not depend on how keys are derived, and it is a panic where the text without its white space and
-- prefix does not decode to 32 bytes. But a variable that is set to no Unicode text is taken as
-- one that is not set.
pub get_root_key_fallback :
    (hex_decode : List ℕ → Option (List ℕ)) (seed seed' : String → ℕ) (raw : List ℕ)
    → (get_root_key hex_decode seed (value raw) ≡ get_root_key hex_decode seed' (value raw))
      × (((bytes : List ℕ) → hex_decode (strip_0x (trim raw)) ≡ some bytes → length bytes ≢ 32)
          → get_root_key hex_decode seed (value raw) ≡ none)
      × (get_root_key hex_decode seed not_unicode ≡ get_root_key hex_decode seed not_present)
unfolding get_root_key account_of
get_root_key_fallback hex_decode seed seed' raw = (
  refl,
  λ bad. elim (Option-cases (hex_decode (strip_0x (trim raw)))) [
    | inl undecoded ↦ ground arith
    | inr (bytes, e) ↦ ground (arith, bad bytes e)
  ],
  refl,
)
