-- ===== src/Common/Utf8.antt =====
-- UTF-8, the encoding of `str`.
use Prim.Native.Nat.{ℕ, ◌+◌, ◌/◌, ◌%◌, ◌<◌}
use mathlib.Core.Path.{◌≡◌, refl, sym}
use mathlib.Core.Logic.{◌≢◌}
use mathlib.Core.List.{List, [], ◌∷◌, ◌++◌}
use native.Mathlib.Omega.{arith}
use iroh_proxy.Common.Tests.{ltb, if◌then◌else◌}
use iroh_proxy.Common.Lists.{length, All}
use iroh_proxy.Common.Text.{Text, text_eq, is_whitespace, is_control, trim}

abbrev pub Bytes : Type 0
Bytes = List ℕ

-- A character's bytes.
unfoldable pub encode_char : ℕ → Bytes
encode_char c =
    if ltb c 0x80
    then c ∷ []
    else if ltb c 0x800
    then (0xc0 + c / 64) ∷ (0x80 + c % 64) ∷ []
    else if ltb c 0x10000
    then (0xe0 + c / 4096) ∷ (0x80 + c / 64 % 64) ∷ (0x80 + c % 64) ∷ []
    else (0xf0 + c / 262144) ∷ (0x80 + c / 4096 % 64) ∷ (0x80 + c / 64 % 64) ∷ (0x80 + c % 64) ∷ []

unfoldable pub encode : Text → Bytes
encode [] = []
encode (c ∷ s) = encode_char c ++ encode s

-- str::len.
unfoldable pub byte_len : Text → ℕ
unfolding encode
byte_len s = length (encode s)

-- The values of `char`; the surrogates among them do not matter here.
abbrev pub IsChar : ℕ → Type 0
IsChar c = c < 0x110000

abbrev pub IsText : Text → Type 0
IsText s = All IsChar s

-- The encoding is prefix-free: the first character and what follows are determined.
pub encode_char_prefix :
    (c d : ℕ) (xs ys : Bytes)
    → IsChar c
    → IsChar d
    → encode_char c ++ xs ≡ encode_char d ++ ys
    → (c ≡ d) × (xs ≡ ys)
unfolding encode_char
encode_char_prefix c d xs ys hc hd h = ground arith

encode_char-ne-nil : (c : ℕ) (xs : Bytes) → encode_char c ++ xs ≢ []
unfolding encode_char
encode_char-ne-nil c xs h = ground arith

-- Texts with the same bytes are the same.
pub encode_injective : (s t : Text) → IsText s → IsText t → encode s ≡ encode t → s ≡ t
unfolding encode
encode_injective [] [] h k e = refl
encode_injective [] (d ∷ t) h k e = absurd (encode_char-ne-nil d (encode t) (sym e))
encode_injective (c ∷ s) [] h k e = absurd (encode_char-ne-nil c (encode s) e)
encode_injective (c ∷ s) (d ∷ t) (hc, h) (hd, k) e =
    let same : (c ≡ d) × (encode s ≡ encode t) = encode_char_prefix c d _ _ hc hd e in
    cc (same.0, encode_injective s t h k same.1)

-- What a run of code on texts unfolds.
unfoldable pub text_computes : Unit {0}
unfolding encode_char encode byte_len text_eq is_whitespace is_control trim
text_computes = tt
