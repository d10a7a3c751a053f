-- ===== src/Bytree/Base64.antt =====
-- lib/bytree/ssl_util.hpp: Base64. The loops fill `char_array_3` and `char_array_4` and empty them
-- when they are full; here they take three bytes, or four characters, at once. `ReverseBytes` is
-- the order of the bytes of one word of a digest.
pub mod RoundTrip
pub mod Sextets
pub mod Size
use woody.Shared.{
  ℕ, zero, suc, ◌+◌, ◌-◌, ◌*◌, ◌/◌, ◌%◌, ◌^◌, Bool, true, false, ◌&&◌, ◌||◌, not, List, [], ◌∷◌,
  ◌++◌, take, length, ltb, get_or, ◌==◌, leb, bit_and, if◌then◌else◌,
}
use woody.Shared.Text.{codes}
use woody.Base.StringMap.{Bytes}

abbrev pub base64_chars : Bytes
base64_chars = codes "ABCDEFGHIJKLMNOPQRSTUVWXYZabcdefghijklmnopqrstuvwxyz0123456789+/"

-- `isalnum` in the "C" locale.
abbrev pub is_alnum : ℕ → Bool
is_alnum c = (leb 48 c && leb c 57) || (leb 65 c && leb c 90) || (leb 97 c && leb c 122)

unfoldable pub is_base64 : ℕ → Bool
is_base64 c = is_alnum c || c == 43 || c == 47

-- The four numbers of three bytes.
unfoldable pub sextets : ℕ → ℕ → ℕ → List ℕ
sextets a b c =
    (bit_and a 0xfc / 4)
    ∷ (bit_and a 0x03 * 16 + bit_and b 0xf0 / 16)
    ∷ (bit_and b 0x0f * 4 + bit_and c 0xc0 / 64)
    ∷ bit_and c 0x3f
    ∷ []

unfoldable pub char_at : ℕ → ℕ
char_at i = get_or base64_chars i 0

abbrev pub chars_of : List ℕ → Bytes
chars_of [] = []
chars_of (i ∷ is) = char_at i ∷ chars_of is

-- The loop of `Base64Encode`; the missing bytes of the last group are zero.
unfoldable pub encode_groups : Bytes → Bytes
encode_groups [] = []
encode_groups (a ∷ []) = chars_of (take 2 (sextets a 0 0)) ++ (61 ∷ 61 ∷ [])
encode_groups (a ∷ (b ∷ [])) = chars_of (take 3 (sextets a b 0)) ++ (61 ∷ [])
encode_groups (a ∷ (b ∷ (c ∷ s))) = chars_of (sextets a b c) ++ encode_groups s

-- `Base64Encode`, whose `in_len` is the size as an `unsigned int`.
unfoldable pub base64_encode : Bytes → Bytes
base64_encode s = encode_groups (take (length s % 2 ^ 32) s)

-- `base64_chars.find(c)`, as an unsigned char: `npos` becomes 255.
unfoldable pub index_from : ℕ → Bytes → ℕ → ℕ
index_from i [] c = 255
index_from i (d ∷ ds) c = let later = index_from (i + 1) ds c in if d == c then i else later

unfoldable pub index_of : ℕ → ℕ
index_of c = index_from 0 base64_chars c

-- The three bytes of four numbers.
unfoldable pub octets : ℕ → ℕ → ℕ → ℕ → Bytes
octets p q r s =
    ((p * 4 + bit_and q 0x30 / 16) % 256)
    ∷ ((bit_and q 0xf * 16 + bit_and r 0x3c / 4) % 256)
    ∷ ((bit_and r 0x3 * 64 + s) % 256)
    ∷ []

-- The characters that the loop takes: up to the first that is '=' or not in the alphabet.
unfoldable pub taken : Bytes → Bytes
taken [] = []
taken (c ∷ s) = let rest = taken s in if not (c == 61) && is_base64 c then c ∷ rest else []

-- One group of four after the other; the missing characters of the last one are 0, and of `i`
-- characters come `i - 1` bytes.
unfoldable pub decode_groups : Bytes → Bytes
decode_groups [] = []
decode_groups (w ∷ []) = take 0 (octets (index_of w) (index_of 0) (index_of 0) (index_of 0))
decode_groups (w ∷ (x ∷ [])) = take 1 (octets (index_of w) (index_of x) (index_of 0) (index_of 0))
decode_groups (w ∷ (x ∷ (y ∷ []))) =
    take 2 (octets (index_of w) (index_of x) (index_of y) (index_of 0))
decode_groups (w ∷ (x ∷ (y ∷ (z ∷ s)))) =
    octets (index_of w) (index_of x) (index_of y) (index_of z) ++ decode_groups s

-- How many characters the `int` of a size lets the loop take: a size that is negative as an `int`
-- never comes down to zero, and the string ends first. (A loop so long that `in_len` or `in_` passes
-- the limits of an `int` is undefined and not modelled.)
unfoldable pub int_limit : ℕ → ℕ
int_limit n = if ltb (n % 2 ^ 32) (2 ^ 31) then n % 2 ^ 32 else n

unfoldable pub base64_decode : Bytes → Bytes
base64_decode s = decode_groups (taken (take (int_limit (length s)) s))

-- `ReverseBytes` of a 32-bit word.
unfoldable pub reverse_bytes : ℕ → Bytes
reverse_bytes x = (x / 2 ^ 24 % 256) ∷ (x / 2 ^ 16 % 256) ∷ (x / 2 ^ 8 % 256) ∷ (x % 256) ∷ []

-- The loop of `Sha1` over the five words of the digest.
unfoldable pub words : List ℕ → Bytes
words [] = []
words (x ∷ xs) = reverse_bytes x ++ words xs

-- The digest's words are computed by the digest library.
unfoldable pub sha1 : (Bytes → List ℕ) → Bytes → Bytes
sha1 get_digest buf = words (get_digest buf)
