-- ===== src/Bytree/Base64/Size.antt =====
-- lib/bytree/ssl_util.hpp: the size and the characters of what `Base64Encode` writes.
use woody.Shared.{
  ℕ, ◌%◌, ◌^◌, take_all, ◌+◌, ◌*◌, ◌/◌, ◌<◌, ◌≡◌, refl, true, ◌||◌, List, [], ◌∷◌, ◌++◌, length,
  take, All, All-append, All-take, arith, ◌==◌,
}
use woody.Shared.Bits.{every_below, entry_below}
use woody.Base.Endian.{IsByte}
use woody.Base.StringMap.{Bytes}
use woody.Bytree.Base64.{is_base64, sextets, char_at, chars_of, encode_groups, base64_encode}
use woody.Bytree.Base64.Sextets.{sextets_lem}

-- A character of the alphabet, or the filler.
abbrev pub IsBase64 : ℕ → Type 0
IsBase64 c = (is_base64 c || c == 61) ≡ true

-- The loop of `Base64Encode` writes four characters for every three of them, the last
-- group filled up.
length-encode_groups : (s : Bytes) → length (encode_groups s) ≡ 4 * ((length s + 2) / 3)
unfolding encode_groups sextets
length-encode_groups [] = refl
length-encode_groups (a ∷ []) = refl
length-encode_groups (a ∷ (b ∷ [])) = refl
length-encode_groups (a ∷ (b ∷ (c ∷ s))) = omega (arith, length-encode_groups s)

char_table : every_below 64 (λ i. is_base64 (char_at i) || char_at i == 61) ≡ true
unfolding every_below char_at is_base64
char_table = refl

chars_of-IsBase64 : (is : List ℕ) → All (λ i. i < 64) is → All IsBase64 (chars_of is)
chars_of-IsBase64 [] h = tt
chars_of-IsBase64 (i ∷ is) h = (entry_below 64 _ i char_table h.0, chars_of-IsBase64 is h.1)

sextets_small : (a b c : ℕ) → a < 256 → b < 256 → c < 256 → All (λ i. i < 64) (sextets a b c)
sextets_small a b c ha hb hc =
    rw (sextets_lem a b c ha hb hc) (omega arith, (omega arith, (omega arith, (omega arith, tt))))

group-IsBase64 :
    (n a b c : ℕ) (s : Bytes)
    → a < 256
    → b < 256
    → c < 256
    → All IsBase64 s
    → All IsBase64 (chars_of (take n (sextets a b c)) ++ s)
group-IsBase64 n a b c s ha hb hc h =
    All-append IsBase64 (chars_of (take n (sextets a b c))) s
      (chars_of-IsBase64 (take n (sextets a b c))
        (All-take (λ i. i < 64) n (sextets a b c) (sextets_small a b c ha hb hc)))
      h

whole_group-IsBase64 :
    (a b c : ℕ) (s : Bytes)
    → a < 256
    → b < 256
    → c < 256
    → All IsBase64 s
    → All IsBase64 (chars_of (sextets a b c) ++ s)
unfolding sextets
whole_group-IsBase64 a b c s = group-IsBase64 4 a b c s

-- The loop of `Base64Encode` of bytes writes characters of its alphabet and fillers alone.
encode_groups-IsBase64 : (s : Bytes) → All IsByte s → All IsBase64 (encode_groups s)
unfolding encode_groups is_base64
encode_groups-IsBase64 [] h = tt
encode_groups-IsBase64 (a ∷ []) h =
    group-IsBase64 2 a 0 0 (61 ∷ 61 ∷ []) h.0 (omega arith) (omega arith) (refl, (refl, tt))
encode_groups-IsBase64 (a ∷ (b ∷ [])) h =
    group-IsBase64 3 a b 0 (61 ∷ []) h.0 h.1.0 (omega arith) (refl, tt)
encode_groups-IsBase64 (a ∷ (b ∷ (c ∷ s))) h =
    whole_group-IsBase64 a b c (encode_groups s) h.0 h.1.0 h.1.1.0
      (encode_groups-IsBase64 s h.1.1.1)

-- A size that fits an `unsigned int` is the loop's.
pub base64_encode-encode_groups :
    (s : Bytes) → length s < 2 ^ 32 → base64_encode s ≡ encode_groups s
unfolding base64_encode
base64_encode-encode_groups s h = rw (take_all s (length s % 2 ^ 32) (omega arith)) refl

-- Of fewer than 2^32 bytes `Base64Encode` writes four characters for every three of them, the last
-- group filled up.
pub length-base64_encode :
    (s : Bytes) → length s < 2 ^ 32 → length (base64_encode s) ≡ 4 * ((length s + 2) / 3)
length-base64_encode s h = rw (base64_encode-encode_groups s h) (length-encode_groups s)

-- `Base64Encode` of bytes writes characters of its alphabet and fillers alone.
pub base64_encode-IsBase64 : (s : Bytes) → All IsByte s → All IsBase64 (base64_encode s)
unfolding base64_encode
base64_encode-IsBase64 s h = encode_groups-IsBase64 _ (All-take IsByte (length s % 2 ^ 32) s h)
