-- ===== src/Bytree/Base64/RoundTrip.antt =====
-- lib/bytree/ssl_util.hpp: `Base64Decode` on what `Base64Encode` writes.
use woody.Shared.{
  lt→ltb, ℕ, ◌%◌, ◌^◌, ◌≤◌, length, take_all, ◌<◌, ◌≡◌, refl, ap, ◌∙◌, Bool, true, ◌&&◌, not, List,
  [], ◌∷◌, ◌++◌, take, All, ◌==◌, ==_iff, arith,
}
use woody.Shared.Bits.{every_below, entry_below}
use woody.Base.Endian.{IsByte}
use woody.Base.StringMap.{Bytes}
use woody.Bytree.Base64.{
  is_base64, sextets, char_at, chars_of, base64_encode, encode_groups, int_limit, index_from,
  index_of, octets, taken, decode_groups, base64_decode,
}
use woody.Bytree.Base64.Size.{base64_encode-encode_groups, length-base64_encode}
use woody.Bytree.Base64.Sextets.{
  n0, n1, n2, n3, sextets_lem, first_octet, second_octet, third_octet,
}

abbrev decode_all : Bytes → Bytes
decode_all s = decode_groups (taken s)

abbrev goes_on : ℕ → Bool
goes_on c = not (c == 61) && is_base64 c

index_table : every_below 64 (λ i. index_of (char_at i) == i) ≡ true
unfolding every_below index_of index_from char_at
index_table = refl

index_of-char_at : (i : ℕ) → i < 64 → index_of (char_at i) ≡ i
index_of-char_at i h = (==_iff _ _).0 (entry_below 64 _ i index_table h)

alphabet_table : every_below 64 (λ i. goes_on (char_at i)) ≡ true
unfolding every_below char_at is_base64
alphabet_table = refl

goes_on-char_at : (i : ℕ) → i < 64 → goes_on (char_at i) ≡ true
goes_on-char_at i h = entry_below 64 _ i alphabet_table h

octets_lem :
    (a b c : ℕ)
    → a < 256
    → b < 256
    → c < 256
    → octets
        (index_of (char_at (n0 a)))
        (index_of (char_at (n1 a b)))
        (index_of (char_at (n2 b c)))
        (index_of (char_at (n3 c)))
      ≡ a ∷ b ∷ c ∷ []
unfolding octets
octets_lem a b c ha hb hc =
    rw
      (
        index_of-char_at (n0 a) (omega arith),
        index_of-char_at (n1 a b) (omega arith),
        index_of-char_at (n2 b c) (omega arith),
        index_of-char_at (n3 c) (omega arith),
      )
      (cc (first_octet a b ha hb, second_octet a b c ha hb hc, third_octet b c hb hc))

taken_char : (i : ℕ) (s : Bytes) → i < 64 → taken (char_at i ∷ s) ≡ char_at i ∷ taken s
unfolding taken
taken_char i s h = rw (goes_on-char_at i h) refl

taken_padding : (s : Bytes) → taken (61 ∷ s) ≡ []
unfolding taken
taken_padding s = refl

-- One whole group in front of more characters.
decode_group :
    (a b c : ℕ) (s : Bytes)
    → a < 256
    → b < 256
    → c < 256
    → decode_all (chars_of (sextets a b c) ++ s) ≡ a ∷ b ∷ c ∷ decode_all s
decode_group a b c s ha hb hc =
    ap (λ (is : List ℕ). decode_groups (taken (chars_of is ++ s))) (sextets_lem a b c ha hb hc)
    ∙ ap decode_groups (
        taken_char (n0 a) _ (omega arith)
        ∙ ap (λ (t : Bytes). char_at (n0 a) ∷ t)
            (taken_char (n1 a b) _ (omega arith)
              ∙ ap (λ (t : Bytes). char_at (n1 a b) ∷ t)
                  (taken_char (n2 b c) _ (omega arith)
                    ∙ ap (λ (t : Bytes). char_at (n2 b c) ∷ t)
                        (taken_char (n3 c) s (omega arith)))))
    ∙ unfold decode_groups in
      ap (λ (o : Bytes). o ++ decode_groups (taken s)) (octets_lem a b c ha hb hc)

-- The last group, of one byte or two.
last_one : (a : ℕ) → a < 256 → decode_groups (char_at (n0 a) ∷ char_at (n1 a 0) ∷ []) ≡ a ∷ []
unfolding decode_groups octets
last_one a ha =
    rw (index_of-char_at (n0 a) (omega arith), index_of-char_at (n1 a 0) (omega arith))
      (cc (first_octet a 0 ha (omega arith)))

last_two :
    (a b : ℕ)
    → a < 256
    → b < 256
    → decode_groups (char_at (n0 a) ∷ char_at (n1 a b) ∷ char_at (n2 b 0) ∷ []) ≡ a ∷ b ∷ []
unfolding decode_groups octets
last_two a b ha hb =
    rw
      (
        index_of-char_at (n0 a) (omega arith),
        index_of-char_at (n1 a b) (omega arith),
        index_of-char_at (n2 b 0) (omega arith),
      )
      (cc (first_octet a b ha hb, second_octet a b 0 ha hb (omega arith)))

decode_one : (a : ℕ) → a < 256 → decode_all (encode_groups (a ∷ [])) ≡ a ∷ []
unfolding encode_groups
decode_one a ha =
    ap (λ (is : List ℕ). decode_groups (taken (chars_of (take 2 is) ++ (61 ∷ 61 ∷ []))))
      (sextets_lem a 0 0 ha (omega arith) (omega arith))
    ∙ ap decode_groups (
        taken_char (n0 a) _ (omega arith)
        ∙ ap (λ (t : Bytes). char_at (n0 a) ∷ t)
            (taken_char (n1 a 0) _ (omega arith)
              ∙ ap (λ (t : Bytes). char_at (n1 a 0) ∷ t) (taken_padding (61 ∷ []))))
    ∙ last_one a ha

decode_two : (a b : ℕ) → a < 256 → b < 256 → decode_all (encode_groups (a ∷ b ∷ [])) ≡ a ∷ b ∷ []
unfolding encode_groups
decode_two a b ha hb =
    ap (λ (is : List ℕ). decode_groups (taken (chars_of (take 3 is) ++ (61 ∷ []))))
      (sextets_lem a b 0 ha hb (omega arith))
    ∙ ap decode_groups (
        taken_char (n0 a) _ (omega arith)
        ∙ ap (λ (t : Bytes). char_at (n0 a) ∷ t)
            (taken_char (n1 a b) _ (omega arith)
              ∙ ap (λ (t : Bytes). char_at (n1 a b) ∷ t)
                  (taken_char (n2 b 0) _ (omega arith)
                    ∙ ap (λ (t : Bytes). char_at (n2 b 0) ∷ t) (taken_padding []))))
    ∙ last_two a b ha hb

decode_all-encode_groups :
    (bytes : Bytes) → All IsByte bytes → decode_all (encode_groups bytes) ≡ bytes
unfolding encode_groups
decode_all-encode_groups [] h = unfold decode_groups taken in refl
decode_all-encode_groups (a ∷ []) h = decode_one a h.0
decode_all-encode_groups (a ∷ (b ∷ [])) h = decode_two a b h.0 h.1.0
decode_all-encode_groups (a ∷ (b ∷ (c ∷ s))) h =
    decode_group a b c (encode_groups s) h.0 h.1.0 h.1.1.0
    ∙ ap (λ (t : Bytes). a ∷ b ∷ c ∷ t) (decode_all-encode_groups s h.1.1.1)

-- `Base64Decode` of what `Base64Encode` makes of at most 1610612733 bytes, whatever they are, is
-- these bytes.
pub base64_decode-base64_encode :
    (bytes : Bytes)
    → All IsByte bytes
    → length bytes ≤ 1610612733
    → base64_decode (base64_encode bytes) ≡ bytes
unfolding base64_decode int_limit
base64_decode-base64_encode bytes h small =
    let size = length-base64_encode bytes (omega arith) in
    rw
      (
        lt→ltb (length (base64_encode bytes) % 2 ^ 32) (2 ^ 31) (omega (arith, size)),
        take_all (base64_encode bytes) (length (base64_encode bytes) % 2 ^ 32)
            (omega (arith, size)),
        base64_encode-encode_groups bytes (omega arith),
      )
      (decode_all-encode_groups bytes h)
