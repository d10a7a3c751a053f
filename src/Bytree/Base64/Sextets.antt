-- ===== src/Bytree/Base64/Sextets.antt =====
-- lib/bytree/ssl_util.hpp: the bit masks of `Base64Encode` and `Base64Decode`, as arithmetic.
use woody.Shared.{ℕ, ◌+◌, ◌*◌, ◌/◌, ◌%◌, ◌<◌, ◌≡◌, refl, true, ◌&&◌, [], ◌∷◌, ◌==◌, bit_and, arith}
use woody.Shared.Bits.{every_below, entry_below}
use woody.Bytree.Base64.{sextets}

mask_table :
    every_below 256 (λ x.
      ((bit_and x 0xfc / 4 == x / 4) && (bit_and x 0x03 == x % 4))
      && (((bit_and x 0xf0 / 16 == x / 16) && (bit_and x 0x0f == x % 16))
          && ((bit_and x 0xc0 / 64 == x / 64) && (bit_and x 0x3f == x % 64))))
    ≡ true
unfolding every_below
mask_table = refl

-- The masks of the encoder, on a byte.
record Masks (x : ℕ) : Type 0 where
  high_six : bit_and x 0xfc / 4 ≡ x / 4
  low_two : bit_and x 0x03 ≡ x % 4
  high_four : bit_and x 0xf0 / 16 ≡ x / 16
  low_four : bit_and x 0x0f ≡ x % 16
  high_two : bit_and x 0xc0 / 64 ≡ x / 64
  low_six : bit_and x 0x3f ≡ x % 64

masks : (x : ℕ) → x < 256 → Masks x
masks x h =
    let e = entry_below 256 _ x mask_table h in
    record {
      high_six = ground (arith, e);
      low_two = ground (arith, e);
      high_four = ground (arith, e);
      low_four = ground (arith, e);
      high_two = ground (arith, e);
      low_six = ground (arith, e);
    }

back_table :
    every_below 64 (λ x.
      ((bit_and x 0x30 / 16 == x / 16) && (bit_and x 0xf == x % 16))
      && ((bit_and x 0x3c / 4 == x / 4) && (bit_and x 0x3 == x % 4)))
    ≡ true
unfolding every_below
back_table = refl

-- The masks of the decoder, on six bits.
record Backs (x : ℕ) : Type 0 where
  high_two : bit_and x 0x30 / 16 ≡ x / 16
  low_four : bit_and x 0xf ≡ x % 16
  high_four : bit_and x 0x3c / 4 ≡ x / 4
  low_two : bit_and x 0x3 ≡ x % 4

backs : (x : ℕ) → x < 64 → Backs x
backs x h =
    let e = entry_below 64 _ x back_table h in
    record {
      high_two = ground (arith, e);
      low_four = ground (arith, e);
      high_four = ground (arith, e);
      low_two = ground (arith, e);
    }

-- The four numbers of three bytes, without masks.
abbrev pub n0 : ℕ → ℕ
n0 a = a / 4

abbrev pub n1 : ℕ → ℕ → ℕ
n1 a b = a % 4 * 16 + b / 16

abbrev pub n2 : ℕ → ℕ → ℕ
n2 b c = b % 16 * 4 + c / 64

abbrev pub n3 : ℕ → ℕ
n3 c = c % 64

pub sextets_lem :
    (a b c : ℕ) → a < 256 → b < 256 → c < 256 → sextets a b c ≡ n0 a ∷ n1 a b ∷ n2 b c ∷ n3 c ∷ []
unfolding sextets
sextets_lem a b c ha hb hc =
    let ma = masks a ha in
    let mb = masks b hb in
    let mc = masks c hc in
    cc (ma.high_six, ma.low_two, mb.high_four, mb.low_four, mc.high_two, mc.low_six)

pub first_octet : (a b : ℕ) → a < 256 → b < 256 → (n0 a * 4 + bit_and (n1 a b) 0x30 / 16) % 256 ≡ a
first_octet a b ha hb = omega (arith, (backs (n1 a b) (omega arith)).high_two)

pub second_octet :
    (a b c : ℕ)
    → a < 256
    → b < 256
    → c < 256
    → (bit_and (n1 a b) 0xf * 16 + bit_and (n2 b c) 0x3c / 4) % 256 ≡ b
second_octet a b c ha hb hc =
    omega (arith, (backs (n1 a b) (omega arith)).low_four, (backs (n2 b c) (omega arith)).high_four)

pub third_octet : (b c : ℕ) → b < 256 → c < 256 → (bit_and (n2 b c) 0x3 * 64 + n3 c) % 256 ≡ c
third_octet b c hb hc = omega (arith, (backs (n2 b c) (omega arith)).low_two)
