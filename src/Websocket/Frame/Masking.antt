-- ===== src/Websocket/Frame/Masking.antt =====
-- What masking does to a payload.
use woody.Shared.{
  ℕ, zero, suc, ◌+◌, ◌%◌, ◌^◌, ◌<◌, ◌≡◌, refl, List, [], ◌∷◌, length, get_or, All, bit_xor, arith,
  ◌-◌, ◌/◌, ◌∙◌,
}
use native.Mathlib.Nat.{add-zero, zero-add}
use woody.Shared.Bits.{bit_xor-lt, bit_xor_undo}
use woody.Base.Endian.{IsByte, get_or-IsByte, big_endian-IsByte, host_to_network32}
use woody.Websocket.Frame.{mask_loop, mask, un_mask}

mask_loop_undo :
    (keys : List ℕ) (i : ℕ) (bs : List ℕ)
    → All IsByte keys
    → All IsByte bs
    → mask_loop keys i (mask_loop keys i bs) ≡ bs
unfolding mask_loop
mask_loop_undo keys i [] hk h = refl
mask_loop_undo keys i (b ∷ bs) hk h = cc (
  bit_xor_undo b (get_or keys (i % 4) 0) h.0 (get_or-IsByte keys (i % 4) hk),
  mask_loop_undo keys (i + 1) bs hk h.1,
)

mask_loop-IsByte :
    (keys : List ℕ) (i : ℕ) (bs : List ℕ)
    → All IsByte keys
    → All IsByte bs
    → All IsByte (mask_loop keys i bs)
unfolding mask_loop
mask_loop-IsByte keys i [] hk h = tt
mask_loop-IsByte keys i (b ∷ bs) hk h = (
  bit_xor-lt b (get_or keys (i % 4) 0) h.0 (get_or-IsByte keys (i % 4) hk),
  mask_loop-IsByte keys (i + 1) bs hk h.1,
)

keys-IsByte : (key : ℕ) → All IsByte (host_to_network32 key)
unfolding host_to_network32
keys-IsByte key = big_endian-IsByte 4 key

length-mask_loop : (keys : List ℕ) (i : ℕ) (bs : List ℕ) → length (mask_loop keys i bs) ≡ length bs
unfolding mask_loop
length-mask_loop keys i [] = refl
length-mask_loop keys i (b ∷ bs) = omega (arith, length-mask_loop keys (i + 1) bs)

-- Masking keeps the length of a payload, and its bytes stay bytes.
pub length-mask : (bytes : List ℕ) (key : ℕ) → length (mask bytes key) ≡ length bytes
unfolding mask
length-mask bytes key = length-mask_loop _ 0 bytes

pub mask-IsByte : (bytes : List ℕ) (key : ℕ) → All IsByte bytes → All IsByte (mask bytes key)
unfolding mask
mask-IsByte bytes key h = mask_loop-IsByte _ 0 bytes (keys-IsByte key) h

-- `UnMask` of the bytes that `Mask` makes of a payload of bytes, with the same key, is the
-- payload, whatever the key.
pub un_mask-mask :
    (bytes : List ℕ) (key : ℕ) → All IsByte bytes → un_mask (mask bytes key) key ≡ bytes
unfolding un_mask mask
un_mask-mask bytes key h = mask_loop_undo _ 0 bytes (keys-IsByte key) h

key_byte : (key j : ℕ) → j < 4 → get_or (host_to_network32 key) j 0 ≡ key / 256 ^ (3 - j) % 256
unfolding host_to_network32
key_byte key zero h = refl
key_byte key (suc zero) h = refl
key_byte key (suc (suc zero)) h = refl
key_byte key (suc (suc (suc zero))) h = refl
key_byte key (suc (suc (suc (suc j)))) h = absurd (omega arith)

get_or-mask_loop :
    (keys : List ℕ) (i : ℕ) (bs : List ℕ) (j : ℕ)
    → j < length bs
    → get_or (mask_loop keys i bs) j 0 ≡ bit_xor (get_or bs j 0) (get_or keys ((i + j) % 4) 0)
unfolding mask_loop
get_or-mask_loop keys i [] j h = absurd (omega arith)
get_or-mask_loop keys i (b ∷ bs) zero h = rw add-zero refl
get_or-mask_loop keys i (b ∷ bs) (suc j) h =
    let e : i + 1 + j ≡ i + suc j = omega arith in
    rw (← e) (get_or-mask_loop keys (i + 1) bs j (omega arith))

-- The masked byte at `j` is the payload's byte at `j`, exclusive-or the byte of the key at `j` mod
-- 4, counted from the key's most significant byte.
pub get_or-mask :
    (bytes : List ℕ) (key j : ℕ)
    → j < length bytes
    → get_or (mask bytes key) j 0 ≡ bit_xor (get_or bytes j 0) (key / 256 ^ (3 - j % 4) % 256)
unfolding mask
get_or-mask bytes key j h =
    get_or-mask_loop (host_to_network32 key) 0 bytes j h
    ∙ rw (zero-add, key_byte key (j % 4) (omega arith)) refl
