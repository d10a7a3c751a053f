-- ===== src/Base/Endian.antt =====
-- woody/base/endian_util.h. A value in network order is the list of its bytes in memory; a read
-- through a pointer takes the first bytes of the list that the pointer stands at. `htobe64` and
-- its kin are the C library's: in memory their result is big-endian on every host.
use native.Mathlib.Nat.{pow-suc, one-le-pow}
use woody.Shared.{
  get_or, drop, ap, ℕ, zero, suc, ◌+◌, ◌*◌, ◌/◌, ◌%◌, ◌^◌, ◌<◌, ◌≡◌, refl, List, [], ◌∷◌, ◌++◌,
  length, take, All, arith,
}

-- The low `w` bytes of `x`, the most significant first.
unfoldable pub big_endian : ℕ → ℕ → List ℕ
big_endian zero x = []
big_endian (suc w) x = (x / 256 ^ w % 256) ∷ big_endian w x

-- The number that bytes in this order stand for.
unfoldable pub from_big_endian : ℕ → List ℕ → ℕ
from_big_endian acc [] = acc
from_big_endian acc (b ∷ bs) = from_big_endian (acc * 256 + b) bs

unfoldable pub host_to_network64 : ℕ → List ℕ
unfolding big_endian
host_to_network64 host64 = big_endian 8 host64

unfoldable pub host_to_network32 : ℕ → List ℕ
unfolding big_endian
host_to_network32 host32 = big_endian 4 host32

unfoldable pub host_to_network16 : ℕ → List ℕ
unfolding big_endian
host_to_network16 host16 = big_endian 2 host16

unfoldable pub network_to_host_int64 : List ℕ → ℕ
unfolding from_big_endian
network_to_host_int64 bytes = from_big_endian 0 (take 8 bytes)

unfoldable pub network_to_host_int32 : List ℕ → ℕ
unfolding from_big_endian
network_to_host_int32 bytes = from_big_endian 0 (take 4 bytes)

unfoldable pub network_to_host_int16 : List ℕ → ℕ
unfolding from_big_endian
network_to_host_int16 bytes = from_big_endian 0 (take 2 bytes)

pub length-big_endian : (w x : ℕ) → length (big_endian w x) ≡ w
unfolding big_endian
length-big_endian zero x = refl
length-big_endian (suc w) x = omega (arith, length-big_endian w x)

abbrev pub IsByte : ℕ → Type 0
IsByte b = b < 256

pub big_endian-IsByte : (w x : ℕ) → All IsByte (big_endian w x)
unfolding big_endian
big_endian-IsByte zero x = tt
big_endian-IsByte (suc w) x = (omega arith, big_endian-IsByte w x)

pub int64_of_network :
    (x : ℕ) (rest : List ℕ) → x < 2 ^ 64 → network_to_host_int64 (host_to_network64 x ++ rest) ≡ x
unfolding network_to_host_int64 host_to_network64
int64_of_network x rest h = omega arith

pub int32_of_network :
    (x : ℕ) (rest : List ℕ) → x < 2 ^ 32 → network_to_host_int32 (host_to_network32 x ++ rest) ≡ x
unfolding network_to_host_int32 host_to_network32
int32_of_network x rest h = omega arith

pub int16_of_network :
    (x : ℕ) (rest : List ℕ) → x < 2 ^ 16 → network_to_host_int16 (host_to_network16 x ++ rest) ≡ x
unfolding network_to_host_int16 host_to_network16
int16_of_network x rest h = omega arith

from_big_endian-lt :
    (n b acc : ℕ) (bs : List ℕ)
    → All IsByte bs
    → acc < b
    → from_big_endian acc (take n bs) < b * 256 ^ n
unfolding from_big_endian
from_big_endian-lt zero b acc bs h lt = omega arith
from_big_endian-lt (suc n) b acc [] h lt = grind (arith, one-le-pow (suc n) 256)
from_big_endian-lt (suc n) b acc (x ∷ bs) h lt = omega (
  arith,
  from_big_endian-lt n (b * 256) (acc * 256 + x) bs h.1 (omega (arith, h.0)),
  ap (λ (t : ℕ). b * t) (pow-suc 256 n),
)

-- A value read from the network fits its type.
pub network_to_host_int64-lt : (bs : List ℕ) → All IsByte bs → network_to_host_int64 bs < 2 ^ 64
unfolding network_to_host_int64
network_to_host_int64-lt bs h = from_big_endian-lt 8 1 0 bs h (omega arith)

pub network_to_host_int32-lt : (bs : List ℕ) → All IsByte bs → network_to_host_int32 bs < 2 ^ 32
unfolding network_to_host_int32
network_to_host_int32-lt bs h = from_big_endian-lt 4 1 0 bs h (omega arith)

pub network_to_host_int16-lt : (bs : List ℕ) → All IsByte bs → network_to_host_int16 bs < 2 ^ 16
unfolding network_to_host_int16
network_to_host_int16-lt bs h = from_big_endian-lt 2 1 0 bs h (omega arith)

pub All-drop : (n : ℕ) (bs : List ℕ) → All IsByte bs → All IsByte (drop n bs)
All-drop zero bs h = h
All-drop (suc n) [] h = tt
All-drop (suc n) (x ∷ bs) h = All-drop n bs h.1

pub get_or-IsByte : (bs : List ℕ) (i : ℕ) → All IsByte bs → get_or bs i 0 < 256
get_or-IsByte [] i h = omega arith
get_or-IsByte (b ∷ bs) zero h = h.0
get_or-IsByte (b ∷ bs) (suc i) h = get_or-IsByte bs i h.1
