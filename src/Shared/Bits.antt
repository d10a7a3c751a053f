-- ===== src/Shared/Bits.antt =====
-- Masks, fields and exclusive or of bytes. A fact about all bytes is a table, checked by
-- evaluation.
use Prim.Native.Nat.{ℕ, zero, suc, ◌%◌, ◌<◌, bit_and, bit_xor}
use mathlib.Core.Path.{◌≡◌, refl}
use mathlib.Core.Bool.{Bool, true, ◌&&◌}
use native.Mathlib.Omega.{arith}
use woody.Shared.Tests.{ltb, ◌==◌, ==_iff}

unfoldable pub every_below : ℕ → (ℕ → Bool) → Bool
every_below zero test = true
every_below (suc k) test = every_below k test && test k

pub entry_below :
    (k : ℕ) (test : ℕ → Bool) (i : ℕ) → every_below k test ≡ true → i < k → test i ≡ true
unfolding every_below
entry_below zero test i all less = absurd (omega arith)
entry_below (suc k) test i all less = ground (arith, entry_below k test i)

-- `b >> k & 1`, the low four bits and the low seven bits of a byte.
bit_one_table : every_below 256 (λ x. bit_and x 1 == x % 2) ≡ true
unfolding every_below
bit_one_table = refl

pub bit_and_one : (x : ℕ) → x < 256 → bit_and x 1 ≡ x % 2
bit_and_one x h = (==_iff _ _).0 (entry_below 256 _ x bit_one_table h)

low_four_table : every_below 256 (λ x. bit_and x 15 == x % 16) ≡ true
unfolding every_below
low_four_table = refl

pub bit_and_fifteen : (x : ℕ) → x < 256 → bit_and x 15 ≡ x % 16
bit_and_fifteen x h = (==_iff _ _).0 (entry_below 256 _ x low_four_table h)

low_seven_table : every_below 256 (λ x. bit_and x 127 == x % 128) ≡ true
unfolding every_below
low_seven_table = refl

pub bit_and_low_seven : (x : ℕ) → x < 256 → bit_and x 127 ≡ x % 128
bit_and_low_seven x h = (==_iff _ _).0 (entry_below 256 _ x low_seven_table h)

-- Two bytes exclusive-or to a byte, and a second exclusive or with the same key undoes the first.
xor_table :
    every_below 256
      (λ k. every_below 256 (λ x. ltb (bit_xor x k) 256 && bit_xor (bit_xor x k) k == x))
    ≡ true
unfolding every_below
xor_table = refl

xor_entry :
    (x k : ℕ) → x < 256 → k < 256 → (ltb (bit_xor x k) 256 && bit_xor (bit_xor x k) k == x) ≡ true
xor_entry x k hx hk =
    entry_below 256 (λ y. ltb (bit_xor y k) 256 && bit_xor (bit_xor y k) k == y) x
      (entry_below 256 _ k xor_table hk) hx

pub bit_xor-lt : (x k : ℕ) → x < 256 → k < 256 → bit_xor x k < 256
bit_xor-lt x k hx hk = ground (arith, xor_entry x k hx hk)

pub bit_xor_undo : (x k : ℕ) → x < 256 → k < 256 → bit_xor (bit_xor x k) k ≡ x
bit_xor_undo x k hx hk = ground (arith, xor_entry x k hx hk)
