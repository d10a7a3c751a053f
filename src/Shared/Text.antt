-- ===== src/Shared/Text.antt =====
-- Byte strings: literals, equality and the order of `std::string`.
use Prim.Native.Char.{code}
use Prim.Native.Nat.{ℕ}
use Prim.Native.String.{String}
use mathlib.Core.Path.{◌≡◌, refl}
use mathlib.Core.Logic.{◌↔◌}
use mathlib.Core.Bool.{Bool, true, false, ◌&&◌, ◌||◌}
use mathlib.Core.List.{List, [], ◌∷◌}
use native.Mathlib.Omega.{arith}
use woody.Shared.Tests.{ltb, ◌==◌}

-- The bytes of an ASCII literal.
abbrev pub codes : String → List ℕ
codes String.[] = []
codes (String.◌∷◌ c s) = code c ∷ codes s

unfoldable pub bytes_eq : List ℕ → List ℕ → Bool
bytes_eq [] [] = true
bytes_eq [] (b ∷ bs) = false
bytes_eq (a ∷ as') [] = false
bytes_eq (a ∷ as') (b ∷ bs) = a == b && bytes_eq as' bs

pub bytes_eq→eq : (s t : List ℕ) → bytes_eq s t ≡ true → s ≡ t
unfolding bytes_eq
bytes_eq→eq [] [] h = refl
bytes_eq→eq [] (b ∷ bs) h = ground arith
bytes_eq→eq (a ∷ s) [] h = ground arith
bytes_eq→eq (a ∷ s) (b ∷ t) h = ground (arith, bytes_eq→eq s t)

pub bytes_eq_refl : (s : List ℕ) → bytes_eq s s ≡ true
unfolding bytes_eq
bytes_eq_refl [] = refl
bytes_eq_refl (a ∷ s) = ground (arith, bytes_eq_refl s)

pub bytes_eq_iff : (s t : List ℕ) → (bytes_eq s t ≡ true) ↔ (s ≡ t)
bytes_eq_iff s t = (bytes_eq→eq s t, λ e. cc (bytes_eq_refl s))

-- `std::less<std::string>`: the lexicographic order of the bytes as unsigned chars.
unfoldable pub bytes_lt : List ℕ → List ℕ → Bool
bytes_lt s [] = false
bytes_lt [] (b ∷ bs) = true
bytes_lt (a ∷ s) (b ∷ t) = ltb a b || (a == b && bytes_lt s t)

pub bytes_lt_irrefl : (s : List ℕ) → bytes_lt s s ≡ false
unfolding bytes_lt
bytes_lt_irrefl [] = refl
bytes_lt_irrefl (a ∷ s) = ground (arith, bytes_lt_irrefl s)

pub bytes_lt_trans :
    (s t u : List ℕ) → bytes_lt s t ≡ true → bytes_lt t u ≡ true → bytes_lt s u ≡ true
unfolding bytes_lt
bytes_lt_trans [] [] u h k = ground arith
bytes_lt_trans (a ∷ s) [] u h k = ground arith
bytes_lt_trans s (b ∷ t) [] h k = ground arith
bytes_lt_trans [] (b ∷ t) (c ∷ u) h k = refl
bytes_lt_trans (a ∷ s) (b ∷ t) (c ∷ u) h k = ground (arith, bytes_lt_trans s t u)

-- Of two strings that differ one is before the other.
pub bytes_lt_total :
    (s t : List ℕ) → bytes_eq s t ≡ false → bytes_lt t s ≡ false → bytes_lt s t ≡ true
unfolding bytes_lt bytes_eq
bytes_lt_total [] [] h k = ground arith
bytes_lt_total [] (b ∷ t) h k = refl
bytes_lt_total (a ∷ s) [] h k = ground arith
bytes_lt_total (a ∷ s) (b ∷ t) h k = ground (arith, bytes_lt_total s t)
