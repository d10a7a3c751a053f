-- ===== src/Bytree/StringUtil.antt =====
-- lib/bytree/string_util.hpp. `std::string::find` gives the first place where the pattern occurs,
-- or `npos`, the largest `size_t`.
pub mod Occurrences
pub mod Trims
use woody.Shared.{
  ℕ, zero, suc, ◌+◌, ◌-◌, ◌%◌, ◌^◌, Bool, true, false, ◌&&◌, not, Option, none, some, List, [], ◌∷◌,
  length, ◌==◌, if◌then◌else◌,
}
use woody.Base.StringMap.{Bytes}

unfoldable pub is_prefix : Bytes → Bytes → Bool
is_prefix [] s = true
is_prefix (a ∷ p) [] = false
is_prefix (a ∷ p) (b ∷ s) = a == b && is_prefix p s

abbrev pub npos : ℕ
npos = 2 ^ 64 - 1

-- The first place of `p`, counted from `i`.
unfoldable pub find_from : ℕ → Bytes → Bytes → ℕ
find_from i [] p = if is_prefix p [] then i else npos
find_from i (c ∷ s) p =
    let later = find_from (suc i) s p in if is_prefix p (c ∷ s) then i else later

unfoldable pub is_string_begin_with : Bytes → Bytes → Bool
is_string_begin_with s p = 0 == find_from 0 s p

-- The subtraction is that of `size_t`.
unfoldable pub is_string_end_with : Bytes → Bytes → Bool
is_string_end_with s p = find_from 0 s p == (2 ^ 64 + length s - length p) % 2 ^ 64

-- The character class that a trim removes is a parameter: `isspace`, or the equality with `x`.
unfoldable pub trim_left : (ℕ → Bool) → Bytes → Bytes
trim_left drops [] = []
trim_left drops (c ∷ s) = let rest = trim_left drops s in if drops c then rest else c ∷ s

unfoldable pub trim_right : (ℕ → Bool) → Bytes → Bytes
trim_right drops [] = []
trim_right drops (c ∷ s) =
    let rest = trim_right drops s in if drops c && length rest == 0 then [] else c ∷ rest

unfoldable pub trim : (ℕ → Bool) → Bytes → Bytes
trim drops s = trim_left drops (trim_right drops s)

-- The trims of one character.
unfoldable pub trim_left_char : Bytes → ℕ → Bytes
trim_left_char s x = trim_left (λ c. c == x) s

unfoldable pub trim_right_char : Bytes → ℕ → Bytes
trim_right_char s x = trim_right (λ c. c == x) s

unfoldable pub trim_char : Bytes → ℕ → Bytes
trim_char s x = trim_left_char (trim_right_char s x) x
