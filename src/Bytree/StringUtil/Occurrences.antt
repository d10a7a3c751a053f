-- ===== src/Bytree/StringUtil/Occurrences.antt =====
-- Where `IsStringBeginWith` and `IsStringEndWith` hold.
use woody.Shared.{
  ℕ, suc, ◌+◌, ◌-◌, ◌%◌, ◌^◌, ◌≤◌, ◌<◌, ◌≡◌, ◌↔◌, refl, sym, ap, ◌∙◌, true, [], ◌∷◌, ◌++◌, length,
  length-append, ◌==◌, arith, Bool-cases, inl, inr, ==_iff, append-nil, ap₂, ◌⊎◌,
}
use woody.Base.StringMap.{Bytes}
use woody.Bytree.StringUtil.{is_prefix, npos, find_from, is_string_begin_with, is_string_end_with}

is_prefix_append : (p t : Bytes) → is_prefix p (p ++ t) ≡ true
unfolding is_prefix
is_prefix_append [] t = refl
is_prefix_append (a ∷ p) t = ground (arith, is_prefix_append p t)

is_prefix→append : (p s : Bytes) → is_prefix p s ≡ true → (t : Bytes) × (s ≡ p ++ t)
unfolding is_prefix
is_prefix→append [] s h = (s, refl)
is_prefix→append (a ∷ p) [] h = absurd (ground arith)
is_prefix→append (a ∷ p) (b ∷ s) h =
    let same : a ≡ b = ground arith in
    let (t, e) = is_prefix→append p s (ground arith) in
    (t, ap₂ (λ (x : ℕ) (xs : Bytes). x ∷ xs) (sym same) e)

-- A place that `find` gives is not before where it began, and is not behind the last place where
-- the pattern fits; the pattern stands there.
find_from-cases :
    (i : ℕ) (s p : Bytes)
    → (find_from i s p ≡ npos)
      ⊎ ((a : Bytes) × (b : Bytes) × (s ≡ a ++ (p ++ b)) × (find_from i s p ≡ i + length a))
unfolding find_from
find_from-cases i [] p = elim (Bool-cases (is_prefix p [])) [
  | inl e ↦ let (t, q) = is_prefix→append p [] e in inr ([], t, q, rw e (omega arith))
  | inr e ↦ inl (rw e refl)
]
find_from-cases i (c ∷ s) p = elim (Bool-cases (is_prefix p (c ∷ s))) [
  | inl e ↦ let (t, q) = is_prefix→append p (c ∷ s) e in inr ([], t, q, rw e (omega arith))
  | inr e ↦ elim (find_from-cases (suc i) s p) [
    | inl n ↦ inl (rw e n)
    | inr (a, b, q, n) ↦ inr (c ∷ a, b, ap (λ (xs : Bytes). c ∷ xs) q, rw e (n ∙ omega arith))
  ]
]

find_from_prefix : (i : ℕ) (s p : Bytes) → is_prefix p s ≡ true → find_from i s p ≡ i
unfolding find_from
find_from_prefix i [] p h = rw h refl
find_from_prefix i (c ∷ s) p h = rw h refl

empty_list : (a : Bytes) → length a ≡ 0 → a ≡ []
empty_list [] e = refl
empty_list (x ∷ a) e = absurd (omega arith)

begin→append : (s p : Bytes) → is_string_begin_with s p ≡ true → (t : Bytes) × (s ≡ p ++ t)
unfolding is_string_begin_with
begin→append s p h = elim (find_from-cases 0 s p) [
  | inl n ↦ absurd (omega (arith, (==_iff 0 (find_from 0 s p)).0 h, n))
  | inr (a, b, q, n) ↦
      let none_before : a ≡ [] =
        empty_list a (omega (arith, (==_iff 0 (find_from 0 s p)).0 h, n)) in
      (b, q ∙ ap (λ (xs : Bytes). xs ++ (p ++ b)) none_before)
]

append→begin : (s p t : Bytes) → s ≡ p ++ t → is_string_begin_with s p ≡ true
unfolding is_string_begin_with
append→begin s p t e =
    ap (λ (n : ℕ). 0 == n)
      (find_from_prefix 0 s p (ap (λ (xs : Bytes). is_prefix p xs) e ∙ is_prefix_append p t))

-- `IsStringBeginWith` holds exactly of a string that is the pattern with something behind it.
pub is_string_begin_with_iff :
    (s p : Bytes) → (is_string_begin_with s p ≡ true) ↔ ((t : Bytes) × (s ≡ p ++ t))
is_string_begin_with_iff s p = (begin→append s p, λ (t, e). append→begin s p t e)

-- Where `IsStringEndWith` holds of a string of fewer than 2^63 bytes that is no shorter than the
-- pattern, the string ends with the pattern.
pub is_string_end_with→append :
    (s p : Bytes)
    → length s < 2 ^ 63
    → length p ≤ length s
    → is_string_end_with s p ≡ true
    → (t : Bytes) × (s ≡ t ++ p)
unfolding is_string_end_with
is_string_end_with→append s p small le h =
    let at : find_from 0 s p ≡ (2 ^ 64 + length s - length p) % 2 ^ 64 =
      (==_iff (find_from 0 s p) ((2 ^ 64 + length s - length p) % 2 ^ 64)).0 h in
    elim (find_from-cases 0 s p) [
      | inl n ↦ absurd (omega (arith, at, n))
      | inr (a, b, q, n) ↦
          let size = ap (λ (xs : Bytes). length xs) q in
          let end : b ≡ [] =
            empty_list b
              (omega (arith, at, n, size, length-append a (p ++ b), length-append p b)) in
          (a, q ∙ ap (λ (xs : Bytes). a ++ xs) (ap (λ (xs : Bytes). p ++ xs) end ∙ append-nil p))
    ]

-- `IsStringEndWith` holds of any string of fewer than 2^63 bytes and every pattern that is one
-- byte longer: the difference of the sizes wraps around to `npos`.
pub is_string_end_with_longer :
    (s p : Bytes) → length s < 2 ^ 63 → length p ≡ length s + 1 → is_string_end_with s p ≡ true
unfolding is_string_end_with
is_string_end_with_longer s p small e =
    (==_iff (find_from 0 s p) ((2 ^ 64 + length s - length p) % 2 ^ 64)).1
      (elim (find_from-cases 0 s p) [
        | inl n ↦ n ∙ omega arith
        | inr (a, b, q, n) ↦ absurd (
            omega (
              arith,
              e,
              ap (λ (xs : Bytes). length xs) q,
              length-append a (p ++ b),
              length-append p b,
            ))
      ])
