-- ===== src/Base/StringMap/Same.antt =====
-- Maps that find the same values are the same.
use woody.Shared.{◌≡◌, refl, sym, ◌∙◌, true, false, none, some, [], ◌∷◌, Bool-cases, inl, inr}
use mathlib.Core.Path.{subst}
use woody.Shared.Text.{bytes_eq, bytes_lt, bytes_eq→eq, bytes_eq_refl, bytes_lt_total}
use woody.Base.StringMap.{Bytes, StringMap, find}
use woody.Base.StringMap.Laws.{IsBefore, IsOrdered, IsBefore-trans, find_before, eq_sym}

find_first : (k v : Bytes) (m : StringMap) → find k ((k, v) ∷ m) ≡ some v
unfolding find
find_first k v m = rw (bytes_eq_refl k) refl

find_later : (i k v : Bytes) (m : StringMap) → bytes_eq k i ≡ false → find i ((k, v) ∷ m) ≡ find i m
unfolding find
find_later i k v m e = rw e refl

nothing : (k : Bytes) → find k [] ≡ none
unfolding find
nothing k = refl

-- A key in front of a map is found in no such map.
not_behind :
    (j w k v : Bytes) (m m' : StringMap)
    → bytes_lt j k ≡ true
    → IsBefore k m'
    → find j ((j, w) ∷ m) ≡ find j ((k, v) ∷ m')
    → ⊥
not_behind j w k v m m' l o e =
    cc (find_first j w m, e, find_before j ((k, v) ∷ m') (l, IsBefore-trans j k m' l o))

same_tails :
    (j w v : Bytes) (m m' : StringMap)
    → IsBefore j m
    → IsBefore j m'
    → ((i : Bytes) → find i ((j, w) ∷ m) ≡ find i ((j, v) ∷ m'))
    → (i : Bytes) → find i m ≡ find i m'
same_tails j w v m m' o o' h i = elim (Bool-cases (bytes_eq j i)) [
  | inl e ↦
      subst (λ (k : Bytes). find k m ≡ find k m') (bytes_eq→eq j i e)
        (find_before j m o ∙ sym (find_before j m' o'))
  | inr e ↦ sym (find_later i j w m e) ∙ h i ∙ find_later i j v m' e
]

-- Two maps in the order of their keys that find the same value under every name are the same.
pub find-determines :
    (m m' : StringMap) → IsOrdered m → IsOrdered m' → ((i : Bytes) → find i m ≡ find i m') → m ≡ m'
find-determines [] [] o o' h = refl
find-determines [] ((k, v) ∷ m') o o' h = absurd (cc (h k, find_first k v m', nothing k))
find-determines ((j, w) ∷ m) [] o o' h = absurd (cc (h j, find_first j w m, nothing j))
find-determines ((j, w) ∷ m) ((k, v) ∷ m') o o' h = elim (Bool-cases (bytes_eq j k)) [
  | inl e ↦
      let same : j ≡ k = bytes_eq→eq j k e in
      let h' =
        subst (λ (i : Bytes). (n : Bytes) → find n ((j, w) ∷ m) ≡ find n ((i, v) ∷ m')) (sym same)
          h in
      let value : w ≡ v = cc (find_first j w m, h' j, find_first j v m') in
      let before : IsBefore j m' = subst (λ (i : Bytes). IsBefore i m') (sym same) o'.0 in
      let tails = find-determines m m' o.1 o'.1 (same_tails j w v m m' o.0 before h') in
      cc (same, value, tails)
  | inr e ↦ elim (Bool-cases (bytes_lt j k)) [
    | inl l ↦ absurd (not_behind j w k v m m' l o'.0 (h j))
    | inr l ↦ absurd (not_behind k v j w m' m (bytes_lt_total k j (eq_sym j k e) l) o.0 (sym (h k)))
  ]
]
