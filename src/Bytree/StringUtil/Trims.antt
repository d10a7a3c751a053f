-- ===== src/Bytree/StringUtil/Trims.antt =====
-- lib/bytree/string_util.hpp: what `Trim` leaves.
use woody.Shared.{
  ◌≡◌, refl, ap, ◌∙◌, inl, inr, Bool, true, false, ◌&&◌, [], ◌∷◌, ◌++◌, append_assoc, length, All,
  arith, ◌==◌, Bool-cases, ℕ,
}
use woody.Base.StringMap.{Bytes}
use woody.Bytree.StringUtil.{
  trim_left, trim_right, trim, trim_left_char, trim_right_char, trim_char,
}

module _ (drops : ℕ → Bool) where
  abbrev pub IsDropped : ℕ → Type 0
  IsDropped c = drops c ≡ true

  -- Nothing is left to drop at the front, and at the back.
  abbrev pub KeepsFirst : Bytes → Type 0
  KeepsFirst [] = Unit
  KeepsFirst (c ∷ s) = drops c ≡ false

  abbrev pub KeepsLast : Bytes → Type 0
  KeepsLast [] = Unit
  KeepsLast (c ∷ []) = drops c ≡ false
  KeepsLast (c ∷ (d ∷ s)) = KeepsLast (d ∷ s)

  record IsLeft (s t : Bytes) : Type 0 where
    left : Bytes
    whole : s ≡ left ++ t
    are_dropped : All IsDropped left
    first : KeepsFirst t
    last : KeepsLast s → KeepsLast t

  record IsRight (s t : Bytes) : Type 0 where
    right : Bytes
    whole : s ≡ t ++ right
    are_dropped : All IsDropped right
    last : KeepsLast t

  KeepsLast-tail : (c : ℕ) (s : Bytes) → KeepsLast (c ∷ s) → KeepsLast s
  KeepsLast-tail c [] h = tt
  KeepsLast-tail c (d ∷ s) h = h

  trim_left-IsLeft : (s : Bytes) → IsLeft s (trim_left drops s)
  unfolding trim_left
  trim_left-IsLeft [] = record {
    left = [];
    whole = refl;
    are_dropped = tt;
    first = tt;
    last = λ h. h;
  }
  trim_left-IsLeft (c ∷ s) =
      let rest = trim_left-IsLeft s in
      elim (Bool-cases (drops c)) [
        | inl e ↦ rw e (record {
          left = c ∷ rest.left;
          whole = ap (λ (t : Bytes). c ∷ t) rest.whole;
          are_dropped = (e, rest.are_dropped);
          first = rest.first;
          last = λ h. rest.last (KeepsLast-tail c s h);
        })
        | inr e ↦
            rw e (record { left = []; whole = refl; are_dropped = tt; first = e; last = λ h. h })
      ]

  kept_last :
      (c : ℕ) (t : Bytes) → (drops c && length t == 0) ≡ false → KeepsLast t → KeepsLast (c ∷ t)
  kept_last c [] e h = ground arith
  kept_last c (d ∷ t) e h = h

  all-IsDropped : (c : ℕ) (t : Bytes) → (drops c && length t == 0) ≡ true → IsDropped c × (t ≡ [])
  all-IsDropped c [] e = (ground arith, refl)
  all-IsDropped c (d ∷ t) e = ground arith

  trim_right-IsRight : (s : Bytes) → IsRight s (trim_right drops s)
  unfolding trim_right
  trim_right-IsRight [] = record { right = []; whole = refl; are_dropped = tt; last = tt }
  trim_right-IsRight (c ∷ s) =
      let rest = trim_right-IsRight s in
      let t = trim_right drops s in
      elim (Bool-cases (drops c && length t == 0)) [
        | inl e ↦
            let (drop_c, none_left) = all-IsDropped c t e in
            rw e (record {
              right = c ∷ rest.right;
              whole =
                  ap (λ (u : Bytes). c ∷ u)
                    (rest.whole ∙ ap (λ (u : Bytes). u ++ rest.right) none_left);
              are_dropped = (drop_c, rest.are_dropped);
              last = tt;
            })
        | inr e ↦ rw e (record {
          right = rest.right;
          whole = ap (λ (u : Bytes). c ∷ u) rest.whole;
          are_dropped = rest.are_dropped;
          last = kept_last c t e rest.last;
        })
      ]

  -- What a trimmed string is to the string.
  pub record IsTrimmed (s t : Bytes) : Type 0 where
    pub left : Bytes
    pub right : Bytes
    pub whole : s ≡ left ++ (t ++ right)
    pub left_dropped : All IsDropped left
    pub right_dropped : All IsDropped right
    pub first : KeepsFirst t
    pub last : KeepsLast t

  -- `Trim` leaves the middle of a string: all that it removes at the front and at the back is of the
  -- characters to drop, and what it leaves neither begins nor ends with one of them.
  pub trim-IsTrimmed : (s : Bytes) → IsTrimmed s (trim drops s)
  unfolding trim
  trim-IsTrimmed s =
      let r = trim_right-IsRight s in
      let l = trim_left-IsLeft (trim_right drops s) in
      record {
        left = l.left;
        right = r.right;
        whole =
            r.whole
            ∙ ap (λ (u : Bytes). u ++ r.right) l.whole
            ∙ append_assoc l.left (trim_left drops (trim_right drops s)) r.right;
        left_dropped = l.are_dropped;
        right_dropped = r.are_dropped;
        first = l.first;
        last = l.last r.last;
      }

-- The trim of one character does the same with it.
pub trim_char-IsTrimmed : (s : Bytes) (x : ℕ) → IsTrimmed (λ c. c == x) s (trim_char s x)
unfolding trim_char trim_left_char trim_right_char
trim_char-IsTrimmed s x = unfold trim in trim-IsTrimmed (λ c. c == x) s
