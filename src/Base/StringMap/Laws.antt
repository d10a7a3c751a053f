-- ===== src/Base/StringMap/Laws.antt =====
-- The laws of the map. Every map that the sources build is in the order of its keys.
use mathlib.Core.Option
use woody.Shared.{
  ◌≡◌, refl, true, false, none, some, [], ◌∷◌, arith, Bool-cases, inl, inr, if◌then◌else◌,
}
use woody.Shared.Text.{
  bytes_eq, bytes_lt, bytes_eq→eq, bytes_eq_refl, bytes_lt_irrefl, bytes_lt_trans, bytes_lt_total,
}
use woody.Base.StringMap.{Bytes, StringMap, find, insert, assign}

abbrev pub IsBefore : Bytes → StringMap → Type 0
IsBefore k [] = Unit
IsBefore k ((j, w) ∷ m) = (bytes_lt k j ≡ true) × IsBefore k m

abbrev pub IsOrdered : StringMap → Type 0
IsOrdered [] = Unit
IsOrdered ((j, w) ∷ m) = IsBefore j m × IsOrdered m

pub IsBefore-trans :
    (k j : Bytes) (m : StringMap) → bytes_lt k j ≡ true → IsBefore j m → IsBefore k m
IsBefore-trans k j [] h b = tt
IsBefore-trans k j ((i, w) ∷ m) h b = (bytes_lt_trans k j i h b.0, IsBefore-trans k j m h b.1)

-- A key in front of all others is not among them.
pub find_before : (k : Bytes) (m : StringMap) → IsBefore k m → find k m ≡ none
unfolding find
find_before k [] b = refl
find_before k ((j, w) ∷ m) b = elim (Bool-cases (bytes_eq j k)) [
  | inl e ↦ cc (bytes_lt_irrefl k, b.0, bytes_eq→eq j k e)
  | inr e ↦ rw e (find_before k m b.1)
]

pub eq_sym : (s t : Bytes) → bytes_eq s t ≡ false → bytes_eq t s ≡ false
eq_sym s t h = elim (Bool-cases (bytes_eq t s)) [
  | inl e ↦ cc (bytes_eq_refl s, bytes_eq→eq t s e)
  | inr e ↦ e
]

insert-IsBefore :
    (j k v : Bytes) (m : StringMap) → bytes_lt j k ≡ true → IsBefore j m → IsBefore j (insert k v m)
unfolding insert
insert-IsBefore j k v [] h b = (h, tt)
insert-IsBefore j k v ((i, w) ∷ m) h b = elim (Bool-cases (bytes_eq i k)) [
  | inl e ↦ rw e b
  | inr e ↦ rw e (elim (Bool-cases (bytes_lt k i)) [
    | inl l ↦ rw l (h, b)
    | inr l ↦ rw l (b.0, insert-IsBefore j k v m h b.1)
  ])
]

assign-IsBefore :
    (j k v : Bytes) (m : StringMap) → bytes_lt j k ≡ true → IsBefore j m → IsBefore j (assign k v m)
unfolding assign
assign-IsBefore j k v [] h b = (h, tt)
assign-IsBefore j k v ((i, w) ∷ m) h b = elim (Bool-cases (bytes_eq i k)) [
  | inl e ↦ rw e b
  | inr e ↦ rw e (elim (Bool-cases (bytes_lt k i)) [
    | inl l ↦ rw l (h, b)
    | inr l ↦ rw l (b.0, assign-IsBefore j k v m h b.1)
  ])
]

-- `insert` and `operator[]` keep the order of the keys.
pub insert-IsOrdered : (k v : Bytes) (m : StringMap) → IsOrdered m → IsOrdered (insert k v m)
unfolding insert
insert-IsOrdered k v [] o = (tt, tt)
insert-IsOrdered k v ((j, w) ∷ m) o = elim (Bool-cases (bytes_eq j k)) [
  | inl e ↦ rw e o
  | inr e ↦ rw e (elim (Bool-cases (bytes_lt k j)) [
    | inl l ↦ rw l ((l, IsBefore-trans k j m l o.0), o)
    | inr l ↦
        rw l (insert-IsBefore j k v m (bytes_lt_total j k e l) o.0, insert-IsOrdered k v m o.1)
  ])
]

pub assign-IsOrdered : (k v : Bytes) (m : StringMap) → IsOrdered m → IsOrdered (assign k v m)
unfolding assign
assign-IsOrdered k v [] o = (tt, tt)
assign-IsOrdered k v ((j, w) ∷ m) o = elim (Bool-cases (bytes_eq j k)) [
  | inl e ↦ rw e o
  | inr e ↦ rw e (elim (Bool-cases (bytes_lt k j)) [
    | inl l ↦ rw l ((l, IsBefore-trans k j m l o.0), o)
    | inr l ↦
        rw l (assign-IsBefore j k v m (bytes_lt_total j k e l) o.0, assign-IsOrdered k v m o.1)
  ])
]

-- Two tests on one key, of which one holds at most.
apart {ℓ} :
    {A : Type ℓ} (x y z : A) (i j k : Bytes)
    → bytes_eq j k ≡ false
    → (if bytes_eq j i then x else if bytes_eq k i then y else z)
      ≡ (if bytes_eq k i then y else if bytes_eq j i then x else z)
apart x y z i j k e = elim (Bool-cases (bytes_eq j i)) [
  | inl p ↦ elim (Bool-cases (bytes_eq k i)) [
    | inl q ↦ cc (e, bytes_eq→eq k i q)
    | inr q ↦ rw (p, q) refl
  ]
  | inr p ↦ rw p refl
]

-- After `insert` a key has the value that it had before, and else the new one; the other keys are
-- as before.
pub find-insert :
    (i k v : Bytes) (m : StringMap)
    → IsOrdered m
    → find i (insert k v m) ≡ (if bytes_eq k i then some (Option.get_or (find k m) v) else find i m)
unfolding find insert
find-insert i k v [] o = refl
find-insert i k v ((j, w) ∷ m) o = elim (Bool-cases (bytes_eq j k)) [
  | inl e ↦ rw e (ground (arith, bytes_eq→eq j k e))
  | inr e ↦ rw e (elim (Bool-cases (bytes_lt k j)) [
    | inl l ↦ rw (l, find_before k m (IsBefore-trans k j m l o.0)) refl
    | inr l ↦ rw (l, find-insert i k v m o.1) (apart _ _ _ i j k e)
  ])
]

-- After `m[k] = v` the key has the new value; the other keys are as before.
pub find-assign :
    (i k v : Bytes) (m : StringMap)
    → IsOrdered m
    → find i (assign k v m) ≡ (if bytes_eq k i then some v else find i m)
unfolding find assign
find-assign i k v [] o = refl
find-assign i k v ((j, w) ∷ m) o = elim (Bool-cases (bytes_eq j k)) [
  | inl e ↦ rw e (ground (arith, bytes_eq→eq j k e))
  | inr e ↦ rw e (elim (Bool-cases (bytes_lt k j)) [
    | inl l ↦ rw l refl
    | inr l ↦ rw (l, find-assign i k v m o.1) (apart _ _ _ i j k e)
  ])
]
