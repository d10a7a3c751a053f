-- ===== src/Http/Codec/HeaderMap.antt =====
-- The headers that a request has behind any number of insertions.
use mathlib.Core.Option.{get_or}
use woody.Shared.{
  ◌≡◌, refl, sym, ap, ◌∙◌, Option, none, some, List, [], ◌∷◌, if◌then◌else◌, Bool-cases, inl, inr,
}
use woody.Shared.Text.{bytes_eq, bytes_eq→eq}
use woody.Base.StringMap.{Bytes, StringMap, find, insert}
use woody.Base.StringMap.Laws.{IsOrdered, insert-IsOrdered, find-insert}
use woody.Base.StringMap.Same.{find-determines}
use woody.Http.Server.Routing.{or_else}
use woody.Http.Codec.Headers.{insert_all}

-- The first value that the list has for a name: `std::map::insert` keeps it.
unfoldable pub first_value : Bytes → List (Bytes × Bytes) → Option Bytes
first_value i [] = none
first_value i ((k, v) ∷ ps) = let rest = first_value i ps in if bytes_eq k i then some v else rest

or_else-some : (o : Option Bytes) (v : Bytes) → some (get_or o v) ≡ or_else o (some v)
or_else-some none v = refl
or_else-some (some w) v = refl

or_else-none : (o : Option Bytes) → o ≡ or_else o none
or_else-none none = refl
or_else-none (some w) = refl

insert_step :
    (i k v : Bytes) (m : StringMap) (rest : Option Bytes)
    → or_else (if bytes_eq k i then some (get_or (find k m) v) else find i m) rest
      ≡ or_else (find i m) (if bytes_eq k i then some v else rest)
insert_step i k v m rest = elim (Bool-cases (bytes_eq k i)) [
  | inl e ↦ rw e (
      or_else-some (find k m) v
      ∙ ap (λ (n : Bytes). or_else (find n m) (some v)) (bytes_eq→eq k i e))
  | inr e ↦ rw e refl
]

pub find-insert_all :
    (i : Bytes) (ps : List (Bytes × Bytes)) (m : StringMap)
    → IsOrdered m
    → find i (insert_all ps m) ≡ or_else (find i m) (first_value i ps)
unfolding insert_all first_value
find-insert_all i [] m o = or_else-none (find i m)
find-insert_all i ((k, v) ∷ ps) m o =
    find-insert_all i ps (insert k v m) (insert-IsOrdered k v m o)
    ∙ rw (find-insert i k v m o) (insert_step i k v m (first_value i ps))

insert_all-IsOrdered :
    (ps : List (Bytes × Bytes)) (m : StringMap) → IsOrdered m → IsOrdered (insert_all ps m)
unfolding insert_all
insert_all-IsOrdered [] m o = o
insert_all-IsOrdered ((k, v) ∷ ps) m o =
    insert_all-IsOrdered ps (insert k v m) (insert-IsOrdered k v m o)

found_in_all :
    (i : Bytes) (ps : List (Bytes × Bytes)) → find i (insert_all ps []) ≡ first_value i ps
found_in_all i ps = find-insert_all i ps [] tt ∙ unfold find in refl

-- The map is determined by the first values under the names.
pub insert_all-determined :
    (ps qs : List (Bytes × Bytes))
    → ((i : Bytes) → first_value i ps ≡ first_value i qs)
    → insert_all ps [] ≡ insert_all qs []
insert_all-determined ps qs h =
    find-determines (insert_all ps []) (insert_all qs []) (insert_all-IsOrdered ps [] tt)
      (insert_all-IsOrdered qs [] tt) (λ i. found_in_all i ps ∙ h i ∙ sym (found_in_all i qs))
