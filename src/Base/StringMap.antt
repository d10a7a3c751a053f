-- ===== src/Base/StringMap.antt =====
-- `std::map<std::string, std::string>` as far as the http sources use it: the entries in the order
-- of their keys, which is the order that iteration gives.
pub mod Laws
pub mod Same
use woody.Shared.{ℕ, Option, none, some, List, [], ◌∷◌, if◌then◌else◌}
use woody.Shared.Text.{bytes_eq, bytes_lt}

abbrev pub Bytes : Type 0
Bytes = List ℕ

abbrev pub StringMap : Type 0
StringMap = List (Bytes × Bytes)

unfoldable pub find : Bytes → StringMap → Option Bytes
find k [] = none
find k ((j, w) ∷ m) = if bytes_eq j k then some w else find k m

-- `insert(pair(k, v))`: an entry that is there stays as it is.
unfoldable pub insert : Bytes → Bytes → StringMap → StringMap
insert k v [] = (k, v) ∷ []
insert k v ((j, w) ∷ m) =
    if bytes_eq j k
    then (j, w) ∷ m
    else if bytes_lt k j
    then (k, v) ∷ (j, w) ∷ m
    else (j, w) ∷ insert k v m

-- `m[k] = v`: an entry that is there is overwritten.
unfoldable pub assign : Bytes → Bytes → StringMap → StringMap
assign k v [] = (k, v) ∷ []
assign k v ((j, w) ∷ m) =
    if bytes_eq j k
    then (j, v) ∷ m
    else if bytes_lt k j
    then (k, v) ∷ (j, w) ∷ m
    else (j, w) ∷ assign k v m
