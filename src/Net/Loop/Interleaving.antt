-- ===== src/Net/Loop/Interleaving.antt =====
-- The reads of several connections, in the order in which the event loop gets to them. Each
-- connection has a handler with a codec of its own; an action is kept with the connection's name.
pub mod Alone
use mathlib.Core.Path.{subst}
use woody.Shared.{
  ◌≡◌, refl, sym, ap, ◌∙◌, Bool, true, false, Option, none, some, List, [], ◌∷◌, ◌++◌, map,
  Bool-cases, inl, inr, if◌then◌else◌,
}
use woody.Shared.Text.{bytes_eq, bytes_eq→eq, bytes_eq_refl}
use woody.Base.StringMap.{Bytes}
use woody.Net.Loop.{Outcome, finished, out_of_range, overrun, bad_cast, stuck}
use woody.Net.Loop.Reads.{Served, served, behind_actions, next_read, reads}

abbrev pub update : {S : Type 0} → Bytes → S → (Bytes → S) → Bytes → S
update k s h j = if bytes_eq k j then s else h j

abbrev pub tag : {E : Type 0} → Bytes → List E → List (Bytes × E)
tag k [] = []
tag k (e ∷ es) = (k, e) ∷ tag k es

-- The actions of one connection.
abbrev pub actions_of : {E : Type 0} → Bytes → List (Bytes × E) → List E
actions_of j [] = []
actions_of j ((k, e) ∷ es) = let rest = actions_of j es in if bytes_eq k j then e ∷ rest else rest

pub record Ran (S E : Type 0) : Type 0 where
  pub codecs : Bytes → S
  pub actions : List (Bytes × E)

module _ {S E : Type 0} where
  abbrev pub ran : (Bytes → S) → List (Bytes × E) → Ran S E
  ran h as' = record { codecs = h; actions = as' }

  abbrev pub with_tagged : Bytes → List E → Option (Ran S E) → Option (Ran S E)
  with_tagged k es none = none
  with_tagged k es (some r) = some (ran r.codecs (tag k es ++ r.actions))

  -- A loop that does not end by itself ends the program.
  abbrev pub next_event :
      {B : Type 0} → Bytes → Outcome B S E → (S → Option (Ran S E)) → Option (Ran S E)
  next_event k (finished b s es) more = with_tagged k es (more s)
  next_event k out_of_range more = none
  next_event k overrun more = none
  next_event k bad_cast more = none
  next_event k stuck more = none

  unfoldable pub run_events :
      {B : Type 0} → (B → S → Outcome B S E) → List (Bytes × B) → (Bytes → S) → Option (Ran S E)
  run_events on_read [] h = some (ran h [])
  run_events on_read ((k, b) ∷ es) h =
      next_event k (on_read b (h k)) (λ s. run_events on_read es (update k s h))

-- The reads of one connection.
abbrev pub reads_of : {B : Type 0} → Bytes → List (Bytes × B) → List B
reads_of j [] = []
reads_of j ((k, b) ∷ es) = let rest = reads_of j es in if bytes_eq k j then b ∷ rest else rest
