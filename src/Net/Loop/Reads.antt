-- ===== src/Net/Loop/Reads.antt =====
-- Several reads, one after the other: the network library calls `OnData` once for each. Between two
-- reads the codec is all that is left, since the loop leaves the buffer empty.
pub mod First
use woody.Shared.{◌≡◌, refl, sym, ap, ◌∙◌, Option, none, some, List, [], ◌∷◌, ◌++◌, append_assoc}
use mathlib.Core.Path.{fun_ext}
use woody.Net.Loop.{Outcome, finished, out_of_range, overrun, bad_cast, stuck}

pub record Served (S E : Type 0) : Type 0 where
  pub codec : S
  pub actions : List E

module _ {S E : Type 0} where
  abbrev pub served : S → List E → Served S E
  served c es = record { codec = c; actions = es }

  abbrev pub behind_actions : List E → Option (Served S E) → Option (Served S E)
  behind_actions es none = none
  behind_actions es (some s) = some (served s.codec (es ++ s.actions))

  -- A read whose loop does not end by itself is the last.
  abbrev pub next_read :
      {B : Type 0} → Outcome B S E → (S → Option (Served S E)) → Option (Served S E)
  next_read (finished b c es) more = behind_actions es (more c)
  next_read out_of_range more = none
  next_read overrun more = none
  next_read bad_cast more = none
  next_read stuck more = none

  unfoldable pub reads : {B : Type 0} → (B → S → Outcome B S E) → List B → S → Option (Served S E)
  reads on_read [] c = some (served c [])
  reads on_read (b ∷ bs) c = next_read (on_read b c) (λ c'. reads on_read bs c')

  pub no_actions : (o : Option (Served S E)) → behind_actions [] o ≡ o
  no_actions none = refl
  no_actions (some s) = refl

  -- Reads, and then more reads.
  abbrev pub and_then : Option (Served S E) → (S → Option (Served S E)) → Option (Served S E)
  and_then none more = none
  and_then (some s) more = behind_actions s.actions (more s.codec)

  behind_twice :
      (es fs : List E) (o : Option (Served S E))
      → behind_actions es (behind_actions fs o) ≡ behind_actions (es ++ fs) o
  behind_twice es fs none = refl
  behind_twice es fs (some s) =
      ap (λ (as' : List E). some (served s.codec as')) (sym (append_assoc es fs s.actions))

  behind-and_then :
      (es : List E) (o : Option (Served S E)) (more : S → Option (Served S E))
      → behind_actions es (and_then o more) ≡ and_then (behind_actions es o) more
  behind-and_then es none more = refl
  behind-and_then es (some s) more = behind_twice es s.actions (more s.codec)

  next-and_then :
      {B : Type 0} (o : Outcome B S E) (first more : S → Option (Served S E))
      → next_read o (λ c. and_then (first c) more) ≡ and_then (next_read o first) more
  next-and_then (finished b c es) first more = behind-and_then es (first c) more
  next-and_then out_of_range first more = refl
  next-and_then overrun first more = refl
  next-and_then bad_cast first more = refl
  next-and_then stuck first more = refl

  pub reads_append :
      {B : Type 0} (on_read : B → S → Outcome B S E) (bs bs' : List B) (c : S)
      → reads on_read (bs ++ bs') c ≡ and_then (reads on_read bs c) (λ c'. reads on_read bs' c')
  unfolding reads
  reads_append on_read [] bs' c = sym (no_actions (reads on_read bs' c))
  reads_append on_read (b ∷ bs) bs' c =
      ap (λ (k : S → Option (Served S E)). next_read (on_read b c) k)
        (fun_ext (λ c'. reads_append on_read bs bs' c'))
      ∙ next-and_then (on_read b c) (λ c'. reads on_read bs c') (λ c'. reads on_read bs' c')
