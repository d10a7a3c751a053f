-- ===== src/Net/Loop/Reads/First.antt =====
-- The first of several reads that are served.
use woody.Shared.{◌≡◌, refl, Option, none, some, List, ◌++◌}
use woody.Net.Loop.{Outcome, finished, out_of_range, overrun, bad_cast, stuck}
use woody.Net.Loop.Reads.{Served, served, behind_actions, next_read}

module _ {S E : Type 0} where
  -- A first read that is served: its loop ends by itself, and the other reads are served.
  pub record IsFirst {B : Type 0} (o : Outcome B S E) (more : S → Option (Served S E))
      (out : Served S E) : Type 0 where
    pub buffer : B
    pub codec : S
    pub actions : List E
    pub ends : o ≡ finished buffer codec actions
    pub rest : Served S E
    pub goes_on : more codec ≡ some rest
    pub whole : out ≡ served rest.codec (actions ++ rest.actions)

  first_more :
      {B : Type 0} (b : B) (s : S) (es : List E) (more : S → Option (Served S E)) (out : Served S E)
      (o : Option (Served S E))
      → more s ≡ o
      → behind_actions es o ≡ some out
      → IsFirst (finished b s es) more out
  first_more b s es more out none e h = absurd cc
  first_more b s es more out (some r) e h = record {
    buffer = b;
    codec = s;
    actions = es;
    ends = refl;
    rest = r;
    goes_on = e;
    whole = cc h;
  }

  pub first_lem :
      {B : Type 0} (o : Outcome B S E) (more : S → Option (Served S E)) (out : Served S E)
      → next_read o more ≡ some out
      → IsFirst o more out
  first_lem (finished b s es) more out h = first_more b s es more out (more s) refl h
  first_lem out_of_range more out h = absurd cc
  first_lem overrun more out h = absurd cc
  first_lem bad_cast more out h = absurd cc
  first_lem stuck more out h = absurd cc
