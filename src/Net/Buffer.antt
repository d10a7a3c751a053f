-- ===== src/Net/Buffer.antt =====
-- The input buffer that the network library passes to `OnData`: an interface, with the behaviour
-- that its header documents. `prepend` asserts that the bytes fit in front of the readable ones;
-- `none` is the failed assertion.
use woody.Shared.{ℕ, ◌≤◌, ◌<◌, ◌≡◌, Option, none, some, List, [], ◌++◌, length}

pub record Buffer : Type 1 where
  pub Buf : Type 0
  pub readable : Buf → List ℕ
  pub retrieve_all : Buf → Buf
  pub prepend : List ℕ → Buf → Option Buf
  pub prependable : Buf → ℕ
  pub cheap_prepend : ℕ
  pub retrieve_all_empties : (b : Buf) → readable (retrieve_all b) ≡ []
  pub retrieve_all_room : (b : Buf) → prependable (retrieve_all b) ≡ cheap_prepend
  pub prepend_fits :
      (s : List ℕ) (b : Buf)
      → length s ≤ prependable b
      → (b' : Buf) × (prepend s b ≡ some b') × (readable b' ≡ s ++ readable b)
  pub prepend_overruns : (s : List ℕ) (b : Buf) → prependable b < length s → prepend s b ≡ none
