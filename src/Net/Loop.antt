-- ===== src/Net/Loop.antt =====
-- The loop of `HTTPHandler::OnData` and `WebsocketHandler::OnData`: take the whole buffer, hand it
-- to the codec, put back what the codec did not take. The two differ in the codec's call alone.
pub mod Laws
pub mod Rounds
pub mod Reads
pub mod Interleaving
use woody.Shared.{
  ℕ, zero, suc, ◌+◌, Bool, true, false, not, ◌||◌, Option, none, some, List, [], ◌∷◌, ◌++◌, length,
  drop, ltb, ◌==◌, if◌then◌else◌,
}
use woody.Net.Buffer.{Buffer}

-- What one call of the codec gives: whether it succeeded, the bytes that it took, its next state
-- and the callbacks that it made.
pub record Fed (S E : Type 0) : Type 0 where
  pub success : Bool
  pub parsed_bytes : ℕ
  pub codec : S
  pub events : List E

-- How the loop ends: by itself; by `std::out_of_range`, thrown by `string(data, parsed_bytes)`;
-- by the assertion in `prepend`; by `boost::bad_lexical_cast`, thrown in a callback of an application
-- and caught nowhere. `stuck` is no end of the program: the fuel ran out.
pub data Outcome (B S E : Type 0) : Type 0 where
  finished : B → S → List E → Outcome B S E
  out_of_range : Outcome B S E
  overrun : Outcome B S E
  bad_cast : Outcome B S E
  stuck : Outcome B S E

module _ (m : Buffer) {S E : Type 0} where
  open m use {Buf, readable, retrieve_all, prepend}

  abbrev pub go_on : Option Buf → (Buf → Outcome Buf S E) → Outcome Buf S E
  go_on none next = overrun
  go_on (some b) next = next b

  -- Behind the codec's call. `next` is the loop on the buffer with the rest put back.
  unfoldable pub put_back :
      List ℕ → Buf → List E → Fed S E → (Buf → Outcome Buf S E) → Outcome Buf S E
  put_back bytes b es d next =
      if not d.success || d.parsed_bytes == 0
      then finished (retrieve_all b) d.codec (es ++ d.events)
      else if ltb (length bytes) d.parsed_bytes
      then out_of_range
      else go_on (prepend (drop d.parsed_bytes bytes) (retrieve_all b)) next

module _ (m : Buffer) {S E : Type 0} (feed : List ℕ → S → Fed S E) where
  open m use {Buf, readable}

  -- `while (buf->readableBytes() > 0)`
  unfoldable pub loop : ℕ → Buf → S → List E → Outcome Buf S E
  loop zero b c es = if length (readable b) == 0 then finished b c es else stuck
  loop (suc fuel) b c es =
      let d = feed (readable b) c in
      let next = λ (b' : Buf). loop fuel b' d.codec (es ++ d.events) in
      if length (readable b) == 0 then finished b c es else put_back m (readable b) b es d next

  -- A round that goes on has taken a byte at least.
  unfoldable pub on_data : Buf → S → Outcome Buf S E
  on_data b c = loop (length (readable b)) b c []
