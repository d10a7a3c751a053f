-- ===== src/Websocket/Handler/Reads.antt =====
-- Several reads by a websocket handler, over `Net.Loop.Reads`.
pub mod Pieces
use woody.Shared.{◌≡◌, Option, some, List, map}
use woody.Net.Buffer.{Buffer}
use woody.Net.Loop.Reads.{Served, served, reads}
use woody.Websocket.Parser.Invariant.{IsFresh}
use woody.Websocket.Codec.{WebsocketCodec}
use woody.Websocket.Codec.Assembly.{Assembled}
use woody.Websocket.Codec.Assembler.{Assembler}
use woody.Websocket.Handler.{Action, handle_event, handler_on_data}

unfoldable pub handler_reads :
    (m : Buffer) → List m.Buf → WebsocketCodec → Option (Served WebsocketCodec Action)
handler_reads m bs c = reads (handler_on_data m) bs c

-- The reads have made the actions for what a machine has made of the frames, and the codec stands
-- where it stands.
pub record IsServed (k : Assembler) (a : Assembled k.State)
    (r : Option (Served WebsocketCodec Action)) : Type 0 where
  pub codec : WebsocketCodec
  pub serves : r ≡ some (served codec (map handle_event a.events))
  pub represents : k.Stands codec a.assembly
  pub fresh : IsFresh codec.parser
