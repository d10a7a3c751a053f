-- ===== src/Websocket/Handler/Reachable.antt =====
-- The codecs that a handler can come to have. Between two reads only `OnData` changes the codec:
-- sending and closing do not, and the callbacks do not reach it.
use woody.Shared.{◌^◌, ◌<◌, ◌≡◌, refl, List, length, All}
use mathlib.Core.Path.{subst}
use woody.Base.Endian.{IsByte}
use woody.Net.Buffer.{Buffer}
use woody.Net.Loop.{finished}
use woody.Websocket.Frame.{WebsocketFrame}
use woody.Websocket.Parser.{WebsocketParser}
use woody.Websocket.Codec.{WebsocketCodec, new_codec, on_parsed_frame}
use woody.Websocket.Codec.Refusals.{Decides, is_turned_down, on_parsed_frame-Decides}
use woody.Websocket.Handler.{Action, handler_on_data}
use woody.Websocket.Handler.Safety.{IsWell, IsSafe, handler_on_data-IsSafe}

module _ (m : Buffer) where
  open m use {Buf, readable}

  -- One read: a buffer of bytes whose length fits `size_t`, on which the loop ends by itself.
  pub data Read (c c' : WebsocketCodec) : Type 0 where
    read :
        (b b' : Buf) (es : List Action)
        → length (readable b) < 2 ^ 64
        → All IsByte (readable b)
        → handler_on_data m b c ≡ finished b' c' es
        → Read c c'

  -- Any number of reads, by a handler made with a parser whose fields hold anything.
  pub data Reachable : WebsocketCodec → Type 0 where
    made : (p : WebsocketParser) → Reachable (new_codec p)
    behind_read : {c c' : WebsocketCodec} → Reachable c → Read c c' → Reachable c'

  Read-IsWell : {c c' : WebsocketCodec} → Read c c' → IsWell c → IsWell c'
  Read-IsWell {c} (read b b' es fits are_bytes e) well =
      (subst (IsSafe m) e (handler_on_data-IsSafe m b c fits are_bytes well)).1

  pub Reachable-IsWell : {c : WebsocketCodec} → Reachable c → IsWell c
  Reachable-IsWell (made p) = record { ready = refl; masking = refl; receiving = tt }
  Reachable-IsWell (behind_read r s) = Read-IsWell s (Reachable-IsWell r)

  -- Whatever a handler has read since it was made, on the next buffer of bytes, whatever they are,
  -- whose length fits `size_t`, the loop ends, it does not throw `std::out_of_range`, and where the
  -- buffer's assertion does not end it the buffer is empty and the codec well.
  pub Reachable-IsSafe :
      {c : WebsocketCodec}
      → Reachable c
      → (b : Buf) → length (readable b) < 2 ^ 64
      → All IsByte (readable b)
      → IsSafe m (handler_on_data m b c)
  Reachable-IsSafe {c} r b fits are_bytes =
      handler_on_data-IsSafe m b c fits are_bytes (Reachable-IsWell r)

  -- Whatever a handler has read since it was made: a frame is refused, with the error callback and
  -- nothing else, and the codec stays as it is, if its opcode is 0, 1, 2, 8, 9 or 10 and it has a
  -- payload and the key 0 (whether its mask bit is set or not), or continues a message where none
  -- has begun, or starts one inside another. Any other frame is taken, without the error callback,
  -- whatever RFC 6455 says of it: an unmasked frame that is reported with an earlier key, a control
  -- frame of any length, a reserved opcode.
  pub Reachable-Decides :
      {c : WebsocketCodec}
      → Reachable c
      → (f : WebsocketFrame) → Decides (is_turned_down f c.cur_message_type) c (on_parsed_frame f c)
  Reachable-Decides {c} r f =
      let well = Reachable-IsWell r in on_parsed_frame-Decides f c well.masking well.receiving
