-- ===== src/Websocket/Codec/Assembler.antt =====
-- An interface between the codec and what it promises: an abstract machine that takes a client's
-- frames one by one. The assembler of messages implements it for frames that keep the protocol, the
-- boxes for all frames that a client can send.
use woody.Shared.{ℕ, ◌^◌, ◌<◌, ◌≡◌, refl, inr, List, [], ◌∷◌, ◌++◌, length, All, if◌then◌else◌}
use woody.Base.Endian.{IsByte}
use woody.Websocket.Frame.{WebsocketFrame}
use woody.Websocket.Parser.{WebsocketParser}
use woody.Websocket.Parser.Invariant.{IsFresh}
use woody.Websocket.Codec.{WebsocketCodec, on_error, on_parsed_frame, on_data}
use woody.Websocket.Codec.Wire.{IsSendable, LengthForm, Fits, wire}
use woody.Websocket.Codec.Frames.{on_parsed_frame-Keeps}
use woody.Websocket.Codec.Assembly.{
  Assembly, idle, partial, text, binary, Assembled, assembled, Represents, assemble,
  on_parsed_frame-Agrees,
}
use woody.Websocket.Codec.Stream.{
  reported_to, client_frame, IsClientFrame, client_frame-IsSendable, payload-client_frame,
  IsReceived, on_data-wire,
}
use woody.Websocket.Codec.Refusals.{is_turned_down}
use woody.Websocket.Codec.Boxes.{Boxes, Stores, mark_type, collect, collect_frame-Keeps}

-- One frame of a client, before it is masked, and the form that it has its length in.
pub record ClientFrame : Type 0 where
  pub opcode : ℕ
  pub fin : ℕ
  pub key : ℕ
  pub bytes : List ℕ
  pub form : LengthForm

abbrev pub masked_frame : ClientFrame → WebsocketFrame
masked_frame x = client_frame x.opcode x.fin x.key x.bytes

pub record Assembler : Type 1 where
  pub State : Type 0
  pub next : ClientFrame → State → Assembled State
  pub Stands : WebsocketCodec → State → Type 0
  pub IsGood : ClientFrame → Type 0
  pub sendable : (x : ClientFrame) → IsGood x → IsSendable (masked_frame x)
  pub length_fits : (x : ClientFrame) → IsGood x → Fits x.form (length x.bytes)
  pub moved :
      (c : WebsocketCodec) (p : WebsocketParser) (s : State)
      → Stands c s
      → Stands (record c { parser = p }) s
  pub follows :
      (x : ClientFrame) (c : WebsocketCodec) (s : State)
      → IsGood x
      → Stands c s
      → Stands (on_parsed_frame (masked_frame x) c).codec (next x s).assembly
        × ((on_parsed_frame (masked_frame x) c).events ≡ (next x s).events)

-- End to end, for one frame of a client that is good for the machine: `OnData`, by a codec that
-- waits for a header and stands where the machine stands, on a chunk that fits `size_t` and begins
-- with the frame, takes exactly the frame's bytes and does what the machine does; the parser waits
-- for a header again.
pub on_data-IsReceived :
    (k : Assembler) (x : ClientFrame) (rest : List ℕ) (c : WebsocketCodec) (s : k.State)
    → k.IsGood x
    → length (wire x.form (masked_frame x) ++ rest) < 2 ^ 64
    → IsFresh c.parser
    → k.Stands c s
    → IsReceived k.Stands
        (wire x.form (masked_frame x))
        (k.next x s)
        (on_data (wire x.form (masked_frame x) ++ rest) 0 c)
on_data-IsReceived k x rest c s good fits fresh r =
    let f = masked_frame x in
    let moved = reported_to f c in
    let (stands, same) = k.follows x moved s good (k.moved c moved.parser s r) in
    rw (on_data-wire x.form f rest c (k.sendable x good) (k.length_fits x good) fits fresh)
      (record {
        succeeds = refl;
        takes = refl;
        announces = same;
        represents = stands;
        fresh = rw ((on_parsed_frame-Keeps f moved).0) (refl, refl);
      })

-- The assembler of messages, for frames of the wire format in any length form, with a key that is not
-- zero, that are no continuation in the middle of a message.
abbrev pub IsGood : ClientFrame → Type 0
IsGood x =
    IsClientFrame x.opcode x.fin x.key x.bytes
    × (x.opcode ≡ 0 → x.fin ≡ 1)
    × Fits x.form (length x.bytes)

pub Represents-moved :
    (c : WebsocketCodec) (p : WebsocketParser) (s : Assembly)
    → Represents c s
    → Represents (record c { parser = p }) s
Represents-moved c p idle r = r
Represents-moved c p (partial text bs) r = r
Represents-moved c p (partial binary bs) r = r

abbrev pub protocol : Assembler
protocol = record {
  State = Assembly;
  next = λ x s. assemble x.opcode x.fin x.bytes s;
  Stands = Represents;
  IsGood = IsGood;
  sendable = λ x good. client_frame-IsSendable x.opcode x.fin x.key x.bytes good.0;
  length_fits = λ x good. good.2;
  moved = Represents-moved;
  follows = λ x c s good r.
      rw (payload-client_frame x.opcode x.fin x.key x.bytes good.0.are_bytes) at
        (on_parsed_frame-Agrees (masked_frame x) (inr good.0.key_pos) c s r good.1);
}

-- The boxes, for every frame of the wire format in any length form.
abbrev pub IsMasked : ClientFrame → Type 0
IsMasked x = IsSendable (masked_frame x) × All IsByte x.bytes × Fits x.form (length x.bytes)

abbrev pub collect_next : ClientFrame → Boxes → Assembled Boxes
collect_next x s =
    if is_turned_down (masked_frame x) (mark_type s.mark)
    then assembled s (on_error ∷ [])
    else collect x.opcode x.fin x.bytes s

abbrev pub boxes : Assembler
boxes = record {
  State = Boxes;
  next = collect_next;
  Stands = Stores;
  IsGood = IsMasked;
  sendable = λ x good. good.0;
  length_fits = λ x good. good.2;
  moved = λ c p s r. r;
  follows = λ x c s good r.
      rw (payload-client_frame x.opcode x.fin x.key x.bytes good.1) at
        (collect_frame-Keeps (masked_frame x) c s r);
}
