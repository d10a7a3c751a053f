-- ===== src/Websocket/Codec/Stream.antt =====
-- `OnData` on chunks that begin with a frame in its wire form form.
use woody.Shared.{
  sym, ℕ, ◌^◌, ◌≤◌, ◌<◌, ◌≡◌, ◌≢◌, refl, true, List, [], ◌∷◌, ◌++◌, length, All, arith,
}
use woody.Base.Endian.{IsByte}
use woody.Websocket.Frame.{WebsocketFrame, mask}
use woody.Websocket.Frame.Masking.{un_mask-mask, length-mask}
use woody.Websocket.Parser.Invariant.{IsFresh}
use woody.Websocket.Codec.{WebsocketCodec, on_parsed_frame, deliver, DataResult, on_data}
use woody.Websocket.Codec.Wire.{IsOpcode, IsSendable, LengthForm, Fits, wire}
use woody.Websocket.Codec.RoundTrip.{parse-wire}
use woody.Websocket.Codec.ReadLength.{reported_key, behind}
use woody.Websocket.Codec.Assembly.{
  Represents, Assembly, idle, partial, text, binary, Assembled, payload,
}

-- The frame as the parser hands it over, and the codec when it does.
abbrev pub reported : WebsocketFrame → WebsocketCodec → WebsocketFrame
reported f c = record f { masking_key = reported_key f c.parser }

abbrev pub reported_to : WebsocketFrame → WebsocketCodec → WebsocketCodec
reported_to f c = record c { parser = behind f c.parser }

-- A chunk that begins with the wire form form of a frame: `OnData` succeeds, takes exactly the frame's
-- bytes, and handles exactly that frame, with the key that the parser reports.
pub on_data-wire :
    (form : LengthForm) (f : WebsocketFrame) (rest : List ℕ) (c : WebsocketCodec)
    → IsSendable f
    → Fits form f.payload_length
    → length (wire form f ++ rest) < 2 ^ 64
    → IsFresh c.parser
    → on_data (wire form f ++ rest) 0 c ≡ record {
      success = true;
      parsed_bytes = length (wire form f);
      codec = (on_parsed_frame (reported f c) (reported_to f c)).codec;
      events = (on_parsed_frame (reported f c) (reported_to f c)).events;
    }
unfolding on_data deliver
on_data-wire form f rest c s l fits fresh = rw (parse-wire form f rest c.parser s l fits fresh) refl

-- The parser is no part of what the assembler's state stands for.
pub moved :
    (f : WebsocketFrame) (c : WebsocketCodec) (s : Assembly)
    → Represents c s
    → Represents (reported_to f c) s
moved f c idle r = r
moved f c (partial text bs) r = r
moved f c (partial binary bs) r = r

-- What a client sends for a payload: one masked frame.
abbrev pub client_frame : ℕ → ℕ → ℕ → List ℕ → WebsocketFrame
client_frame opcode fin key bytes = record {
  fin = fin;
  rsv1 = 0;
  rsv2 = 0;
  rsv3 = 0;
  opcode = opcode;
  mask = 1;
  payload_length = length bytes;
  masking_key = key;
  body = mask bytes key;
}

-- The conditions on it.
pub record IsClientFrame (opcode fin key : ℕ) (bytes : List ℕ) : Type 0 where
  pub fin_bit : fin ≤ 1
  pub is_opcode : IsOpcode opcode
  pub whole_control : 8 ≤ opcode → fin ≡ 1
  pub key_fits : key < 2 ^ 32
  pub key_pos : key ≢ 0
  pub length_fits : length bytes ≤ 0xffff_ffff
  pub are_bytes : All IsByte bytes

module _ (opcode fin key : ℕ) (bytes : List ℕ) (i : IsClientFrame opcode fin key bytes) where
  pub client_frame-IsSendable : IsSendable (client_frame opcode fin key bytes)
  client_frame-IsSendable = record {
    fin_bit = i.fin_bit;
    no_rsv1 = refl;
    no_rsv2 = refl;
    no_rsv3 = refl;
    is_opcode = i.is_opcode;
    whole_control = i.whole_control;
    mask_bit = omega arith;
    key_fits = i.key_fits;
    is_length = sym (length-mask bytes key);
    length_fits = rw (length-mask bytes key) i.length_fits;
  }

pub payload-client_frame :
    (opcode fin key : ℕ) (bytes : List ℕ)
    → All IsByte bytes
    → payload (client_frame opcode fin key bytes) ≡ bytes
unfolding payload mask
payload-client_frame opcode fin key [] h = refl
payload-client_frame opcode fin key (b ∷ bytes) h = un_mask-mask (b ∷ bytes) key h

-- What a client's frame makes of the codec, in the assembler's terms.
pub record IsReceived {S : Type 0} (Stands : WebsocketCodec → S → Type 0) (wire_bytes : List ℕ)
    (a : Assembled S) (d : DataResult) : Type 0 where
  pub succeeds : d.success ≡ true
  pub takes : d.parsed_bytes ≡ length wire_bytes
  pub announces : d.events ≡ a.events
  pub represents : Stands d.codec a.assembly
  pub fresh : IsFresh d.codec.parser
