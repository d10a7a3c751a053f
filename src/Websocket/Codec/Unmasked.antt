-- ===== src/Websocket/Codec/Unmasked.antt =====
-- What the codec takes for the key of a frame: the key that the parser reports, whether or not the
-- frame's mask bit is set.
use woody.Shared.{
  ℕ, ◌^◌, ◌<◌, ◌≡◌, ◌≢◌, refl, sym, inl, inr, Bool, true, false, ◌||◌, List, [], ◌∷◌, ◌++◌, length,
  arith, ◌==◌, ==_iff, Bool-cases, if◌then◌else◌,
}
use woody.Websocket.Frame.{WebsocketFrame, un_mask}
use woody.Websocket.Parser.Invariant.{IsFresh}
use woody.Websocket.Message.{MessageType}
use mathlib.Core.Path.{subst}
use woody.Websocket.Codec.{WebsocketCodec, on_error, refuse, is_empty, on_parsed_frame, on_data}
use woody.Websocket.Codec.Wire.{IsOpcode, IsSendable, LengthForm, Fits, wire}
use woody.Websocket.Codec.ReadLength.{reported_key}
use woody.Websocket.Codec.Frames.{on_parsed_frame-Keeps}
use woody.Websocket.Codec.Receiving.{IsReceiving}
use woody.Websocket.Codec.Refusals.{is_turned_down, Decides, on_parsed_frame-Decides}
use woody.Websocket.Codec.Assembly.{
  Represents, Assembly, idle, partial, text, binary, Assembled, assembled, Agrees, payload,
  assemble, on_parsed_frame-Agrees,
}
use woody.Websocket.Codec.Stream.{reported, reported_to, moved, on_data-wire, IsReceived}

-- What the assembler is to do with a frame of that key: without one, the frame is an error.
abbrev pub by_key : ℕ → WebsocketFrame → Assembly → Assembled Assembly
by_key key f s =
    if key == 0 then assembled s (on_error ∷ []) else assemble f.opcode f.fin (un_mask f.body key) s

pub Represents-masking :
    (c : WebsocketCodec) (s : Assembly) → Represents c s → c.is_expected_masking ≡ true
Represents-masking c idle r = r.0
Represents-masking c (partial text bs) r = r.0
Represents-masking c (partial binary bs) r = r.0

pub Represents-IsReceiving :
    (c : WebsocketCodec) (s : Assembly) → Represents c s → IsReceiving c.cur_message_type
Represents-IsReceiving c idle r = rw r.1 tt
Represents-IsReceiving c (partial text bs) r = rw r.1 tt
Represents-IsReceiving c (partial binary bs) r = rw r.1 tt

not_empty : (s : List ℕ) → s ≢ [] → is_empty s ≡ false
not_empty [] h = absurd (h refl)
not_empty (x ∷ s) h = refl

known :
    (o : ℕ) → IsOpcode o → (o == 0 || (o == 1 || o == 2) || (o == 8 || o == 9 || o == 10)) ≡ true
known o h = ground arith

unkeyed_violation :
    (f : WebsocketFrame) (t : MessageType)
    → IsOpcode f.opcode
    → f.body ≢ []
    → f.masking_key ≡ 0
    → is_turned_down f t ≡ true
unkeyed_violation f t k full e = rw (known f.opcode k, not_empty f.body full, e) refl

payload_full : (f : WebsocketFrame) → f.body ≢ [] → payload f ≡ un_mask f.body f.masking_key
unfolding payload
payload_full f full = rw (not_empty f.body full) refl

refused_lem :
    (f : WebsocketFrame) (c : WebsocketCodec) (s : Assembly)
    → Represents c s
    → IsOpcode f.opcode
    → f.body ≢ []
    → f.masking_key ≡ 0
    → on_parsed_frame f c ≡ refuse c
refused_lem f c s r k full e =
    subst (λ (b : Bool). Decides b c (on_parsed_frame f c))
      (unkeyed_violation f c.cur_message_type k full e)
      (on_parsed_frame-Decides f c (Represents-masking c s r) (Represents-IsReceiving c s r))

by_key-Agrees :
    (f : WebsocketFrame) (c : WebsocketCodec) (s : Assembly)
    → Represents c s
    → IsOpcode f.opcode
    → (f.opcode ≡ 0 → f.fin ≡ 1)
    → f.body ≢ []
    → Agrees (on_parsed_frame f c) (by_key f.masking_key f s)
by_key-Agrees f c s r k final full = elim (Bool-cases (f.masking_key == 0)) [
  | inl e ↦ rw (e, refused_lem f c s r k full ((==_iff _ _).0 e)) (r, refl)
  | inr e ↦
      rw (e, sym (payload_full f full)) (on_parsed_frame-Agrees f (inr (ground arith)) c s r final)
]

-- A frame that fits the wire format, with its length in any form that it fits, and has a body, and
-- that is no continuation in the middle of a message, masked or not: `OnData`, by a codec that
-- waits for a header and stands where the abstract assembler stands, on a chunk that fits `size_t`
-- and begins with the frame, takes it by the key that the parser reports, which is that of an
-- earlier frame if the frame is not masked. If that key is zero, even the key of a masked frame,
-- the frame is an error and changes nothing; and else the codec does what the assembler does with
-- the body unmasked by it, even if the frame is not masked.
pub on_data-reported_key :
    (form : LengthForm) (f : WebsocketFrame) (rest : List ℕ) (c : WebsocketCodec) (s : Assembly)
    → IsSendable f
    → Fits form f.payload_length
    → (f.opcode ≡ 0 → f.fin ≡ 1)
    → f.body ≢ []
    → length (wire form f ++ rest) < 2 ^ 64
    → IsFresh c.parser
    → Represents c s
    → IsReceived Represents
        (wire form f)
        (by_key (reported_key f c.parser) f s)
        (on_data (wire form f ++ rest) 0 c)
on_data-reported_key form f rest c s i l final full fits fresh r =
    let agrees =
      by_key-Agrees (reported f c) (reported_to f c) s (moved f c s r) i.is_opcode final full in
    rw (on_data-wire form f rest c i l fits fresh) (record {
      succeeds = refl;
      takes = refl;
      announces = agrees.1;
      represents = agrees.0;
      fresh = rw ((on_parsed_frame-Keeps (reported f c) (reported_to f c)).0) (refl, refl);
    })
