-- ===== src/Websocket/Codec/Assembly.antt =====
-- How the frames' handlers put messages together, against an abstract assembler. The assembler
-- keeps the message that is being received; the codec keeps two buffers and a type.
use woody.Shared.{
  ==_iff, ap₂, All, ℕ, ◌≡◌, ◌≢◌, refl, ◌⊎◌, inl, inr, true, List, [], ◌∷◌, ◌++◌, ◌==◌,
  if◌then◌else◌, arith, Bool-cases,
}
use woody.Websocket.Frame.{WebsocketFrame, un_mask}
use woody.Websocket.Message.{
  none_message, text_message, binary_message, WebsocketMessage, new_message, append, clean_up,
}
use woody.Websocket.Codec.{
  Event, on_text, on_binary, on_close, on_ping, on_pong, on_error, WebsocketCodec, Handled,
  is_empty, handle_frame_body, append_text, append_binary, on_continuation_frame, on_text_frame,
  on_binary_frame, on_close_frame, on_ping_frame, on_pong_frame, on_parsed_frame,
}

pub data Kind : Type 0 where
  text binary : Kind

pub data Assembly : Type 0 where
  idle : Assembly
  partial : Kind → List ℕ → Assembly

-- What a machine comes to, the assembler or another one.
pub record Assembled (S : Type 0) : Type 0 where
  pub assembly : S
  pub events : List Event

abbrev pub message : List ℕ → WebsocketMessage
message bytes = record { type = none_message; contents = bytes }

abbrev pub announce : Kind → List ℕ → Event
announce text bytes = on_text (message bytes)
announce binary bytes = on_binary (message bytes)

abbrev pub assembled : {S : Type 0} → S → List Event → Assembled S
assembled s es = record { assembly = s; events = es }

-- More bytes of a message: on the final frame it is announced.
abbrev pub grow : Kind → List ℕ → ℕ → Assembled Assembly
grow k bytes fin =
    if fin == 1 then assembled idle (announce k bytes ∷ []) else assembled (partial k bytes) []

abbrev pub start : Kind → List ℕ → ℕ → Assembly → Assembled Assembly
start k bytes fin idle = grow k bytes fin
start k bytes fin (partial k' bytes') = assembled (partial k' bytes') (on_error ∷ [])

abbrev pub continue : List ℕ → ℕ → Assembly → Assembled Assembly
continue bytes fin idle = assembled idle (on_error ∷ [])
continue bytes fin (partial k bytes') = grow k (bytes' ++ bytes) fin

-- The abstract assembler: one frame's opcode, final bit and payload.
unfoldable pub assemble : ℕ → ℕ → List ℕ → Assembly → Assembled Assembly
assemble opcode fin bytes s =
    if opcode == 0
    then continue bytes fin s
    else if opcode == 1
    then start text bytes fin s
    else if opcode == 2
    then start binary bytes fin s
    else if opcode == 8
    then assembled s (on_close (message bytes) ∷ [])
    else if opcode == 9
    then assembled s (on_ping new_message ∷ [])
    else if opcode == 10
    then assembled s (on_pong new_message ∷ [])
    else assembled s []

-- The codec's fields that stand for an assembler's state.
abbrev pub Represents : WebsocketCodec → Assembly → Type 0
Represents c idle =
    (c.is_expected_masking ≡ true)
    × (c.cur_message_type ≡ none_message)
    × (c.text ≡ new_message)
    × (c.binary ≡ new_message)
Represents c (partial text bytes) =
    (c.is_expected_masking ≡ true)
    × (c.cur_message_type ≡ text_message)
    × (c.text ≡ message bytes)
    × (c.binary ≡ new_message)
Represents c (partial binary bytes) =
    (c.is_expected_masking ≡ true)
    × (c.cur_message_type ≡ binary_message)
    × (c.text ≡ new_message)
    × (c.binary ≡ message bytes)

-- A frame whose body the codec takes: it has none, or it reports a key that is not zero.
abbrev pub IsTaken : WebsocketFrame → Type 0
IsTaken f = (f.body ≡ []) ⊎ (f.masking_key ≢ 0)

-- The payload of such a frame.
unfoldable pub payload : WebsocketFrame → List ℕ
payload f = if is_empty f.body then [] else un_mask f.body f.masking_key

pub handle_frame_body_lem :
    (f : WebsocketFrame) (c : WebsocketCodec)
    → c.is_expected_masking ≡ true
    → IsTaken f
    → handle_frame_body f c ≡ record { success = true; handled_body = payload f; events = [] }
unfolding handle_frame_body payload
handle_frame_body_lem f c e t = ground arith

-- A handler's result against the assembler's.
abbrev pub Agrees : Handled → Assembled Assembly → Type 0
Agrees h a = Represents h.codec a.assembly × (h.events ≡ a.events)

module _ (f : WebsocketFrame) (t : IsTaken f) where
  on_text_frame-Agrees :
      (c : WebsocketCodec) (s : Assembly)
      → Represents c s
      → Agrees (on_text_frame f c) (start text (payload f) f.fin s)
  unfolding on_text_frame append_text append clean_up
  on_text_frame-Agrees c idle r = rw (handle_frame_body_lem f c r.0 t) (ground arith)
  on_text_frame-Agrees c (partial text bytes) r =
      rw (handle_frame_body_lem f c r.0 t) (ground arith)
  on_text_frame-Agrees c (partial binary bytes) r =
      rw (handle_frame_body_lem f c r.0 t) (ground arith)

  on_binary_frame-Agrees :
      (c : WebsocketCodec) (s : Assembly)
      → Represents c s
      → Agrees (on_binary_frame f c) (start binary (payload f) f.fin s)
  unfolding on_binary_frame append_binary append clean_up
  on_binary_frame-Agrees c idle r = rw (handle_frame_body_lem f c r.0 t) (ground arith)
  on_binary_frame-Agrees c (partial text bytes) r =
      rw (handle_frame_body_lem f c r.0 t) (ground arith)
  on_binary_frame-Agrees c (partial binary bytes) r =
      rw (handle_frame_body_lem f c r.0 t) (ground arith)

  -- A continuation agrees when it ends its message, or when there is no message.
  on_continuation_frame-Agrees :
      (c : WebsocketCodec) (s : Assembly)
      → Represents c s
      → f.fin ≡ 1
      → Agrees (on_continuation_frame f c) (continue (payload f) f.fin s)
  unfolding on_continuation_frame append_text append_binary append clean_up
  on_continuation_frame-Agrees c idle r e = rw (handle_frame_body_lem f c r.0 t) (ground arith)
  on_continuation_frame-Agrees c (partial text bytes) r e =
      rw (handle_frame_body_lem f c r.0 t) (ground arith)
  on_continuation_frame-Agrees c (partial binary bytes) r e =
      rw (handle_frame_body_lem f c r.0 t) (ground arith)

  keeps_state : (c : WebsocketCodec) (s : Assembly) → Represents c s → c.is_expected_masking ≡ true
  keeps_state c idle r = r.0
  keeps_state c (partial text bytes) r = r.0
  keeps_state c (partial binary bytes) r = r.0

  on_close_frame-Agrees :
      (c : WebsocketCodec) (s : Assembly)
      → Represents c s
      → Agrees (on_close_frame f c) (assembled s (on_close (message (payload f)) ∷ []))
  unfolding on_close_frame append
  on_close_frame-Agrees c s r = rw (handle_frame_body_lem f c (keeps_state c s r) t) (r, refl)

  on_ping_frame-Agrees :
      (c : WebsocketCodec) (s : Assembly)
      → Represents c s
      → Agrees (on_ping_frame f c) (assembled s (on_ping new_message ∷ []))
  unfolding on_ping_frame
  on_ping_frame-Agrees c s r = rw (handle_frame_body_lem f c (keeps_state c s r) t) (r, refl)

  on_pong_frame-Agrees :
      (c : WebsocketCodec) (s : Assembly)
      → Represents c s
      → Agrees (on_pong_frame f c) (assembled s (on_pong new_message ∷ []))
  unfolding on_pong_frame
  on_pong_frame-Agrees c s r = rw (handle_frame_body_lem f c (keeps_state c s r) t) (r, refl)

  -- One frame: if a continuation frame is final, the codec does what the assembler does.
  pub on_parsed_frame-Agrees :
      (c : WebsocketCodec) (s : Assembly)
      → Represents c s
      → (f.opcode ≡ 0 → f.fin ≡ 1)
      → Agrees (on_parsed_frame f c) (assemble f.opcode f.fin (payload f) s)
  unfolding on_parsed_frame assemble
  on_parsed_frame-Agrees c s r final = elim (Bool-cases (f.opcode == 0)) [
    | inl e ↦ rw e (on_continuation_frame-Agrees c s r (final ((==_iff _ _).0 e)))
    | inr e0 ↦ rw e0 (elim (Bool-cases (f.opcode == 1)) [
      | inl e ↦ rw e (on_text_frame-Agrees c s r)
      | inr e1 ↦ rw e1 (elim (Bool-cases (f.opcode == 2)) [
        | inl e ↦ rw e (on_binary_frame-Agrees c s r)
        | inr e2 ↦ rw e2 (elim (Bool-cases (f.opcode == 8)) [
          | inl e ↦ rw e (on_close_frame-Agrees c s r)
          | inr e8 ↦ rw e8 (elim (Bool-cases (f.opcode == 9)) [
            | inl e ↦ rw e (on_ping_frame-Agrees c s r)
            | inr e9 ↦ rw e9 (elim (Bool-cases (f.opcode == 10)) [
              | inl e ↦ rw e (on_pong_frame-Agrees c s r)
              | inr e10 ↦ rw e10 (r, refl)
            ])
          ])
        ])
      ])
    ])
  ]

-- A sequence of frames, and what the callbacks are given for it.
unfoldable pub receive : List WebsocketFrame → WebsocketCodec → List Event
receive [] c = []
receive (f ∷ fs) c = let h = on_parsed_frame f c in h.events ++ receive fs h.codec

unfoldable pub assemble_all : List WebsocketFrame → Assembly → List Event
assemble_all [] s = []
assemble_all (f ∷ fs) s =
    let a = assemble f.opcode f.fin (payload f) s in a.events ++ assemble_all fs a.assembly

-- A frame that the codec takes and that is no continuation in the middle of a message.
abbrev pub IsSimple : WebsocketFrame → Type 0
IsSimple f = IsTaken f × (f.opcode ≡ 0 → f.fin ≡ 1)

-- Over any sequence of frames that are each empty or have a non-zero key, and of which every
-- continuation frame is final, the callbacks of a codec that stands where the abstract assembler
-- stands are those of the assembler, in order.
pub receive-eq-assemble_all :
    (fs : List WebsocketFrame) (c : WebsocketCodec) (s : Assembly)
    → All IsSimple fs
    → Represents c s
    → receive fs c ≡ assemble_all fs s
unfolding receive assemble_all
receive-eq-assemble_all [] c s h r = refl
receive-eq-assemble_all (f ∷ fs) c s h r =
    let a = on_parsed_frame-Agrees f h.0.0 c s r h.0.1 in
    ap₂ ◌++◌ a.1 (receive-eq-assemble_all fs _ _ h.1 a.0)
