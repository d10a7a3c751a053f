-- ===== src/Websocket/Codec/Fragments.antt =====
-- Messages of three fragments, which the codec's handlers do not keep together: a continuation
-- frame in the middle of a message ends it without announcing it.
use woody.Shared.{◌∙◌, ℕ, ◌≡◌, refl, true, List, [], ◌∷◌, ◌++◌, arith}
use woody.Websocket.Frame.{WebsocketFrame}
use woody.Websocket.Message.{append, none_message, text_message}
use woody.Websocket.Codec.{
  on_text, on_error, WebsocketCodec, append_text, on_continuation_frame, on_text_frame,
  on_parsed_frame,
}
use woody.Websocket.Codec.Assembly.{
  Represents, idle, IsTaken, payload, message, handle_frame_body_lem, receive,
}

-- A frame's place in a message.
pub record IsFragment (f : WebsocketFrame) (opcode fin : ℕ) : Type 0 where
  pub taken : IsTaken f
  pub has_opcode : f.opcode ≡ opcode
  pub has_fin : f.fin ≡ fin

start_text :
    (f : WebsocketFrame) (c : WebsocketCodec)
    → c.is_expected_masking ≡ true
    → c.cur_message_type ≡ none_message
    → IsFragment f 1 0
    → on_parsed_frame f c ≡ record {
      success = true;
      codec = record c {
        cur_message_type = text_message;
        text = record { type = c.text.type; contents = c.text.contents ++ payload f };
      };
      events = [];
    }
unfolding on_parsed_frame on_text_frame append_text append
start_text f c e n i = rw (handle_frame_body_lem f c e i.taken) (ground arith)

-- The type falls back to none, and the buffer keeps what it has.
middle_text :
    (f : WebsocketFrame) (c : WebsocketCodec)
    → c.is_expected_masking ≡ true
    → c.cur_message_type ≡ text_message
    → IsFragment f 0 0
    → on_parsed_frame f c ≡ record {
      success = true;
      codec = record c {
        cur_message_type = none_message;
        text = record { type = c.text.type; contents = c.text.contents ++ payload f };
      };
      events = [];
    }
unfolding on_parsed_frame on_continuation_frame append_text append
middle_text f c e n i = rw (handle_frame_body_lem f c e i.taken) (ground arith)

whole_text_events :
    (f : WebsocketFrame) (c : WebsocketCodec)
    → c.is_expected_masking ≡ true
    → c.cur_message_type ≡ none_message
    → IsFragment f 1 1
    → (on_parsed_frame f c).events
      ≡ on_text (record { type = c.text.type; contents = c.text.contents ++ payload f }) ∷ []
unfolding on_parsed_frame on_text_frame append_text append
whole_text_events f c e n i = rw (handle_frame_body_lem f c e i.taken) (ground arith)

unexpected_events :
    (f : WebsocketFrame) (c : WebsocketCodec)
    → c.is_expected_masking ≡ true
    → c.cur_message_type ≡ none_message
    → IsTaken f
    → f.opcode ≡ 0
    → (on_parsed_frame f c).events ≡ on_error ∷ []
unfolding on_parsed_frame on_continuation_frame
unexpected_events f c e n t o = rw (handle_frame_body_lem f c e t) (ground arith)

module _ (c : WebsocketCodec) (r : Represents c idle) (f g : WebsocketFrame)
    (first : IsFragment f 1 0) (middle : IsFragment g 0 0) where
  -- The first two fragments of a text message announce nothing and leave their bytes in the buffer.
  abbrev between : WebsocketCodec
  between = record c {
    cur_message_type = none_message;
    text = record { type = c.text.type; contents = (c.text.contents ++ payload f) ++ payload g };
  }

  receive_two : (fs : List WebsocketFrame) → receive (f ∷ g ∷ fs) c ≡ receive fs between
  unfolding receive
  receive_two fs = rw (start_text f c r.0 r.1 first) (
      rw
        (middle_text g
          (record c {
            cur_message_type = text_message;
            text = record { type = c.text.type; contents = c.text.contents ++ payload f };
          })
          r.0 refl middle)
        refl)

-- An idle codec that receives the first frame of a text message, which is not final, then a
-- continuation frame that is not final, and then another continuation frame, each empty or with a
-- non-zero key, makes the error callback at the third frame and no other callback.
pub receive_three_fragments :
    (c : WebsocketCodec) (f g h : WebsocketFrame)
    → Represents c idle
    → IsFragment f 1 0
    → IsFragment g 0 0
    → IsTaken h
    → h.opcode ≡ 0
    → receive (f ∷ g ∷ h ∷ []) c ≡ on_error ∷ []
receive_three_fragments c f g h r first middle t o =
    receive_two c r f g first middle (h ∷ [])
    ∙ unfold receive in cc (unexpected_events h (between c r f g first middle) r.0 refl t o)

-- An idle codec that receives the first frame of a text message, which is not final, then a
-- continuation frame that is not final, and then a text message of one frame, each empty or with a
-- non-zero key, makes one callback, which announces the payloads of all three frames as one text
-- message.
pub receive_leaked_fragments :
    (c : WebsocketCodec) (f g h : WebsocketFrame)
    → Represents c idle
    → IsFragment f 1 0
    → IsFragment g 0 0
    → IsFragment h 1 1
    → receive (f ∷ g ∷ h ∷ []) c ≡ on_text (message ((payload f ++ payload g) ++ payload h)) ∷ []
receive_leaked_fragments c f g h r first middle last =
    receive_two c r f g first middle (h ∷ [])
    ∙ unfold receive in cc (whole_text_events h (between c r f g first middle) r.0 refl last, r.2)
