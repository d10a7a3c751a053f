-- ===== src/Websocket/Service.antt =====
-- A websocket connection from its handshake on: `HandleUpgrade` hands the connection to the handler,
-- whose `OnData` gets every read from then on.
use woody.Shared.{ℕ, ◌≡◌, refl, inl, inr, true, Option, some, List, All}
use mathlib.Core.Path.{subst}
use woody.Base.StringMap.{Bytes}
use woody.Net.Buffer.{Buffer}
use woody.Http.Request.{HttpRequest}
use woody.Http.Response.{HttpResponse}
use woody.Websocket.Parser.{WebsocketParser}
use woody.Websocket.Codec.{new_codec}
use woody.Websocket.Codec.Assembly.{idle}
use woody.Websocket.Codec.Assembler.{protocol}
use woody.Websocket.Handler.Delivery.{assemble_stream}
use woody.Websocket.Handler.Reads.{handler_reads, IsServed}
use woody.Websocket.Handler.Session.{Arrival, Holds, all_frames, all_reads, session-IsServed}
use woody.Websocket.Upgrade.{WebsocketHandler, Upgrade, upgraded, handle_upgrade}
use woody.Websocket.Upgrade.Protocols.{offered, with_protocols}
use woody.Websocket.Upgrade.Cases.{
  header, IsRefused, wrong_method, wrong_key, wrong_version, IsAccepted, IsRight, success, Ends,
  ends_refused, ends_thrown, ends_upgraded, handle_upgrade-Ends,
}

some_once : {v w : Bytes} (o : Option Bytes) → o ≡ some v → o ≡ some w → v ≡ w
some_once o e f = cc (e, f)

right_value : {P : Bytes → Type 0} (v : Bytes) (o : Option Bytes) → IsRight o P → o ≡ some v → P v
right_value v o (inl n) e = absurd (cc (n, e))
right_value {P} v o (inr (w, f, p)) e = subst P (some_once o f e) p

module _ (get_digest : Bytes → List ℕ) (int_to_string : ℕ → Bytes)
    (string_to_int : Bytes → Option ℕ) (split : Bytes → Bytes → List Bytes) where
  not_refused : (req : HttpRequest) → IsAccepted string_to_int req → IsRefused string_to_int req → ⊥
  not_refused req a (wrong_method n) = n a.is_get
  not_refused req a (wrong_key k e n) = n (right_value k _ a.right_key e)
  not_refused req a (wrong_version v n e c ne) =
      ne (let t = right_value v _ a.right_version e in cc (t, c))

  pub Ends-success :
      (h : WebsocketHandler) (req : HttpRequest) (resp : HttpResponse) (r : Upgrade)
      → IsAccepted string_to_int req
      → Ends get_digest int_to_string string_to_int split h req resp r
      → r ≡ success get_digest int_to_string string_to_int split h req resp
  Ends-success h req resp _ a (ends_refused w) = absurd (not_refused req a w)
  Ends-success h req resp _ a (ends_thrown v g k e c) =
      absurd (let t = right_value v _ a.right_version e in cc (t, c))
  Ends-success h req resp _ a (ends_upgraded b) = refl

  -- A handler that was just made gets a request with the method GET, a key that decodes to 16 bytes,
  -- or none, and a version that casts to 13, or none: it accepts, and has its connection. If the
  -- client's frames then arrive as `Holds` says (in reads with whole frames, of which those behind
  -- the first fit in front of an emptied buffer, or cut over several reads, the first with the whole
  -- header), then the upgraded handler gets through all the reads, and its actions are the
  -- application's callbacks for what the abstract assembler makes of all the payloads, in order.
  pub handle_upgrade-IsServed :
      (m : Buffer) (p : WebsocketParser) (h : WebsocketHandler) (req : HttpRequest)
      (resp : HttpResponse) (as' : List (Arrival m))
      → h.ws_codec ≡ new_codec p
      → IsAccepted string_to_int req
      → All (Holds protocol m) as'
      → (h' : WebsocketHandler) × (text : Bytes) × (handle_upgrade get_digest int_to_string
            string_to_int split h req resp
          ≡ upgraded h' text)
        × (h'.has_conn ≡ true)
        × IsServed protocol
            (assemble_stream protocol (all_frames m as') idle)
            (handler_reads m (all_reads m as') h'.ws_codec)
  handle_upgrade-IsServed m p h req resp as' made a holds = (
    with_protocols (offered split (header "Sec-WebSocket-Protocol" req)) h,
    _,
    Ends-success h req resp _ a
        (handle_upgrade-Ends get_digest int_to_string string_to_int split h req resp),
    refl,
    rw made (session-IsServed m as' (new_codec p) idle holds (refl, refl) (refl, refl, refl, refl)),
  )
