-- ===== src/Connection/Branches.antt =====
-- Every way in which a read ends that brings a request for an upgrade.
use woody.Shared.{◌≡◌, Bool, true, false, none, some, [], ◌∷◌, append-nil}
use woody.Net.Buffer.{Buffer}
use woody.Net.Loop.{Outcome, finished, bad_cast}
use woody.Http.Request.{HttpRequest}
use woody.Http.Response.{HttpResponse}
use woody.Base.StringMap.{Bytes}
use woody.Http.Codec.{HttpCodec, ParserRun}
use woody.Http.Handler.{request_complete, http_handler_on_data}
use woody.Http.Server.Routing.{first_of, on_request-first_of}
use woody.Websocket.Upgrade.{WebsocketHandler, Upgrade, handle_upgrade}
use woody.Websocket.Upgrade.Cases.{
  header, IsRefused, IsAccepted, Ends, ends_refused, ends_thrown, ends_upgraded,
  handle_upgrade-Ends,
}
use woody.Connection.{
  Program, call_handle_upgrade, HttpApplication, new_response, Setting, ConnectionAction, sends,
  Connection, ran, and_run, behind_upgrade, run_program, complete_message, run_actions, end_of_run,
  on_read,
}
use woody.Connection.Answers.{IsPlain, calls_of, run_program-plain}
use woody.Connection.Reads.{connection}
use woody.Connection.Upgraded.{taken, switching, switching_lem}

module _ (x : Setting) where
  -- An application that first asks for the upgrade of a request, and then goes on by whether it was
  -- upgraded, with no second upgrade.
  pub record Asks (req : HttpRequest) (h : WebsocketHandler) (r : HttpResponse)
      (goes_on : Bool → Program) : Type 0 where
    pub app : HttpApplication
    pub routed : first_of x.server.apps req.url ≡ some app
    pub asks : app req (new_response x.status_code) ≡ call_handle_upgrade h r goes_on
    pub plain : (b : Bool) → IsPlain (goes_on b)

  -- How such a read ends, and why.
  pub data ReadEnds {B P : Type 0} (b : B) (s : P × HttpCodec) (req : HttpRequest)
      (h : WebsocketHandler) (r : HttpResponse) (goes_on : Bool → Program)
      : Outcome B (Connection P) ConnectionAction → Type 0 where
    stays :
        IsRefused x.string_to_int req
        → ReadEnds b s req h r goes_on (finished b (connection s none) (calls_of x (goes_on false)))
    throws :
        (v : Bytes)
        → header "Sec-WebSocket-Version" req ≡ some v
        → x.string_to_int v ≡ none
        → ReadEnds b s req h r goes_on bad_cast
    switches :
        IsAccepted x.string_to_int req
        → ReadEnds b s req h r goes_on (
            finished b
              (connection s (some (taken x h req)))
              (sends (switching x req r) ∷ calls_of x (goes_on true)))

  by_upgrade :
      {B P : Type 0} (b : B) (s : P × HttpCodec) (req : HttpRequest) (h : WebsocketHandler)
      (r : HttpResponse) (goes_on : Bool → Program) (u : Upgrade)
      → ((b : Bool) → IsPlain (goes_on b))
      → Ends x.get_digest x.int_to_string x.string_to_int x.split h req r u
      → ReadEnds b s req h r goes_on (
          end_of_run x b s (
            and_run
              (behind_upgrade u none (λ b w. run_program x (goes_on b) req w))
              (λ w. ran w [])))
  by_upgrade b s req h r goes_on _ plain (ends_refused w) =
      rw (run_program-plain x (goes_on false) req none (plain false))
        (rw (append-nil (calls_of x (goes_on false))) (stays w))
  by_upgrade b s req h r goes_on _ plain (ends_thrown v g k e c) = throws v e c
  by_upgrade b s req h r goes_on _ plain (ends_upgraded a) =
      rw
        (
          run_program-plain x (goes_on true) req (some (taken x h req)) (plain true),
          switching_lem x req r,
        )
        (rw (append-nil (calls_of x (goes_on true))) (switches a))

  module _ {P : Type 0} (m : Buffer) (execute : P → Bytes → ParserRun P) where
    open m use {Buf}

    -- A read of a connection that is no websocket yet, for which the http handler's loop ends by
    -- itself behind one complete request, whose application first asks for an upgrade and goes on
    -- without a second one. The read ends in one of three ways, and only for the reasons given with
    -- it. It ends by itself with no upgrade, and what is done is what the application calls when it
    -- is refused, if the method is not GET, or there is a key that does not decode to 16 bytes, or a
    -- version that casts to another number than 13. The exception ends the program if there is a
    -- version that is no number. And else, if key and version, where there are any, are right, the
    -- websocket handler has the connection, and the text that switches the protocol is sent in front
    -- of what the application calls then.
    pub on_read-ReadEnds :
        (b b' : Buf) (s s' : P × HttpCodec) (req : HttpRequest) (h : WebsocketHandler)
        (r : HttpResponse) (goes_on : Bool → Program)
        → http_handler_on_data m execute b s ≡ finished b' s' (request_complete req ∷ [])
        → Asks req h r goes_on
        → ReadEnds b' s' req h r goes_on (on_read x m execute b (connection s none))
    unfolding on_read run_actions complete_message run_program
    on_read-ReadEnds b b' s s' req h r goes_on e a =
        rw (e, on_request-first_of x.server req, a.routed, a.asks)
          (by_upgrade b' s' req h r goes_on
            (handle_upgrade x.get_digest x.int_to_string x.string_to_int x.split h req r) a.plain
            (handle_upgrade-Ends x.get_digest x.int_to_string x.string_to_int x.split h req r))
