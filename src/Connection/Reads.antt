-- ===== src/Connection/Reads.antt =====
-- Several reads of a connection: those that the http handler gets, and those that the websocket
-- handler gets.
use woody.Shared.{
  ◌≡◌, refl, sym, ap, ap₂, ◌∙◌, Option, none, some, List, [], ◌∷◌, All, map, All-parts,
}
use mathlib.Core.List.{map-append}
use mathlib.Core.Path.{subst}
use woody.Base.StringMap.{Bytes}
use woody.Net.Buffer.{Buffer}
use woody.Net.Loop.{Outcome, finished}
use woody.Net.Loop.Reads.{Served, served, behind_actions, reads}
use woody.Net.Loop.Reads.First.{first_lem}
use woody.Http.Codec.{HttpCodec, ParserRun}
use woody.Http.Handler.{HandlerAction, http_handler_on_data}
use woody.Http.Handler.Session.{http_reads}
use woody.Websocket.Codec.{WebsocketCodec}
use woody.Websocket.Handler.{Action, handler_on_data}
use woody.Websocket.Handler.Reads.{handler_reads}
use woody.Websocket.Upgrade.{WebsocketHandler}
use woody.Connection.{ConnectionAction, by_websocket, Connection, Setting, on_read, behind_http}
use woody.Connection.Answers.{IsAnswered, answers, answers_append, run_actions-answers}

abbrev pub connection : {P : Type 0} → P × HttpCodec → Option WebsocketHandler → Connection P
connection s w = record { http = s; websocket = w }

-- The websocket handler with its codec behind some reads.
abbrev pub with_codec : WebsocketHandler → WebsocketCodec → WebsocketHandler
with_codec h c = record h { ws_codec = c }

served_codec :
    {S E : Type 0} {c d : S} {as' bs : List E} → some (served c as') ≡ some (served d bs) → c ≡ d
served_codec e = cc

served_actions :
    {S E : Type 0} {c d : S} {as' bs : List E} → some (served c as') ≡ some (served d bs) → as' ≡ bs
served_actions e = cc

module _ {P : Type 0} (x : Setting) (m : Buffer) (execute : P → Bytes → ParserRun P) where
  open m use {Buf}

  unfoldable pub connection_reads :
      List Buf → Connection P → Option (Served (Connection P) ConnectionAction)
  connection_reads bs c = reads (on_read x m execute) bs c

  http_step :
      (o : Outcome Buf (P × HttpCodec) HandlerAction) (b : Buf) (s : P × HttpCodec)
      (as' : List HandlerAction)
      → o ≡ finished b s as'
      → All (IsAnswered x) as'
      → behind_http x o ≡ finished b (connection s none) (answers x as')
  http_step o b s as' e h = rw e (rw (run_actions-answers x as' none h) refl)

  -- Reads of the http handler whose requests ask for no upgrade.
  pub connection_reads-http :
      (bs : List Buf) (s s' : P × HttpCodec) (as' : List HandlerAction)
      → http_reads m execute bs s ≡ some (served s' as')
      → All (IsAnswered x) as'
      → connection_reads bs (connection s none) ≡ some (served (connection s' none) (answers x as'))
  unfolding connection_reads http_reads reads on_read answers
  connection_reads-http [] s s' as' e h =
      ap₂
        (λ (t : P × HttpCodec) (es : List HandlerAction).
          some (served (connection t none) (answers x es)))
        (served_codec e) (served_actions e)
  connection_reads-http (b ∷ bs) s s' as' e h =
      let f =
        first_lem (http_handler_on_data m execute b s)
          (λ t. reads (http_handler_on_data m execute) bs t) (served s' as') e in
      let rest = f.rest in
      let (first_ok, rest_ok) = All-parts (IsAnswered x) f.actions rest.actions (
        subst (λ (as2 : List HandlerAction). All (IsAnswered x) as2)
          (ap (λ (v : Served (P × HttpCodec) HandlerAction). v.actions) f.whole) h) in
      rw (http_step _ f.buffer f.codec f.actions f.ends first_ok) (
        ap
          (λ (o : Option (Served (Connection P) ConnectionAction)).
            behind_actions (answers x f.actions) o)
          (connection_reads-http bs f.codec rest.codec rest.actions f.goes_on rest_ok)
        ∙ ap (λ (es : List ConnectionAction). some (served (connection rest.codec none) es))
            (sym (answers_append x f.actions rest.actions))
        ∙ ap
            (λ (v : Served (P × HttpCodec) HandlerAction).
              some (served (connection v.codec none) (answers x v.actions)))
            (sym f.whole))

  -- Reads of the websocket handler.
  pub connection_reads-websocket :
      (bs : List Buf) (s : P × HttpCodec) (h : WebsocketHandler) (c : WebsocketCodec)
      (as' : List Action)
      → handler_reads m bs h.ws_codec ≡ some (served c as')
      → connection_reads bs (connection s (some h))
        ≡ some (served (connection s (some (with_codec h c))) (map by_websocket as'))
  unfolding connection_reads handler_reads reads on_read
  connection_reads-websocket [] s h c as' e =
      ap₂
        (λ (c' : WebsocketCodec) (es : List Action).
          some (served (connection s (some (with_codec h c'))) (map by_websocket es)))
        (served_codec e) (served_actions e)
  connection_reads-websocket (b ∷ bs) s h c as' e =
      let f =
        first_lem (handler_on_data m b h.ws_codec) (λ c'. reads (handler_on_data m) bs c')
          (served c as') e in
      let rest = f.rest in
      rw f.ends (
        ap
          (λ (o : Option (Served (Connection P) ConnectionAction)).
            behind_actions (map by_websocket f.actions) o)
          (connection_reads-websocket bs s (with_codec h f.codec) rest.codec rest.actions f.goes_on)
        ∙ ap
            (λ (es : List ConnectionAction).
              some (served (connection s (some (with_codec h rest.codec))) es))
            (sym (map-append by_websocket f.actions rest.actions))
        ∙ ap
            (λ (v : Served WebsocketCodec Action).
              some
                (served (connection s (some (with_codec h v.codec))) (map by_websocket v.actions)))
            (sym f.whole))
