-- ===== src/Connection/Answers.antt =====
-- What an application's calls come to, while the connection is the http handler's.
use woody.Shared.{
  ◌≡◌, refl, sym, ap, ◌∙◌, Option, none, some, List, [], ◌∷◌, ◌++◌, append_assoc, All,
}
use mathlib.Core.Path.{fun_ext}
use woody.Base.StringMap.{Bytes}
use woody.Http.Request.{HttpRequest}
use woody.Http.Response.Text.{sent_text, end-sent_text}
use woody.Http.Handler.{
  HandlerAction, request_complete, force_close, call_close_callback_with_this, call_close_callback,
}
use woody.Http.Server.Routing.{first_of, on_request-first_of}
use woody.Websocket.Upgrade.{WebsocketHandler}
use woody.Connection.{
  Program, done, call_send, call_force_close, call_end, call_handle_upgrade, HttpApplication,
  new_response, Setting, ConnectionAction, sends, by_http, Run, ran, thrown, behind, and_run,
  run_program, complete_message, run_application, run_action, run_actions,
}

-- A program that does not ask for an upgrade.
abbrev pub IsPlain : Program → Type 0
IsPlain done = Unit
IsPlain (call_send text k) = IsPlain k
IsPlain (call_force_close k) = IsPlain k
IsPlain (call_end r k) = IsPlain k
IsPlain (call_handle_upgrade h r k) = ⊥

module _ (x : Setting) where
  -- The calls of a plain program, in order, with the text of each response written out.
  unfoldable pub calls_of : Program → List ConnectionAction
  calls_of done = []
  calls_of (call_send text k) = sends text ∷ calls_of k
  calls_of (call_force_close k) = by_http force_close ∷ calls_of k
  calls_of (call_end r k) = sends (sent_text x.int_to_string r) ∷ calls_of k
  calls_of (call_handle_upgrade h r k) = []

  abbrev pub program_of : Option HttpApplication → HttpRequest → Program
  program_of none req = done
  program_of (some app) req = app req (new_response x.status_code)

  -- What an action of the http handler comes to: a request is answered with the calls of the first
  -- application whose prefix is one of its url, and with nothing if there is none.
  abbrev pub answer_of : HandlerAction → List ConnectionAction
  answer_of (request_complete req) = calls_of (program_of (first_of x.server.apps req.url) req)
  answer_of force_close = by_http force_close ∷ []
  answer_of call_close_callback_with_this = by_http call_close_callback_with_this ∷ []
  answer_of call_close_callback = by_http call_close_callback ∷ []

  abbrev pub IsAnswered : HandlerAction → Type 0
  IsAnswered (request_complete req) = IsPlain (program_of (first_of x.server.apps req.url) req)
  IsAnswered force_close = Unit
  IsAnswered call_close_callback_with_this = Unit
  IsAnswered call_close_callback = Unit

  unfoldable pub answers : List HandlerAction → List ConnectionAction
  answers [] = []
  answers (a ∷ as') = answer_of a ++ answers as'

  pub answers_append :
      (as' bs : List HandlerAction) → answers (as' ++ bs) ≡ answers as' ++ answers bs
  unfolding answers
  answers_append [] bs = refl
  answers_append (a ∷ as') bs =
      ap (λ (es : List ConnectionAction). answer_of a ++ es) (answers_append as' bs)
      ∙ sym (append_assoc (answer_of a) (answers as') (answers bs))

behind_nothing : (r : Run) → behind [] r ≡ r
behind_nothing (ran w es) = refl
behind_nothing thrown = refl

behind_twice :
    (es fs : List ConnectionAction) (r : Run) → behind es (behind fs r) ≡ behind (es ++ fs) r
behind_twice es fs (ran w gs) =
    ap (λ (hs : List ConnectionAction). ran w hs) (sym (append_assoc es fs gs))
behind_twice es fs thrown = refl

behind-and_run :
    (es : List ConnectionAction) (r : Run) (next : Option WebsocketHandler → Run)
    → behind es (and_run r next) ≡ and_run (behind es r) next
behind-and_run es (ran w fs) next = behind_twice es fs (next w)
behind-and_run es thrown next = refl

and_run_twice :
    (r : Run) (first more : Option WebsocketHandler → Run)
    → and_run r (λ w. and_run (first w) more) ≡ and_run (and_run r first) more
and_run_twice (ran w es) first more = behind-and_run es (first w) more
and_run_twice thrown first more = refl

module _ (x : Setting) where
  pub run_program-plain :
      (k : Program) (req : HttpRequest) (w : Option WebsocketHandler)
      → IsPlain k
      → run_program x k req w ≡ ran w (calls_of x k)
  unfolding run_program calls_of
  run_program-plain done req w h = refl
  run_program-plain (call_send text k) req w h =
      ap (λ (r : Run). behind (sends text ∷ []) r) (run_program-plain k req w h)
  run_program-plain (call_force_close k) req w h =
      ap (λ (r : Run). behind (by_http force_close ∷ []) r) (run_program-plain k req w h)
  run_program-plain (call_end r k) req w h =
      ap (λ (t : Bytes). behind (sends t ∷ []) (run_program x k req w))
        (end-sent_text x.int_to_string r)
      ∙ ap (λ (s : Run). behind (sends (sent_text x.int_to_string r) ∷ []) s)
          (run_program-plain k req w h)
  run_program-plain (call_handle_upgrade h r k) req w p = absurd p

  run_application-program_of :
      (o : Option HttpApplication) (req : HttpRequest) (w : Option WebsocketHandler)
      → run_application x o req w ≡ run_program x (program_of x o req) req w
  unfolding run_program
  run_application-program_of none req w = refl
  run_application-program_of (some app) req w = refl

  complete_message-answer_of :
      (req : HttpRequest) (w : Option WebsocketHandler)
      → IsAnswered x (request_complete req)
      → complete_message x req w ≡ ran w (answer_of x (request_complete req))
  unfolding complete_message
  complete_message-answer_of req w h =
      ap (λ (o : Option HttpApplication). run_application x o req w)
        (on_request-first_of x.server req)
      ∙ run_application-program_of (first_of x.server.apps req.url) req w
      ∙ run_program-plain (program_of x (first_of x.server.apps req.url) req) req w h

  run_action-answer_of :
      (a : HandlerAction) (w : Option WebsocketHandler)
      → IsAnswered x a
      → run_action x a w ≡ ran w (answer_of x a)
  run_action-answer_of (request_complete req) w h = complete_message-answer_of req w h
  run_action-answer_of force_close w h = refl
  run_action-answer_of call_close_callback_with_this w h = refl
  run_action-answer_of call_close_callback w h = refl

  pub run_actions_append :
      (as' bs : List HandlerAction) (w : Option WebsocketHandler)
      → run_actions x (as' ++ bs) w ≡ and_run (run_actions x as' w) (λ w'. run_actions x bs w')
  unfolding run_actions
  run_actions_append [] bs w = sym (behind_nothing (run_actions x bs w))
  run_actions_append (a ∷ as') bs w =
      ap (λ (k : Option WebsocketHandler → Run). and_run (run_action x a w) k)
        (fun_ext (λ w'. run_actions_append as' bs w'))
      ∙ and_run_twice (run_action x a w) (λ w'. run_actions x as' w') (λ w'. run_actions x bs w')

  pub run_actions-answers :
      (as' : List HandlerAction) (w : Option WebsocketHandler)
      → All (IsAnswered x) as'
      → run_actions x as' w ≡ ran w (answers x as')
  unfolding run_actions answers
  run_actions-answers [] w h = refl
  run_actions-answers (a ∷ as') w h =
      rw (run_action-answer_of a w h.0) (rw (run_actions-answers as' w h.1) refl)
