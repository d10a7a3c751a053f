-- ===== src/Websocket/Upgrade/Protocols.antt =====
-- woody/websocket/websocket_handler.cc: the sub-protocols that a request for an upgrade offers.
use woody.Shared.{
  ◌≡◌, refl, ap, ◌∙◌, inl, inr, true, not, ◌&&◌, Option, none, some, List, [], ◌∷◌, ◌++◌,
  append-nil, append_assoc, map, length, ◌==◌, Bool-cases, if◌then◌else◌,
}
use woody.Shared.Text.{codes}
use woody.Base.StringMap.{Bytes}
use woody.Bytree.StringUtil.{trim}
use woody.Http.Request.{found}
use woody.Websocket.Upgrade.{
  WebsocketHandler, is_space, add_sub_protocol, add_sub_protocols, set_callback,
}

-- The sub-protocols that a request offers.
unfoldable pub offered : (Bytes → Bytes → List Bytes) → Option Bytes → List Bytes
offered split none = []
offered split (some v) =
    if length v == 0 then [] else map (λ (p : Bytes). trim is_space p) (split v (codes ","))

-- The handler behind an upgrade: nothing changes but the connection and the sub-protocols.
abbrev pub with_protocols : List Bytes → WebsocketHandler → WebsocketHandler
with_protocols ps h = record h { has_conn = true; sub_protocols = h.sub_protocols ++ ps }

with_protocols-nil : (h : WebsocketHandler) → set_callback h ≡ with_protocols [] h
unfolding set_callback
with_protocols-nil h = rw (append-nil h.sub_protocols) refl

set_callback-add_sub_protocols :
    (ps : List Bytes) (h : WebsocketHandler)
    → set_callback (add_sub_protocols ps h)
      ≡ with_protocols (map (λ (p : Bytes). trim is_space p) ps) h
unfolding add_sub_protocols add_sub_protocol
set_callback-add_sub_protocols [] h = with_protocols-nil h
set_callback-add_sub_protocols (p ∷ ps) h =
    set_callback-add_sub_protocols ps (add_sub_protocol (trim is_space p) h)
    ∙ ap (λ (qs : List Bytes). record h { has_conn = true; sub_protocols = qs })
        (append_assoc h.sub_protocols (trim is_space p ∷ [])
          (map (λ (p : Bytes). trim is_space p) ps))

module _ (split : Bytes → Bytes → List Bytes) where
  pub protocols_lem :
      (o : Option Bytes) (h : WebsocketHandler)
      → set_callback (
          if (found o []).success && not (length (found o []).value == 0)
          then add_sub_protocols (split (found o []).value (codes ",")) h
          else h)
        ≡ with_protocols (offered split o) h
  unfolding offered
  protocols_lem none h = with_protocols-nil h
  protocols_lem (some v) h = elim (Bool-cases (length v == 0)) [
    | inl e ↦ rw e (with_protocols-nil h)
    | inr e ↦ rw e (set_callback-add_sub_protocols (split v (codes ",")) h)
  ]
