-- ===== src/Websocket/Message.antt =====
-- woody/websocket/websocket_message.h and websocket_message.cc. `is_complete_`, which nothing
-- sets and nothing but its getter reads, is left out.
use woody.Shared.{List, [], ◌++◌, ℕ}

pub data MessageType : Type 0 where
  none_message text_message binary_message close_message ping_message pong_message : MessageType

pub record WebsocketMessage : Type 0 where
  pub type : MessageType
  pub contents : List ℕ

-- The constructor. The derived classes call it with no argument, so each of them has the type
-- `none_message`.
abbrev pub new_message : WebsocketMessage
new_message = record { type = none_message; contents = [] }

unfoldable pub append : List ℕ → WebsocketMessage → WebsocketMessage
append bytes m = record m { contents = m.contents ++ bytes }

unfoldable pub clean_up : WebsocketMessage → WebsocketMessage
clean_up m = record m { contents = [] }
