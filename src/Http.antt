-- ===== src/Http.antt =====
-- woody/http: requests, responses, the codec over the request parser, handlers and the server.
pub mod Request
pub mod Codec
pub mod Response
pub mod Server
pub mod Handler
pub mod Service
