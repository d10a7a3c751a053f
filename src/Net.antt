-- ===== src/Net.antt =====
-- What the handlers take from the network library, and the reading loop that they share.
pub mod Buffer
pub mod Loop
