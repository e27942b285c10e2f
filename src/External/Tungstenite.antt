-- ===== src/External/Tungstenite.antt =====
-- The crate `tokio_tungstenite`: the sending half of a websocket, and what comes out of the other half.
use stateless_payments.Common.{Bytes}
use stateless_payments.Common.Outcome.{Result}

pub record Tungstenite : Type 1 where
  pub Sink : Type 0
  pub WsError : Type 0
  pub send : Bytes → Sink → Result WsError (Unit {0}) × Sink
  pub close : Sink → Result WsError (Unit {0}) × Sink

-- `Message`; `other` is each of its kinds but text and the close frame.
pub data WsFrame : Type 0 where
  text : Bytes → WsFrame
  close_frame : WsFrame
  other : WsFrame
