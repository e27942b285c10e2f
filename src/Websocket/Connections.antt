-- ===== src/Websocket/Connections.antt =====
-- src/websocket/server/connection.rs: the task that serves a connection, and the guard that removes
-- the connection from the server's table once the task has ended. Tasks take turns between the calls
-- that hold the lock of the server's state.
pub mod Served
pub mod Late
use stateless_payments.Common.{
  ℕ, Bool, true, false, Option, none, some, List, [], ◌∷◌, ◌==◌, if◌then◌else◌, ◌≡◌, any, arith,
}
use stateless_payments.Common.Outcome.{Result, ok, err, panic, on_ok, ok_or, ◌>>=◌}
use stateless_payments.External.Bls.{Bls}
use stateless_payments.External.Sha2.{Sha256}
use stateless_payments.External.RsMerkle.{RsMerkle}
use stateless_payments.External.IndexMap.{IndexMap}
use stateless_payments.External.Tungstenite.{Tungstenite, WsFrame}
use stateless_payments.Types.PublicKey.{BlsPublicKeyWrapper, wrap, wrapper_Eq}
use stateless_payments.Types.Transaction.{SerdeTransaction, sha256_algorithm_hash}
use stateless_payments.Types.Errors.{
  CrateResult, anyhow, must_send_public_key, connection_closed, websocket_error, invalid_json,
}
use stateless_payments.Types.Balance.Serde.{KeyCodec}
use stateless_payments.Aggregator.{TxMetadata}
use stateless_payments.Websocket.Messages.{
  WsMessage, SerdeWsMessage, parse_ws_message, c_add_connection,
}
use stateless_payments.Websocket.ServerState.{
  Connection, ServerState, add_connection, remove_connection,
}
use stateless_payments.Websocket.Handling.{handle_loop}

-- A list without the first of these.
abbrev pub without : ⦃b : Bls⦄ → b.PublicKey → List b.PublicKey → List b.PublicKey
without pk [] = []
without pk (p ∷ ps) = if wrap pk == wrap p then ps else p ∷ without pk ps

module _ ⦃b : Bls⦄ where
  abbrev pub is_listed : b.PublicKey → List b.PublicKey → Bool
  is_listed public_key = any (λ p. wrap public_key == wrap p)

  -- The `if let` on the first message; the key is written as JSON for the log.
  unfoldable pub announced : ⦃k : KeyCodec⦄ → WsMessage → CrateResult b.PublicKey
  announced ⦃k⦄ (c_add_connection public_key) = do
    _ ← ok_or (k.key_to_json public_key) (anyhow invalid_json)
    ok public_key
  announced _ = err (anyhow must_send_public_key)

  module _ ⦃ws : Tungstenite⦄ ⦃w : SerdeWsMessage⦄ ⦃k : KeyCodec⦄ where
    -- The key of a connection, from what `ws_receiver.next()` gives first.
    unfoldable pub first_message : Option (Result ws.WsError WsFrame) → CrateResult b.PublicKey
    unfolding announced parse_ws_message
    first_message none = err (anyhow must_send_public_key)
    first_message (some (ok frame)) = do message ← parse_ws_message frame; announced message
    first_message (some (err e)) = err (anyhow websocket_error)
    first_message (some panic) = panic

module _ ⦃b : Bls⦄ ⦃s : Sha256⦄ ⦃j : SerdeTransaction⦄ ⦃m : RsMerkle sha256_algorithm_hash⦄
    ⦃im : IndexMap BlsPublicKeyWrapper TxMetadata⦄ ⦃ws : Tungstenite⦄ ⦃w : SerdeWsMessage⦄
    ⦃k : KeyCodec⦄ (State : Type 0) where
  -- The server, the keys of the tasks in the loop of `handle_connection`, and those of the removals
  -- that dropped guards have spawned.
  pub record Serving : Type 0 where
    pub server : ServerState State
    pub tasks : List b.PublicKey
    pub removals : List b.PublicKey

module _ ⦃b : Bls⦄ ⦃s : Sha256⦄ ⦃j : SerdeTransaction⦄ ⦃m : RsMerkle sha256_algorithm_hash⦄
    ⦃im : IndexMap BlsPublicKeyWrapper TxMetadata⦄ ⦃ws : Tungstenite⦄ ⦃w : SerdeWsMessage⦄
    ⦃k : KeyCodec⦄ {State : Type 0} where
  -- `handle_connection` up to its loop. Without a key nothing is added, and there is no guard.
  unfoldable pub open_connection :
      Option (Result ws.WsError WsFrame)
      → ws.Sink
      → Serving State
      → CrateResult (Unit {0}) × Serving State
  open_connection first ws_sender self = on_ok (first_message first) self λ public_key. (
    ok tt,
    record self {
      server = add_connection (record { public_key = public_key; ws_send = ws_sender }) self.server;
      tasks = public_key ∷ self.tasks;
    },
  )

  -- One turn of the loop. At the end of the stream the task returns, and its guard is dropped; a
  -- message that panics ends it as well. An error is only logged.
  unfoldable pub serve :
      b.PublicKey → Option (Result ws.WsError WsFrame) → Serving State → Serving State
  serve public_key none self = record self {
    tasks = without public_key self.tasks;
    removals = public_key ∷ self.removals;
  }
  serve public_key (some received) self =
      let (handled, server) = handle_loop received self.server in
      elim handled [
        | ok x ↦ record self { server = server }
        | err e ↦ record self { server = server }
        | panic ↦ record {
          server = server;
          tasks = without public_key self.tasks;
          removals = public_key ∷ self.removals;
        }
      ]

  -- The task that `ConnectionGuard::drop` spawned.
  unfoldable pub clean_up : b.PublicKey → Serving State → Serving State
  clean_up public_key self = record self {
    server = (remove_connection public_key self.server).1;
    removals = without public_key self.removals;
  }

  pub data Step (self : Serving State) : Serving State → Type 0 where
    opens :
        (first : Option (Result ws.WsError WsFrame)) (ws_sender : ws.Sink)
        → Step self (open_connection first ws_sender self).1
    serves :
        (public_key : b.PublicKey) (received : Option (Result ws.WsError WsFrame))
        → is_listed public_key self.tasks ≡ true
        → Step self (serve public_key received self)
    cleans :
        (public_key : b.PublicKey)
        → is_listed public_key self.removals ≡ true
        → Step self (clean_up public_key self)

  pub data Runs (self : Serving State) : Serving State → Type 0 where
    here : Runs self self
    next : {x y : Serving State} → Runs self x → Step x y → Runs self y
