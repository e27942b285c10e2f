-- ===== src/Tests/Wrappers.antt =====
-- Websocket.Transport at alice's keys.
use stateless_payments.Common.{Bytes, ◌≡◌, some, [], ◌∷◌}
use stateless_payments.Common.Outcome.{ok}
use stateless_payments.External.Tungstenite.{text}
use stateless_payments.Websocket.ServerState.{new, add_batch, add_signature}
use stateless_payments.Websocket.Handling.{handle_loop}
use stateless_payments.Websocket.Connections.{first_message}
use stateless_payments.Websocket.Transport.{
  WebSocketTransport, web_socket_transport, transport_reaches,
}
use stateless_payments.Tests.Crates.{
  toy_bls, toy_sha256, toy_merkle, toy_index_map, toy_serde_transaction,
}
use stateless_payments.Tests.Texts.{toy_key_codec}
use stateless_payments.Tests.Wire.{toy_tungstenite, toy_serde_ws}
use stateless_payments.Tests.Scene.{alice, alice_batch, alice_signature, round_salt, before_block}

abbrev idle : WebSocketTransport
idle = record { ws_send = [] }

transport_reaches_example :
    let server = new before_block round_salt in
    ((t : Bytes) × (web_socket_transport.add_connection alice idle
        ≡ (ok tt, record { ws_send = t ∷ [] }))
      × (first_message (some (ok (text t))) ≡ ok alice))
    × ((t : Bytes) × (web_socket_transport.send_transaction_batch alice_batch idle
          ≡ (ok tt, record { ws_send = t ∷ [] }))
        × (handle_loop (ok (text t)) server ≡ add_batch alice_batch server))
    × ((t : Bytes) × (web_socket_transport.send_transaction_batch_signature alice alice_signature
            idle
          ≡ (ok tt, record { ws_send = t ∷ [] }))
        × (handle_loop (ok (text t)) server ≡ add_signature alice alice_signature server))
transport_reaches_example =
    transport_reaches alice alice_batch alice_signature idle (new before_block round_salt)
