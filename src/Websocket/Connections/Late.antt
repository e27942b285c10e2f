-- ===== src/Websocket/Connections/Late.antt =====
-- A client that connects again
-- (src/websocket/server/connection.rs).
use stateless_payments.Common.{◌≡◌, refl, sym, subst, true, false, some, ◌∷◌, arith}
use stateless_payments.Common.Assoc.{contains_key, insert, lookup-insert, insert-IsMap}
use stateless_payments.Common.Outcome.{ok}
use stateless_payments.External.Bls.{Bls}
use stateless_payments.External.Sha2.{Sha256}
use stateless_payments.External.RsMerkle.{RsMerkle}
use stateless_payments.External.IndexMap.{IndexMap}
use stateless_payments.External.Tungstenite.{Tungstenite, text}
use stateless_payments.Types.PublicKey.{BlsPublicKeyWrapper, wrap, eq_iff, wrapper_Eq}
use stateless_payments.Types.Transaction.{SerdeTransaction, sha256_algorithm_hash}
use stateless_payments.Types.Errors.{CrateResult}
use stateless_payments.Types.Balance.Serde.{KeyCodec}
use stateless_payments.Aggregator.{TxMetadata}
use stateless_payments.Websocket.Messages.{
  SerdeWsMessage, parse_ws_message, try_from, c_add_connection,
}
use stateless_payments.Websocket.ServerState.{Connection, add_connection}
use stateless_payments.Websocket.Connections.{
  first_message, announced, Serving, open_connection, clean_up, is_listed,
}
use stateless_payments.Websocket.Connections.Served.{IsServed, remove_connection_lem}

module _ ⦃b : Bls⦄ ⦃s : Sha256⦄ ⦃j : SerdeTransaction⦄ ⦃m : RsMerkle sha256_algorithm_hash⦄
    ⦃im : IndexMap BlsPublicKeyWrapper TxMetadata⦄ ⦃ws : Tungstenite⦄ ⦃w : SerdeWsMessage⦄
    ⦃k : KeyCodec⦄ {State : Type 0} where
  opened_lem :
      (pk : b.PublicKey) (ws_sender : ws.Sink) (x : Serving State)
      → open_connection (some (ok (text (w.to_string (c_add_connection pk))))) ws_sender x ≡ (
        ok tt,
        record x {
          server = add_connection (record { public_key = pk; ws_send = ws_sender }) x.server;
          tasks = pk ∷ x.tasks;
        },
      )
  unfolding open_connection first_message parse_ws_message try_from announced
  opened_lem pk ws_sender x =
      rw (w.from_str-to_string (c_add_connection pk) tt, (k.key_json pk).2) refl

  abbrev IsCutOff : b.PublicKey → CrateResult (Unit {0}) × Serving State → Type 0
  IsCutOff pk opened =
      (opened.0 ≡ ok tt)
      × (contains_key (wrap pk) opened.1.server.connections ≡ true)
      × (contains_key (wrap pk) (clean_up pk opened.1).server.connections ≡ false)
      × (is_listed pk (clean_up pk opened.1).tasks ≡ true)

  added_lem :
      ((sink : ws.Sink) → (ws.close sink).0 ≡ ok tt)
      → (pk : b.PublicKey) (connection : Connection) (x : Serving State)
      → connection.public_key ≡ pk
      → IsServed x
      → IsCutOff pk
          (ok tt, record x { server = add_connection connection x.server; tasks = pk ∷ x.tasks })
  unfolding add_connection clean_up
  added_lem closes pk connection x own v =
      let added = insert (wrap pk) connection x.server.connections in
      let (_, keys) =
        remove_connection_lem closes pk (record (x.server) { connections = added })
          (insert-IsMap (wrap pk) connection x.server.connections v.is_map) in
      (
        refl,
        ground (
          arith,
          own,
          eq_iff (wrap pk) (wrap pk),
          lookup-insert (wrap connection.public_key) (wrap pk) connection x.server.connections,
        ),
        ground (arith, own, eq_iff (wrap pk) (wrap pk), keys (wrap pk)),
        ground (arith, eq_iff (wrap pk) (wrap pk)),
      )

  -- A client that connects again before the removal of its old connection has run is cut off: where
  -- closing succeeds, the removal takes the new connection out of the table, while its task runs.
  pub late_removal :
      ((sink : ws.Sink) → (ws.close sink).0 ≡ ok tt)
      → (pk : b.PublicKey) (ws_sender : ws.Sink) (x : Serving State) → IsServed x
      → let frame = text (w.to_string (c_add_connection pk)) in
        let opened = open_connection (some (ok frame)) ws_sender x in
        let cut_off = clean_up pk opened.1 in
        (opened.0 ≡ ok tt)
        × (contains_key (wrap pk) opened.1.server.connections ≡ true)
        × (contains_key (wrap pk) cut_off.server.connections ≡ false)
        × (is_listed pk cut_off.tasks ≡ true)
  late_removal closes pk ws_sender x v =
      subst (IsCutOff pk) (sym (opened_lem pk ws_sender x))
        (added_lem closes pk (record { public_key = pk; ws_send = ws_sender }) x refl v)
