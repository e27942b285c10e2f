-- ===== src/Websocket/Connections/Served.antt =====
-- The connections of the server and the tasks that serve them
-- (src/websocket/server/connection.rs).
use stateless_payments.Common.{
  ◌≡◌, refl, sym, ◌∙◌, inl, inr, true, false, ◌||◌, Option, none, some, List, [], ◌∷◌, ◌==◌,
  if◌then◌else◌, Option-cases, arith,
}
use stateless_payments.Common.Assoc.{
  lookup, contains_key, modify, remove, IsMap, lookup-insert, insert-IsMap, lookup-modify,
  modify-IsMap, lookup-remove, remove-IsMap,
}
use stateless_payments.Common.Outcome.{Result, ok, err, panic, on_ok_elim}
use stateless_payments.External.Bls.{Bls}
use stateless_payments.External.Sha2.{Sha256}
use stateless_payments.External.RsMerkle.{RsMerkle}
use stateless_payments.External.IndexMap.{IndexMap}
use stateless_payments.External.Tungstenite.{Tungstenite, WsFrame}
use stateless_payments.Types.PublicKey.{BlsPublicKeyWrapper, wrap, eq_iff, wrapper_Eq}
use stateless_payments.Types.Transaction.{
  SimpleTransaction, SerdeTransaction, sha256_algorithm_hash,
}
use stateless_payments.Types.Errors.{CrateResult}
use stateless_payments.Types.Balance.Serde.{KeyCodec}
use stateless_payments.Aggregator.{TxMetadata}
use stateless_payments.Websocket.Messages.{
  WsMessage, SerdeWsMessage, parse_ws_message, c_add_connection, c_send_transaction_batch,
  c_send_transaction_batch_signature, c_send_batch_to_receivers, s_send_transaction_inclusion_proof,
  s_receive_transaction,
}
use stateless_payments.Websocket.ServerState.{
  Connection, Connections, ServerState, send_to_receivers, send_message, add_connection,
  remove_connection, add_batch, add_signature, send_batch_to_receivers,
}
use stateless_payments.Websocket.Handling.{handle_message, handle_loop}
use stateless_payments.Websocket.Connections.{
  without, first_message, Serving, open_connection, serve, clean_up, is_listed, Step, opens, serves,
  cleans, Runs, here, next,
}

module _ ⦃b : Bls⦄ where
  is_listed-without :
      (p q : b.PublicKey) (ps : List b.PublicKey)
      → wrap p == wrap q ≡ false
      → is_listed p (without q ps) ≡ is_listed p ps
  is_listed-without p q [] h = refl
  is_listed-without p q (x ∷ ps) h = ground (
    arith,
    eq_iff (wrap p) (wrap q),
    eq_iff (wrap q) (wrap x),
    eq_iff (wrap p) (wrap x),
    is_listed-without p q ps h,
  )

module _ ⦃b : Bls⦄ ⦃ws : Tungstenite⦄ where
  -- The keys stay, each of them once.
  record SameKeys (c d : Connections) : Type 0 where
    still_map : IsMap c → IsMap d
    same : (q : BlsPublicKeyWrapper) → contains_key q d ≡ contains_key q c

  SameKeys-refl : (c : Connections) → SameKeys c c
  SameKeys-refl c = record { still_map = λ h. h; same = λ q. refl }

  SameKeys-trans : {c d e : Connections} → SameKeys c d → SameKeys d e → SameKeys c e
  SameKeys-trans x y = record {
    still_map = λ h. y.still_map (x.still_map h);
    same = λ q. y.same q ∙ x.same q;
  }

  modify-SameKeys :
      (k : BlsPublicKeyWrapper) (f : Connection → Connection) (c : Connections)
      → SameKeys c (modify k f c)
  modify-SameKeys k f c = record {
    still_map = modify-IsMap k f c;
    same = λ q. ground (arith, eq_iff q k, lookup-modify k q f c);
  }

  send_to_receivers-SameKeys :
      ⦃w : SerdeWsMessage⦄ (message : WsMessage) (txs : List SimpleTransaction) (c : Connections)
      → SameKeys c (send_to_receivers message txs c)
  unfolding send_to_receivers
  send_to_receivers-SameKeys message [] c = SameKeys-refl c
  send_to_receivers-SameKeys message (tx ∷ txs) c =
      SameKeys-trans (modify-SameKeys (wrap tx.to) (send_message message) c)
        (send_to_receivers-SameKeys message txs _)

module _ ⦃b : Bls⦄ ⦃s : Sha256⦄ ⦃j : SerdeTransaction⦄ ⦃m : RsMerkle sha256_algorithm_hash⦄
    ⦃im : IndexMap BlsPublicKeyWrapper TxMetadata⦄ ⦃ws : Tungstenite⦄ ⦃w : SerdeWsMessage⦄
    ⦃k : KeyCodec⦄ {State : Type 0} where
  add_batch-connections :
      (batch : _) (x : ServerState State) → (add_batch batch x).1.connections ≡ x.connections
  unfolding add_batch
  add_batch-connections batch x = ground arith

  add_signature-connections :
      (pk : b.PublicKey) (signature : b.Signature) (x : ServerState State)
      → (add_signature pk signature x).1.connections ≡ x.connections
  unfolding add_signature
  add_signature-connections pk signature x = ground arith

  handle_message-SameKeys :
      (message : WsMessage) (x : ServerState State)
      → SameKeys x.connections (handle_message message x).1.connections
  unfolding handle_message send_batch_to_receivers
  handle_message-SameKeys (c_send_transaction_batch batch) x =
      rw (add_batch-connections batch x) (SameKeys-refl x.connections)
  handle_message-SameKeys (c_send_transaction_batch_signature pk signature) x =
      rw (add_signature-connections pk signature x) (SameKeys-refl x.connections)
  handle_message-SameKeys (c_send_batch_to_receivers proof balance_proof) x =
      send_to_receivers-SameKeys (s_receive_transaction proof balance_proof)
        proof.batch.transactions x.connections
  handle_message-SameKeys (c_add_connection pk) x = SameKeys-refl x.connections
  handle_message-SameKeys (s_send_transaction_inclusion_proof proof) x = SameKeys-refl x.connections
  handle_message-SameKeys (s_receive_transaction proof balance_proof) x =
      SameKeys-refl x.connections

  handle_loop-SameKeys :
      (received : Result ws.WsError WsFrame) (x : ServerState State)
      → SameKeys x.connections (handle_loop received x).1.connections
  unfolding handle_loop
  handle_loop-SameKeys (ok frame) x =
      on_ok_elim
        (λ (y : CrateResult (Unit {0}) × ServerState State). SameKeys x.connections y.1.connections)
        (parse_ws_message frame) x _ (λ e. SameKeys-refl x.connections)
        (SameKeys-refl x.connections) (λ message parsed. handle_message-SameKeys message x)
  handle_loop-SameKeys (err e) x = SameKeys-refl x.connections
  handle_loop-SameKeys panic x = SameKeys-refl x.connections

  -- Each key of the table is listed once, and for each a task or a removal is there.
  pub record IsServed (x : Serving State) : Type 0 where
    pub is_map : IsMap x.server.connections
    pub served :
        (q : b.PublicKey)
        → contains_key (wrap q) x.server.connections ≡ true
        → (is_listed q x.tasks || is_listed q x.removals) ≡ true

  open_connection-IsServed :
      (first : Option (Result ws.WsError WsFrame)) (ws_sender : ws.Sink) (x : Serving State)
      → IsServed x
      → IsServed (open_connection first ws_sender x).1
  unfolding open_connection add_connection
  open_connection-IsServed first ws_sender x v =
      on_ok_elim (λ (y : CrateResult (Unit {0}) × Serving State). IsServed y.1)
        (first_message first) x _ (λ e. v) v
        (λ pk read. record {
          is_map = insert-IsMap (wrap pk) _ x.server.connections v.is_map;
          served = λ q h. ground (
            arith,
            eq_iff (wrap q) (wrap pk),
            v.served q,
            lookup-insert (wrap pk) (wrap q) (record { public_key = pk; ws_send = ws_sender })
                x.server.connections,
          );
        })

  ended-IsServed :
      (pk : b.PublicKey) (server : ServerState State) (x : Serving State)
      → SameKeys x.server.connections server.connections
      → IsServed x
      → IsServed
          (record x { server = server; tasks = without pk x.tasks; removals = pk ∷ x.removals })
  ended-IsServed pk server x kept v = record {
    is_map = kept.still_map v.is_map;
    served = λ q h. ground (arith, kept.same (wrap q), v.served q, is_listed-without q pk x.tasks);
  }

  turn-IsServed :
      (pk : b.PublicKey) (x : Serving State) (server : ServerState State)
      → SameKeys x.server.connections server.connections
      → (handled : CrateResult (Unit {0})) → IsServed x
      → IsServed (elim handled as (λ _. Serving State) [
        | ok _ ↦ record x { server = server }
        | err e ↦ record x { server = server }
        | panic ↦ record { server = server; tasks = without pk x.tasks; removals = pk ∷ x.removals }
      ])
  turn-IsServed pk x server kept (ok u) v = record {
    is_map = kept.still_map v.is_map;
    served = λ q h. v.served q (sym (kept.same (wrap q)) ∙ h);
  }
  turn-IsServed pk x server kept (err e) v = record {
    is_map = kept.still_map v.is_map;
    served = λ q h. v.served q (sym (kept.same (wrap q)) ∙ h);
  }
  turn-IsServed pk x server kept panic v = ended-IsServed pk server x kept v

  serve-IsServed :
      (pk : b.PublicKey) (received : Option (Result ws.WsError WsFrame)) (x : Serving State)
      → IsServed x
      → IsServed (serve pk received x)
  serve-IsServed pk none x v =
      unfold serve in ended-IsServed pk x.server x (SameKeys-refl x.server.connections) v
  serve-IsServed pk (some received) x v =
      let (handled, server) = handle_loop received x.server in
      unfold serve in turn-IsServed pk x server (handle_loop-SameKeys received x.server) handled v

  remove_missing :
      (pk : b.PublicKey) (x : ServerState State)
      → lookup (wrap pk) x.connections ≡ none
      → (remove_connection pk x).1 ≡ x
  unfolding remove_connection
  remove_missing pk x missing = ground (arith, missing)

  remove_found :
      ((sink : ws.Sink) → (ws.close sink).0 ≡ ok tt)
      → (pk : b.PublicKey) (x : ServerState State) {connection : Connection}
      → lookup (wrap pk) x.connections ≡ some connection
      → (remove_connection pk x).1.connections ≡ remove (wrap pk) x.connections
  unfolding remove_connection
  remove_found closes pk x {connection} found = ground (arith, closes connection.ws_send)

  -- Where closing succeeds, a removed key is not connected.
  pub remove_connection_lem :
      ((sink : ws.Sink) → (ws.close sink).0 ≡ ok tt)
      → (pk : b.PublicKey) (x : ServerState State) → IsMap x.connections
      → IsMap (remove_connection pk x).1.connections
        × ((q : BlsPublicKeyWrapper)
            → contains_key q (remove_connection pk x).1.connections
              ≡ (if q == wrap pk then false else contains_key q x.connections))
  remove_connection_lem closes pk x v = elim (Option-cases (lookup (wrap pk) x.connections)) [
    | inl missing ↦ (
      rw (remove_missing pk x missing) v,
      λ q. ground (arith, missing, eq_iff q (wrap pk), remove_missing pk x missing),
    )
    | inr (connection, found) ↦ (
      rw (remove_found closes pk x found) (remove-IsMap (wrap pk) x.connections v),
      λ q.
          ground (arith, lookup-remove (wrap pk) q x.connections v, remove_found closes pk x found),
    )
  ]

  clean_up-IsServed :
      ((sink : ws.Sink) → (ws.close sink).0 ≡ ok tt)
      → (pk : b.PublicKey) (x : Serving State) → IsServed x
      → IsServed (clean_up pk x)
  unfolding clean_up
  clean_up-IsServed closes pk x v =
      let (map, keys) = remove_connection_lem closes pk x.server v.is_map in
      record {
        is_map = map;
        served =
            λ q h. ground (arith, keys (wrap q), v.served q, is_listed-without q pk x.removals);
      }

  Step-IsServed :
      {x y : Serving State}
      → ((sink : ws.Sink) → (ws.close sink).0 ≡ ok tt)
      → Step x y
      → IsServed x
      → IsServed y
  Step-IsServed {x} closes (opens first ws_sender) v = open_connection-IsServed first ws_sender x v
  Step-IsServed {x} closes (serves pk received h) v = serve-IsServed pk received x v
  Step-IsServed {x} closes (cleans pk h) v = clean_up-IsServed closes pk x v

  -- If closing a websocket always succeeds, then on a server that started without connections,
  -- whatever comes in, every key in the table of connections is there once, and its connection is
  -- served by a task or about to be removed.
  pub every_run-IsServed :
      ((sink : ws.Sink) → (ws.close sink).0 ≡ ok tt)
      → (server : ServerState State) {x : Serving State} → server.connections ≡ []
      → Runs (record { server = server; tasks = []; removals = [] }) x
      → IsServed x
  every_run-IsServed closes server empty here = record {
    is_map = rw empty tt;
    served = λ q h. absurd (ground (arith, empty));
  }
  every_run-IsServed closes server empty (next r st) =
      Step-IsServed closes st (every_run-IsServed closes server empty r)
