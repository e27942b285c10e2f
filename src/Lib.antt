-- ===== src/Lib.antt =====
-- A payment rollup without state: senders put batches of transactions into a round of the
-- aggregator, sign the Merkle root of the round, and the block of that root and those signatures is
-- posted to a contract. A wallet proves what it owns by a balance proof: the batches, with their
-- Merkle paths, that it sent and that reached it, all the way back to deposits.
--
-- How the parts meet. A wallet (src/wallet/wallet.rs) fills a batch and hands it to the aggregator
-- (src/aggregator.rs), which answers with a Merkle proof of the batch; the wallet checks and signs
-- its root, and the aggregator collects the signatures into a transfer block (src/types/common.rs),
-- which goes to the contract (src/rollup). A receiver merges the sender's balance proof into its
-- own and calculates the balances (src/wallet/utils.rs), where every proof must verify and have a
-- block on the contract with the sender's signature. The aggregator sits behind a websocket server
-- (src/websocket/server), the wallet behind a client (src/websocket/client), whose thread watches
-- the contract and sends the proofs of new blocks to the receivers, and a command line (src/bin/cli).
--
-- Files.
--   Common       names, tests, lists, maps, integers, results and machine words. A HashMap is an
--                association list whose order stands for the order of iteration. Result is a
--                value, an Err or a panic; a method on a shared state is a function to a
--                result and the state, which keeps what was written before an Err.
--   External     the crates blsful, sha2, rs_merkle, indexmap and tungstenite, as records of
--                operations with the laws that the program relies on, taken as instance arguments.
--                Nothing is assumed of the hash function.
--   Types        src/types and src/errors.rs: PublicKey (BlsPublicKeyWrapper), Signatures
--                (the wrappers of signatures and secret keys), Transaction
--                (SimpleTransaction, TransactionBatch, TransactionProof), TransferBlock
--                (TransferBlockSignature, TransferBlock), Balance (BalanceProofKey and, in Serde,
--                its text), Errors (one constructor for each message).
--   Aggregator   src/aggregator.rs, each method under its own name; Invariant relates the map, the
--                tree and the signatures; Rounds is the relation of all calls.
--   Rollup       src/rollup: Traits, Memory (MockRollupMemory) and Fs (MockRollupFS on a
--                Disk; Refines compares it with Memory, Races is about what
--                deposits and writes can lose).
--   Wallet       src/wallet: Utils (utils.rs), Persist (the state and the file of a wallet) and
--                Wallet (the operations of wallet.rs).
--   Websocket    src/websocket: Messages (ws_message.rs), ServerState (server/server_state.rs),
--                Handling (handle_loop of server/connection.rs), Connections (the tasks, guards and
--                removals of server/connection.rs, as steps), Producer (spawn_block_producer of
--                server/server.rs, as steps beside those of the connections), Posting, Client
--                (client/client.rs, each method under its own name; sync_tick is a round of the
--                automatic sync, receive_all the receive loop) and Transport (transport.rs).
--   Cli          src/bin: Text (what it uses of the standard library), Command (cli/command.rs),
--                Input (cli/user_input.rs) and Main (wallet.rs, up to the tasks it waits for).
--   Flow         theorems that need more than one part: Handshake, Confirm, Payment,
--                Delivery (a payment from its signing to the receiver's balance) and Filed (the
--                block of a round in the contract's file).
--   Tests        small concrete crates and serialisers, and the theorems at concrete inputs.
--
-- Reading the definitions. A method that checks and then writes is split at that place: can_x or
-- x_checked holds the guards in the order of the source, and x is that, followed by the writes. u64
-- additions and subtractions follow the build's profile: debug panics on overflow, release wraps.
-- The i128 sums of the balances are integers without bounds (see Wallet.Utils.Range). What the
-- program draws at random, salts and secret keys, and what the file system answers, are arguments.
-- Loops are over lists, so no definition has fuel.
--
-- Tasks hold a lock while they work on shared state; what runs under one lock is one step, and steps
-- follow one another in any order where a relation says so.
--
-- Not modelled: logging; the JSON of whole states and messages, which are interfaces with the law
-- that what is written reads back, for the contract's file only where the readers of
-- src/types/signatures.rs read the signatures in it; sockets, the accept loop of
-- src/websocket/server/connection.rs, sleeps and timeouts, how the programs wait for their tasks, and
-- src/main.rs.
pub mod Cli
pub mod Common
pub mod External
pub mod Types
pub mod Aggregator
pub mod Rollup
pub mod Wallet
pub mod Flow
pub mod Websocket
pub mod Tests
