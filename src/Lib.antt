-- ===== src/Lib.antt =====
-- Verification of the core of Nyumt, a distributed monitoring tool whose master nodes keep a chain of
-- signed orders.
--
-- The parts and how they interact. A user signs a list of orders (add a user, edit a node, set a
-- configuration) and sends it over a session (nyumt-node/src/master_serve/req_resp.rs). The master
-- node checks the signature and each order against its tables
-- (nyumt-proto/src/block.rs), asks the other master nodes to vote on the block, first on its validity
-- and then on its place in the chain (nyumt-node/src/master/activity.rs), stores it and executes its
-- orders (nyumt-proto/src/db.rs). The other master nodes check what they hear and vote
-- (nyumt-node/src/master/net_behavior.rs). Clients are sent the blocks that they lack
-- (nyumt-node/src/master_serve/activity.rs), check each one again and execute it on their own tables
-- (nyumt-client-core/src/client/req_resp.rs). Plain nodes take their configuration and the list of the
-- master nodes from a master node, subscribe to its changes and send it reports
-- (nyumt-node/src/{node,master}). Users work at a terminal (nyumt-client-cli).
--
-- Files.
--   Prelude    the library's names, lists over native numbers, machine words, failures, byte strings
--   Stats      nyumt-proto/src/stats: objects to measure, measurements, reports; Answers and Complete the
--              proofs
--   Proto      nyumt-proto/src/{types,keys,config}.rs: Keys the texts of keys with their proofs; and in
--              External what other crates supply
--   Database   nyumt-proto/src/database and db_calls.rs: one file for each group of tables, one function
--              for each statement, under the name it has in the source
--   Verify     nyumt-proto/src/block.rs: Check has the code, Acceptance what is allowed, Authority and
--              Soundness the proofs
--   Interpret  nyumt-proto/src/db.rs: Execute has the code, Registry the abstract view and the meaning
--              of an order on it, Rows, Updates, Entities, Refinement, Blocks and Shared the proofs
--   Consensus  nyumt-node/src/master/{activity,types,mod,peer}.rs: Types the shared state, Events the
--              handler of incoming events, Publish the two votes of the proposer, Submit the way from a
--              request to a stored block; Rounds, Append, Growth, Linked, Tally and Follower the
--              proofs; First nyumt-node/src/master/first.rs, Genesis the proof
--   Gossip     nyumt-node/src/master/net_behavior.rs: Receive the code, Ballots the proofs
--   Client     nyumt-client-core/src/client/req_resp.rs: Sync the code, Outcomes the proofs;
--              nyumt-client-core/src/client/{mod,activity,behavior}.rs: Channel and Start the code, Answers
--              and Waits the proofs;
--              nyumt-client-core/src/stats.rs: Oids, Plot and Catalog the code, Names and Points the
--              proofs; nyumt-client-core/src/order.rs: Orders the code, Packing the proofs
--   Serve      nyumt-node/src/master_serve/{activity,req_resp}.rs: Stream, Reports, Sessions, Requests,
--              Links, Handling and Calls the code, Batches, Endings, Latest, Delivery, Forwarding,
--              Tasks, Shut and Closed the proofs; Sessions and Calls have their own
--   Peers      the requests between nodes: Messages nyumt-proto/src/peer.rs, Hub
--              nyumt-node/src/master/req_resp.rs, Updates send_update and get_stats of
--              nyumt-node/src/master/activity.rs, Swarm the loop of that file with its calls, Plain and
--              Loop the node of nyumt-node/src/node, Collector the loops of
--              nyumt-node/src/{node,master}/stats.rs; Addresses, Dispatch, Frame, Agree, Stall, Restart,
--              Subscribed, Reach, Follow and Preserve the proofs
--   Replication  a master node and a client together: Commits the run of the master node, Stored its chain,
--              Follows, Served, Started, Maximum and Reports the proofs
--   Invariant  the keys of the tables: Keys what is kept, Reached the handlers as a step relation; Distinct,
--              Statements, References, Orders, Handlers and Events the proofs
--   Terminal   nyumt-client-cli/src/session.rs: Sessions and Commands the code, Names and Sent the proofs
--   Tests      runs on small data
--
-- State. A table is the list of its rows (Database.Tables); an operation takes the tables and returns
-- them. A failure of the source is a value of Fallible, with the kinds of failure told apart; a
-- transaction that fails returns the tables as they were. SwarmSettings is the record Master, with the
-- messages handed to gossipsub (outbox) and the spawned waits (timers) written out. A `u32` tally wraps
-- at 2 ^ 32 and a height at 2 ^ 64; a height is stored as an `i64` by the cast of the source. What the
-- handlers of the requests between nodes use of SwarmSettings is the record Peers.Hub.Hub, and a plain
-- node is Peers.Plain.PlainNode; a map from names or peers is a list of its entries. A select without an
-- order yields its rows in the order of the table. A key is a list of bytes, whose length of 32 is asked for
-- where it matters.
--
-- Interleaving. A request of a client is looked up, verified and handed on in steps (Serve.Handling),
-- between which the connections and the sessions may change in any way. Between two awaits of the
-- proposer other tasks change the shared state and the network answers. Both are parameters of a run
-- (Consensus.Publish.Attempt): for each attempt to publish, the answer, and a function on the state for
-- the voting time and one for the pause. The theorems hold for all of them, under the hypotheses that
-- they name.
--
-- Fuel. The loops of publish and block_order_vote count a `u8` up to a configured number of retries, so
-- that they run on 256 rounds of fuel.
--
-- Parameters. SHA-256, the signatures of libp2p, the derived encodings of borsh, the monitoring library
-- and the floating-point unit are parameters, and so are base58,
-- the texts that the standard library makes of numbers and of capitals, what SQLite's driver reads a NULL
-- as, and whether SQLite enforces foreign keys.
--
-- Not modelled: the transports, the swarm of libp2p and the codecs of its protocols, which are input and
-- output; errors of the disk; the parsing of a command line and the window of a
-- plot; the ticks of the collectors; libp2p-noise and systemstat, which are copies of other projects.
pub mod Prelude
pub mod Stats
pub mod Proto
pub mod Database
pub mod Verify
pub mod Interpret
pub mod Consensus
pub mod Gossip
pub mod Client
pub mod Serve
pub mod Peers
pub mod Terminal
pub mod Replication
pub mod Invariant
pub mod Tests
