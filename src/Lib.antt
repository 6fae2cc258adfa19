-- ===== src/Lib.antt =====
-- Verification library of the Scylla Rust driver: the core of the crates `scylla` and
-- `scylla-cql`, by hand from their sources, with the theorems that make it correct.
--
-- How the program's parts interact. A session routes a request: the partitioner of the table gives
-- the token of its partition key (scylla/src/routing/partitioner.rs); the table's tablets
-- (scylla/src/routing/locator/tablets.rs) or the keyspace's strategy on the token ring
-- (token_ring.rs, replication_info.rs and precomputed_replicas.rs beside it) give the replicas; the
-- sharder gives the shard and, for a new connection, the source port that leads to it
-- (scylla/src/routing/sharding.rs). On a connection the request gets a stream id, under which the
-- response finds it again (scylla/src/network/connection.rs). The bodies of the frames are made of
-- primitive types (scylla-cql/src/frame/types.rs). When an attempt fails, with an error of the
-- server (scylla-cql/src/frame/response/error.rs) or of the connection, the retry session of the
-- request decides what is next (scylla/src/policies/retry/).
--
-- Which file models which part:
-- - Frame/Consistency, Frame/DbError: `Consistency` and `SerialConsistency` with their conversions,
--   `DbError`, `OperationType` and `WriteType` with theirs.
-- - Frame/ErrorResponse: `Error::deserialize` of scylla-cql/src/frame/response/error.rs; its
--   `Encoding` is the layout of the body that the protocol describes.
-- - Frame/Wire: the readers and writers of scylla-cql/src/frame/types.rs. A reader takes the bytes
--   left and gives the value with the bytes behind it; `Wire/Lengths`, `Wire/Strings` and
--   `Wire/Inet` hold the round trips, and `Wire/Inet` the definitions on socket addresses.
-- - Network/StreamIdSet, Network/Orphanage, Network/HandlerMap: the structs of the same names
--   (`OrphanageTracker`, `ResponseHandlerMap`) of scylla/src/network/connection.rs. The writer, the
--   orphaner and the reader of a connection take a lock for each call of the map, so a run is a
--   sequence of calls: `Network/HandlerMap/Steps` is that step relation.
-- - Policies/Retry: the sessions of default.rs, downgrading_consistency.rs and fallthrough.rs below
--   scylla/src/policies/retry, as functions from the session's state and the failure to the new
--   state and the decision.
-- - Policies/Plans: `Plan` of scylla/src/policies/load_balancing/plan.rs; a policy is what its
--   `pick` and its `fallback` give for one request.
-- - Policies/Timestamps: `MonotonicTimestampGenerator` of
--   scylla/src/policies/timestamp_generator.rs; `Threads` is a generator with the threads that are
--   in `next_timestamp`, and what they returned. The clock is cut to an `i64` as in the code.
-- - Routing/Partitioners: scylla/src/routing/partitioner.rs; the hashers with their `write` and
--   `finish`, and below `Keys` the token of a serialized partition key. `Feeding` is the
--   specification: a hasher that takes one byte at a time.
-- - Routing/Ring, Routing/Replication: `TokenRing`, `ReplicationInfo` with
--   `NtsReplicasInDatacenterIterator`, and below `Precomputed` the `PrecomputedReplicas`, each of
--   the file of its name in scylla/src/routing/locator. A set or a hash map that is only asked for
--   members or entries is a list or a function; an iterator is the list of what it gives.
-- - Routing/Tablets: scylla/src/routing/locator/tablets.rs; `Replicas` is `TabletReplicas` and
--   `Tablet`, `Table` is `TableTablets`, `Maintenance` is what follows a change of the topology, and
--   `Info` is `TabletsInfo`.
-- - Routing/Sharding: `Token` of scylla/src/routing/mod.rs, and `Sharder` and
--   `ShardAwarePortRange` of scylla/src/routing/sharding.rs.
-- - Prelude: names of the libraries, and lists, options, results, integers, bytes and bits.
--
-- How code is modelled. Methods that change `self` take the state and give the new one. A panic (an
-- `assert!`, an index out of bounds, an overflow) is `none`, an `Err` a value of `Result`. Integers
-- are natural numbers or ℤ with their bounds as hypotheses and their wrap-around written out; an
-- overflow that panics is a panic of the model, as in a build with overflow checks. A hash map is a
-- function into `Option`, with its `is_empty` where the code asks for it; an `Arc` is a node with an
-- address, which `Arc::ptr_eq` compares. A text is its bytes.
--
-- `partition_point` is a scan for the first element that fails the test, which is what the standard
-- library promises of a list that the test partitions; of any other list it promises nothing, so the
-- theorems on `tablet_for_token` and `add_tablet` that depend on the position are about ordered tables.
--
-- Loops are structural recursion, but for three on fuel. `stepped` of Routing/Sharding has as many
-- rounds as there are numbers below its bound, and `count-stepped` shows that this is enough for
-- every step above 0. `hash_blocks` of Routing/Partitioners has one round more than the part has
-- bytes, and takes 16 bytes in each; that it runs out is a `none` like a panic, which the theorems
-- on `write` exclude. `collect` of Routing/Replication has one call more than there are replicas to
-- find.
--
-- What is a parameter: `random_range` of the crate `rand`, with the bounds that it documents; the
-- big-endian integers of `byteorder` and `bytes`, of which a reader gives back what the writer
-- wrote (Frame/Wire/Examples has an instance); `get_i64` and `get_i64_le` of `bytes` for the
-- partitioners, which read the first eight bytes (instance in Routing/Partitioners/Examples);
-- `binary_search_by` of a slice, which may give any of several matches (instance in
-- Routing/Replication/Examples); and `Instant::checked_add`, whose range depends on the platform.
--
-- What is not modelled: sessions, connection pools, the cluster worker and its metadata queries,
-- which are asynchronous input and output around the parts above; the load balancing policies, the
-- replica locator, which chooses among the sources of replicas above; the requests of the protocol,
-- and its responses but for errors; compression, TLS, authentication; serialization of values and the derive
-- macros; metrics, history and tracing, which decide nothing; the proxy, the examples and the
-- benchmarks. In tablets.rs, the decoding of the custom payload is left out, in
-- types.rs the maps and the vints, in sharding.rs the parsing of the server's options.
pub mod Prelude
pub mod Frame
pub mod Policies
pub mod Network
pub mod Routing
