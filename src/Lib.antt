-- ===== src/Lib.antt =====
-- The core logic of sqd-network: what a worker and a portal are assigned, how block ranges and
-- chunks are named and looked up, and how the two on-chain registries are read as one.
--
-- crates/assignments: a scheduler stages chunks into a `WorkerAssignmentBuilder`, dataset by
-- dataset; `finish` turns the staged columns into a table of a flatbuffer, which a
-- `WorkerAssignment` reads back by index.
--   Assignments/Search.antt: the bisections of src/reader.rs (partition_point, lookup_index_by_key,
--     binary_search_by). Loops take the width of their interval as fuel, which is enough because
--     every turn shrinks it.
--   Assignments/Columns.antt: top runs and their checks (src/builder.rs, src/reader.rs);
--     Assignments/Loading.antt: what both from_owned check of each dataset.
--   Assignments/Ids.antt: push_padded and push_chunk_id, which print a chunk's id.
--   Assignments/Entries.antt: WorkerId::from (src/assignment_fb.rs) and get_worker, on a table of
--     workers under the bytes of their ids; a panic of either is `none`.
--   Assignments/Worker.antt: the builder's state as a record, push_chunk, emit_dataset and
--     WorkerDatasetBuilder::finish; Staging.antt: register_write_schema, register_generation and
--     WorkerAssignmentChunkBuilder::finish; Reader.antt: the accessors of src/reader.rs; Tables.antt:
--     the bitmap of a chunk's tables, written and read; Urls.antt: ids and urls of chunks (with
--     src/assignment_fb.rs); Refs.antt: ChunkRef and the iterators over a worker's chunks;
--     Fleet.antt: the workers with their status and sealed headers (src/signatures.rs), finish,
--     get_worker and decrypt_headers.
--   Assignments/Portal.antt: the portal's builder, in the same shape, with Portal/Reader.antt for its
--     chunks, find_chunk and find_chunk_by_timestamp.
--   Assignments/Monolithic.antt: find_chunk and find_chunk_by_timestamp of the format of one file;
--     Monolithic/Refs.antt: get_chunk and the iterators of Worker; Monolithic/Builder.antt:
--     AssignmentBuilder and ChunkBuilder, which write it.
--   Assignments/Network.antt: NetworkState::resolve of src/common.rs.
-- crates/data-chunk: DataChunk.antt is src/lib.rs, whose ids name the chunks above.
-- crates/messages: Messages/Range.antt is src/range.rs; Messages/Signatures.antt is the byte strings
--   of src/signatures.rs that a client signs for a query and a worker for its result, the signing and
--   checking of a result, and the log entry QueryFinished::new makes of one.
-- crates/transport: Transport/Pubsub.antt is src/behaviour/pubsub.rs, which decides message by message
--   what of the gossip is passed on; clock readings are arguments there. Transport/Whitelist.antt is
--   src/behaviour/node_whitelist.rs, Transport/Addresses.antt src/behaviour/addr_cache.rs, and
--   Transport/Dialing.antt the dialling, lookups and reconnects of src/behaviour/base.rs: the events that
--   libp2p delivers are the steps of a run there, in any order.
-- crates/contract-client: Contract/Merge.antt is src/merge.rs.
-- Base.antt and its children hold the shared types: booleans and lists over the native numbers,
-- texts as lists of bytes, decimal printing and parsing, results with a panic.
--
-- Machine integers are native numbers; sums and differences that the source computes on u64 are
-- taken modulo 2^64, and conversions to u32 are their range checks. A method on `&mut self`
-- returns the new state beside its result, so an error keeps what was done before it. Flatbuffer
-- tables are their argument records: the encoding is a library's. Peer ids and addresses are any
-- types with an equality or an order; how a peer id is written to bytes and text and parsed, of
-- which parsing bytes returns what was written, is the record `PeerText`, and whether debug
-- assertions are on is the argument `checked` of what calls WorkerId::from. `PeerId::from_str`,
-- `sign` and `verify_signature`, SHA3, a topic's own validator and the slice search of the
-- standard library are parameters. So are, each as a record of operations with the laws its
-- documentation gives, the allow list and Kademlia of libp2p, the LRU map, the lookup by key of
-- flatbuffers, and the key agreement and cipher of the headers; rounding in f32 and the positions
-- that a delay queue hands out are arguments.
--
-- Not modelled: the encoding of flatbuffers and the generated code, the signature scheme itself,
-- RPC and the clients of the chain, the other libp2p behaviours, the actors around them, the
-- vendored stream protocol (crates/transport/src/libp2p_stream) and the executables.
pub mod Base
pub mod DataChunk
pub mod Messages
pub mod Contract
pub mod Tests
pub mod Assignments
pub mod Transport
