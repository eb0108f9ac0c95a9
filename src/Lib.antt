-- ===== src/Lib.antt =====
-- A verification library for CacheCash: private UTXO payments on Hyli, whose state contract
-- runs in a zkVM and whose server keeps the same state beside the chain.
--
-- The parts, and the files that model them. Contract: the state contract
-- contracts/hyli-utxo-state, with its executor in server/src/hyli_utxo_state_client.rs.
-- - Contract/Smt.antt: contracts/hyli-utxo-state/src/zk/smt.rs. The crate sparse_merkle_tree is
--   the record SparseMerkleTree, its documented behaviour the record SmtLaws.
-- - Contract/Blob.antt: parse_hyli_utxo_blob and parse_hyli_smt_incl_blob of src/state.rs.
-- - Contract/State.antt: HyliUtxoState of src/state.rs, one function per method. A method on
--   &mut self gives the state beside its result, so that what was written before an error stays
--   visible.
-- - Contract/ZkVm.antt: HyliUtxoZkVmState of src/state.rs and the witness vectors of
--   src/zk/mod.rs. The SDK's functions are the record Sdk.
-- - Contract/Batch.antt: HyliUtxoZkVmBatch. Contract/Executor.antt: HyliUtxoStateExecutor.
-- - Contract/Recording, Witness, Applied and Refinement: from the loops of the full state to
--   the agreement with the zkVM program. Contract/Growth and DoubleSpend: runs of the full
--   state. Contract/Parsing, Roots, KnownRoots, Fifo, Checks: one part each. Contract/Toy,
--   Tests and StorageTests: a small instance of the parameters, and runs on it.
-- - Contract/Storage.antt: the bytes of a tree and build_siblings, of src/zk/smt.rs. The map of
--   the crate's store is the record LeafStore. Its children are on the two of them.
--
-- Server: what the server keeps in memory, server/src/note_store.rs, the handlers of its
-- requests, server/src/api.rs, its faucet, server/src/app.rs, and its provers.
-- - Server/Registry.antt: AddressRegistry. Server/NoteStore.antt: NoteStore, with its children
--   Eviction, on the loop that evicts, Queues, on what insert promises, and Access, on the two
--   other operations. Server/Validation.antt and ApiError.antt: the checks of tags and keys in
--   server/src/api.rs, and the errors of its handlers.
-- - Server/Blobs.antt: build_blob_transaction and compute_smt_blob_data of server/src/api.rs.
--   Blobs/Callees.antt: the callees as the SDK finds them in a transaction.
--   Server/Transfer.antt: create_blob, hash_blob and submit_proof. Server/Finalize.antt:
--   finalize_transfer and generate_smt_proof. A handler gives the calls of the node in their order
--   beside its result. The SDK, the node and the decoders are the records External and Node.
-- - Server/Requests.antt: faucet and deposit. Server/Notes.antt and Addresses.antt: the handlers
--   over the two stores. Each has a child on what a request leads to.
-- - Server/Faucet.antt and Commands.antt: FaucetApp of server/src/app.rs, its transactions, and
--   one function for each command that it listens to.
-- - Server/Prover.antt and ProofJobs.antt: the inputs of a proof in server/src/noir_prover.rs and
--   smt_incl_prover.rs, and how a job is proved and sent, with prover.rs. The prover itself and
--   the helpers that take public inputs apart are the record Proving.
--
-- Element: pkg/element/src/signed_element.rs.
-- - Element/Signed.antt and SignedOps.antt: SignedElement, its operators and conversions. The
--   256-bit numbers of the crate ethnum are the record Arith with the laws ArithLaws.
--   Element/Int.antt: the integers. Element/Arithmetic.antt and Comparison.antt: what the
--   operators compute.
--
-- Zk: pkg/zk-primitives/src and pkg/hash/src/path.rs.
-- - Zk/Note.antt, Utxo.antt and HyliUtxo.antt: note.rs, input_note.rs, utxo.rs and
--   hyli_utxo.rs. Zk/NoteUrl.antt and Links.antt: note_url.rs and its round trip.
--   Zk/Messages.antt: what the public inputs of a transaction say. Zk/Path.antt: path.rs and
--   merkle_path.rs. Zk/Aggregate.antt: agg_utxo.rs, agg_agg.rs and bytes_to_elements of util.rs.
--
-- Circuit: pkg/barretenberg/src/circuits, on the side of the prover.
-- - Circuit/TxHash.antt: decode_tx_hash_32. Circuit/Inputs.antt: the maps of inputs of utxo.rs,
--   hyli_utxo.rs and hyli_smt_incl_proof.rs, as records with the keys for fields.
--   Circuit/Proofs.antt: prove of the three, with the backend for a parameter, and the bytes of a
--   proof. Circuit/Building.antt and Faucet.antt: from the jobs of the server to these inputs.
-- - Circuit/Aggregation.antt: the same for agg_utxo.rs and agg_agg.rs; its child Refused is on
--   what the two stages make of each other's proofs.
--
-- Hash: pkg/hash/src.
-- - Hash/Bytes.antt: hash_bytes of lib.rs, with hash_merge for a parameter.
-- - Hash/Poseidon.antt: poseidon_alt.rs, with the field of the crate acvm and the generated
--   constants of poseidon_alt_data.rs for parameters. Poseidon/Absorbing.antt: what the sponge
--   makes of a sequence of elements.
--
-- Primitives: pkg/primitives/src.
-- - Primitives/Pool.antt: the pool of pool.rs and the drop of a guard. Primitives/Sharing.antt:
--   its runs.
-- - Primitives/Batch.antt: batch.rs, with schedule_next_batch cut at its awaits. Batch/Runs.antt:
--   the runs of all its tasks as a step relation. Primitives/Retry.antt: retry.rs.
--   Primitives/Pagination.antt: pagination.rs.
--
-- How the parts interact: the executor finds the UTXO blob of a transaction, records its
-- nullifiers and notes, and before that builds the witness that the zkVM program checks and
-- commits; a batch queues the witnesses of several transactions. The blob that the prover
-- expects for a UTXO transaction is the one that the contract parses. The transactions that the
-- faucet and the handlers of transfers build are the ones that the contract checks, and the jobs of
-- the faucet are the ones that the provers take.
--
-- The eviction loop of the note store runs on fuel, one more than the queue has notes, which is
-- enough when the maximum is not zero. The loop of exec_forever runs on fuel, and one round more
-- than the operation fails is enough. collect runs on the length of its iterator. Every other
-- loop is structural. Numbers are natural numbers; words are lists of bytes, and so are texts. A
-- panic of expect or of an assertion is an error value or none.
--
-- Not modelled: the web front end, the Noir circuits and their backend, hash_merge, which is a
-- parameter, and curve arithmetic, the text forms of elements other than from_str, serialisation
-- by serde and Diesel, metrics, configuration and start-up, logging, the message bus and the tasks
-- of the runtime, the parsing of peers, and the second copy of the signed elements in
-- pkg/zk-primitives/src/signed_element.rs, which is like the first.
pub mod Prelude
pub mod Circuit
pub mod Contract
pub mod Element
pub mod Hash
pub mod Primitives
pub mod Server
pub mod Zk
