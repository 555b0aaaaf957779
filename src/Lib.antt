-- ===== src/Lib.antt =====
-- The gluon actor: a node of a network that generates keys which no node knows whole, and signs with
-- them. For a task of layer 1 one node is the delegator. It invites candidates, has their hardware
-- attested by the pinner actor, and elects an executor and n initial pinners. The executor generates a
-- key, shares it so that k slices recover it, and answers with one encrypted slice for each initial
-- pinner; the delegator passes them on, and the initial pinners deploy them. To sign, a delegator
-- collects k slices from pinners for an executor, which recovers the key and returns the witness.
--
-- The files, and the code under src/ of the repository that each is about:
--   Base: lists, maps, bytes, tests and results that the parts share.
--   Proto: the messages, whose definitions are generated outside the repository.
--   Host: what the actor calls (tea_actor_utility, wascc, base64), as a parameter; the state that the
--   handlers run in, a key-value store, an environment and the outward calls made so far; callbacks as
--   values (Host/Callbacks); rules for runs of handlers (Host/Rules).
--   Common: common/task_info.rs and common/execution_info.rs (TaskInfo), common/utils.rs (Utils,
--   Properties), common/key_generation.rs (KeyGeneration).
--   Delegator: verifier.rs, executor_info.rs and initial_pinner_info.rs. Delegator/KeyGen: the record of
--   a task and the election (StoreItem, of key_gen/store_item.rs), its storage (Store), the selection of
--   peers (Candidates), the handlers of key_gen.rs (Handlers), the observers (Observers), the attestation
--   requests (Ra). Delegator/Sign: the same for sign.rs and sign/. Delegator/DumpMethods:
--   dump_methods.rs. Delegator/Handler: handler.rs.
--   Executor: executor/key_gen.rs and executor/sign.rs. InitialPinner: initial_pinner/. Pinner: pinner/.
--   Portal: portal/layer1_events.rs. Actor: the dispatch of lib.rs, and of the answers to callbacks;
--   Actor/Messages: the routing of broker messages by their subjects, and their decoding.
--   Storage: the keys under which all parts keep their values, rules for predicates of the store that
--   every handler keeps, and runs of the whole actor.
--   Tests: a host that runs in memory, and the theorems at concrete tasks.
--
-- A function of the source keeps its name. A handler is a function from a world to a result and a
-- world: what it wrote and called before an error stays. A closure that waits for an answer is a
-- constructor of Callback with what it captures, and Actor.resume runs it. Where a function of the
-- source is split, the parts say which lines of it they are.
--
-- Casts `as u8` are modulo 256, and `n + 1` and `distance + 1` on a u8 wrap, as in a release build.
-- The loop of select_initial_pinners takes one round more than there are candidates: each round but the
-- last takes a candidate, and a round that finds none would repeat forever. The loop of
-- random_select_peers takes n + 1 rounds: at distance n - 1 every peer is taken. A loop that runs out is
-- the error `diverges`, an abort the error `panic`.
--
-- Not modelled: the lock around each single read and write of a task (a read or a write is one step
-- here); logging, and the fixed descriptions that some requests carry; that stored values expire (an
-- expiry is passed to the provider); src/build.rs, which generates the messages' code from files
-- outside the repository.
pub mod Base
pub mod Proto
pub mod Common
pub mod Host
pub mod Delegator
pub mod Executor
pub mod InitialPinner
pub mod Pinner
pub mod Portal
pub mod Actor
pub mod Storage
pub mod Tests
