-- ===== src/Lib.antt =====
-- The core of Monosulfide, an emulator of sharded blockchains: messages, proposals, the identity
-- chain, PBFT, transactions with their pool, and the blocks of a Monosulfide chain.
--
-- Each part stands in the module of its name; the modules below it hold its proofs, and Tests its
-- examples.
--   Content    message/Content.go, with SignAndLaunch of launch/msgLaunch.go and the signs that
--              Selector of consensus_shard/Selector.go reads: a content is its bytes.
--   Proposals  Proposals/: ProposalBuffer is the heap without its dummy slot, so that the source's
--              slot i is entry i - 1; `priority` is the map with its default.
--   Crypt      crypt/toolFuncs.go: numbers as eight bytes.
--   Migrate    Comm/IdChainComm/Com_ProposalBufferMigrate.go: a main node that steps back sends its
--              proposals to the new one; it uses Proposals, Content and Crypt.
--   Merkle     GenMPTRoot and GenTxRoot of Tx/transaction.go, over a parameter for sha256.Sum256.
--   Tx         the rest of Tx/transaction.go and Tx/TxList.go.
--   Pool       Tx/TxPool.go, in Pool.Package and Pool.Cross its Package functions and FindBest;
--              InRoute of config/pyramidConfig.go, and RelatedShards of Tx/transaction.go.
--   IdChain    idChain/ with Append of blockchain/chain.go: the map of the nodes, the thresholds, and
--              the main node that a block chooses.
--   Pbft       consensus_shard/pbft: the state, and in Handlers the messages of the three phases;
--              Execution, Ballots, Rounds and Steps follow an instance over any order of messages,
--              Epoch a node that waits. The domain, the node map and the operations are the
--              interface Domain.
--   Sync       Comm/MonosulfideComm/SyncFideBlock.go, and the rules by which
--              Comm/PyramidComm/SyncIBlock.go differs from it: the acknowledgements of the blocks of
--              other shards. The local chain is the interface Chains; Comm/MonoxideComm/
--              SyncRelayBlock.go has the text of SyncFideBlock.go.
--   ViewChange Comm/ViewChange.go over IdChain: the replacement of a main node.
--   CrossLock  Comm/PyramidComm/CrossLock.go: the lock that a b-shard takes of its i-shards before a
--              cross block; Lock is what an i-shard promises.
--   CrossPrepare  Comm/PyramidComm/CrossPrepare.go: the verification of a cross block by the i-shards;
--              a call that locks a mutex twice is the value `blocked`.
--   CrossReply  Comm/PyramidComm/CrossReply.go: the replies of the nodes of a b-shard, which make an i-shard
--              append a cross block.
--   Mono       Monosulfide/MonosulfideChain.go and Block/SpiralBlock.go: blocks, their ancestors, the
--              check of a block, and GenerateBlock; in Mono.Branches FindBestBranches, over every
--              order of its ranges.
--   Monoxide   monoxide/monoxideChain.go and Block/RelayBlock.go: the blocks of the shards of Monoxide
--              as trees, the heaviest branch that findTop follows, and Append.
--   Routes     config/pyramidConfig.go: the graph of the shards, the check that it is connected, and the
--              tables of routes, which Pool reads as a setting.
--   Pyramid    pyramid/PyrChain.go with the shard of pyramid/PyrShard.go and the blocks of Block/StdBlock.go
--              and Block/Head.go: the chain of a shard, which holds the chains of its i-shards.
--   Assign     RDomain of Opts/Op_EpochReset.go, with HashToRange of crypt/toolFuncs.go and SelectMain of
--              pyramid/PyrShard.go: which nodes make up which shard.
--   Prelude    what all share: Boolean tests, lists, maps, and Outcome, the ways a call ends.
--
-- A panic, a nil dereference and an index out of range are the outcome `panic`. A Go map is an
-- association list; where the source ranges over one, a parameter `visit` or the order of the list
-- gives the order. A uint64 wraps where the source computes with one that can wrap.
--
-- Fuel. `rise` has the index and `sink` the length plus one, as each turn at least halves or doubles
-- the index; `generate_loop` has the amount plus one, as each turn pops; `root_loop` has the number
-- of hashes, which every turn lowers; `pack_loop` has the block size plus one, as every round but the
-- last adds a transaction, and so has `cross_loop`; `check_loop` has the number of the counted hashes plus one, as each turn
-- deletes one; `anc_loop`, `mark_path`,
-- `descend`, `walk` and `add_weights` have the number of the blocks, one for each step to a parent or
-- a child; `dfs`, `search` and `trace_back` have the number of the shards plus one, as each turn
-- visits another shard, and `shrink` the length of the path plus one;
-- `print_loop` has the number of the blocks, one for each step to a parent;
-- `remove_loop` has two for each counter and each block in Removeable, and `sweep` one for each key
-- to come and each counter.
--
-- Not modelled: networks, files, logs and clocks; RSA, PEM, SHA-256, JSON and gob, which are
-- parameters or decoded values; the locks, as the operations run one at a time under them; the
-- communications but those above; Save of the Monosulfide chain, a report.
mod Prelude
pub mod Content
pub mod Proposals
pub mod Crypt
pub mod Migrate
pub mod Merkle
pub mod Tx
pub mod Pool
pub mod IdChain
pub mod Pbft
pub mod Sync
pub mod ViewChange
pub mod CrossLock
pub mod CrossPrepare
pub mod Mono
pub mod Monoxide
pub mod Routes
pub mod Pyramid
pub mod CrossReply
pub mod Assign
