-- ===== src/Lib.antt =====
-- The reward calculator of ICON: I-Scores of accounts, their calculation from the IISS data of
-- each period, their claims, and the rollback of both.
--
-- Parts and files. Base holds the shared helpers: tests and lists over the native numbers,
-- association lists (Base/Assoc), the integers of common/hexint.go and math/big (Base/Int), 64-bit
-- words (Base/Words), and byte strings with their order (Base/Bytes).
-- Db is common/db: Db/Engine is the interface of a bucket with an iterator (bucket.go,
-- database.go, Iterator.go), Db/Batch that of a batch (batch.go), Db/MapDb the bucket of
-- map_db.go, Db/Layer the layerBucket of layer_db.go, Db/Bulk the deletion of a range, and
-- Db/Sharded the sub-DBs of an account DB taken as one store; Db/Key the keys of a bucket in its
-- DB (internalKey, the ID methods), Db/Load the loops that read a bucket, Db/Codec the interface
-- of the MessagePack codec, and Db/Ordered the law of an engine whose iterator goes in the order
-- of the keys, as that of goleveldb does. Every other part works over any engine.
-- Account has the records of core/db_account.go.
-- Claim is core/db_claim.go and core/msg_claim.go: PreCommit the store of unconfirmed claims
-- (query, write, commit, revert, flushPreCommit, ...), Request the requests DoClaim and
-- DoCommitClaim, Block startBlock, commitBlock and writePreCommitToClaimDB, Backup the management
-- of the backups and their garbage collection, Rollback rollbackClaimDB, Again two claims of one
-- address with the commit of the first one's block between them. Protocol puts the
-- requests together as steps on one state, in the order that docs/iiss_iscore.wsd asks of the
-- client.
-- Context is core/context.go with core/db_management.go: Info the heights of blocks and
-- calculations with their setters, the acceptance of a calculation (the first part of DoCalculate)
-- and the checks of core/msg_rollback.go; Accounts the two sets of account DBs with
-- toggleAccountDB, resetAccountDB and rollbackAccountDB; Periods what is common to the lists of
-- governance variables and of P-Reps; Governance UpdateGovernanceVariable, UpdatePRep and
-- RollbackManagementDB; Candidates UpdatePRepCandidate; Load NewContext with NewDBInfo,
-- LoadGovernanceVariable, LoadPRep and LoadPRepCandidate.
-- Iiss is core/db_iissdata.go: LoadIISSData, what the calculation reads of the blocks, and the
-- functions that write the buckets.
-- Typed is common/codec/typed.go with common/codec.go; in it Delegations is what WriteIISSTX
-- encodes and NewIScoreAccountFromIISS (core/db_account.go) decodes.
-- Address is common/address.go.
-- Calculate is core/msg_calculate.go: Delegation calculateDelegationReward and calculateIScore,
-- Transactions calculateIISSTX, Produce calculateIISSBlockProduce, PReps calculatePRepReward and
-- setPRepReward, Database calculateDB, Calculation what DoCalculate does from the goroutines of
-- the sub-DBs to the state hash, Whole the whole of DoCalculate, which calls Context/Info
-- (acceptance), Context/Accounts (toggle and reset), Context/Governance and Context/Candidates
-- (management data), Calculation, and Query/Results (the stored result). Total sums I-Scores.
-- Statistics is core/statistics.go: Increase and Decrease by field.
-- Query is DoQuery and DoInit of core/msg.go, Query/Results core/db_calculate.go and
-- DoQueryCalculateResult of core/msg_calculate.go.
-- HexInt is the byte forms of integers of common/hexint.go: Uint64, Int64, Big with what they use
-- of math/big, and Digits on bytes as digits; Text is the text form of HexInt.
-- Rlp is the byte strings and container headers of common/codec/rlp.go.
-- Manager is core/manager.go with HandleMessage of core/msg.go: the handlers as goroutines and the
-- wait group of the messages, over one connection.
-- Debug is core/calculation_debug.go, the debug output of a calculation, with the requests of
-- core/msg_debug.go that set its flag and add an address: Types the data, Change and Debug itself
-- the writes, Delegations the loop of calculateDelegationReward with its writes.
-- Rollback is DoRollBack of core/msg_rollback.go, which calls the rollbacks of Claim/Rollback and
-- of Context/Accounts and Context/Governance.
--
-- State. A function that changes a store takes it and returns it; a Go error of a request is a
-- value. A key of several fields at fixed widths is a record of the fields, a hash or an address a
-- number, and serialization is the identity, so a stored value is the record; in Context/Load,
-- Iiss and Address keys and values are bytes, and the codec is a parameter that decodes what it
-- encoded. A uint64 is a natural number whose wrap is written out where it can pass 2 ^ 64;
-- amounts are integers of any size.
--
-- Loops are structural recursion: over the entries of an iterator, over the items of a list, or on
-- a number of rounds that the bounds of the loop give (the garbage collection from `from` to `to`
-- has to + 1 - from rounds, the rollback from `last` down to `to` last - to + 1), so no fuel is
-- chosen.
--
-- The loops of HexInt run 8 rounds for a 64-bit word; those that stand for math/big run as many
-- rounds as the number itself, which is at least the number of its digits.
-- DoCalculate: the goroutines of the sub-DBs work on stores of their own, so they are run one
-- after the other; what the cancellation channel says at each of their checks is a function, and
-- whether the channel was replaced before the end is a parameter. The hash functions are
-- parameters: how a hash takes an account or another hash, and for the block produce rewards, over
-- accounts that a library sorts, what the accounts hash to; the hash of a new state and the 64 zero
-- bytes that calculateDB returns for no account are two values of the type of hashes.
--
-- Not modelled: I/O errors of an engine and of the file system, IPC but for the order of the
-- messages of one connection, MessagePack and JSON, the reflection of the RLP codec, the parsing
-- of numbers by strconv, keys and signatures, the formulas, files and initial I-Scores of the debug
-- output (an initial I-Score shares its big.Int with the total), the search and removal of IISS DBs
-- by name, and the command line programs.
pub mod Base
pub mod Db
pub mod Account
pub mod Address
pub mod Claim
pub mod Context
pub mod Calculate
pub mod Rollback
pub mod Query
pub mod Statistics
pub mod HexInt
pub mod Rlp
pub mod Iiss
pub mod Typed
pub mod Manager
pub mod Debug
