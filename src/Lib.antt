-- ===== src/Lib.antt =====
-- A model of the Virel blockchain node (go), with what makes its ledger correct.
--
-- A block extends the main chain by paying its reward (block/reward.go) through a coinbase transaction
-- (block/coinbase.go) and by applying its transactions to the account states and delegates
-- (blockchain/blockchain.go, blockchain/bc-stateadd.go); undoing a block is blockchain/bc-staterm.go.
-- The delegate that stakes a block is drawn from the hash of the previous one (blockchain/staking.go),
-- and the difficulty follows the time between blocks (blockchain/difficulty.go) in the 128-bit
-- arithmetic of util/uint128/uint128.go. A block arrives as bytes (binary/, block/, transaction/), is
-- checked alone (blockchain/bc-block.go) and against its predecessor, and is added to the main chain or
-- beside it; when a chain beside it has more work, the node undoes blocks down to the common one and
-- applies the other branch (blockchain/blockchain.go).
--
-- The parts and their files:
--   Base         tests, lists, words of 64 bits, dictionaries, bytes, and the results and actions that
--                stand for Go's errors and panics; SafeAdd of util/util.go is Base/Words
--   Binary       binary/: the serializer and the deserializer, with the rules for reading back
--   Config       the constants of the mainnet build (config/)
--   Uint128      util/uint128/uint128.go: Cmp, Add, Sub, Mul, QuoRem, shifts and their variants
--   Emission     block/reward.go: reduce, Reward, supplyAtPhase, GetSupplyAtHeight
--   Transaction  transaction/: the data; Amounts has TotalAmount, StateInputs, StateOutputs and VSize,
--                Validity has Prevalidate, Codec has Serialize, Deserialize and the index of
--                transactions of blockchain/bc-txn.go
--   Block        the records of block/; Work has the contribution to the cumulative difficulty and the
--                proof of work, Mining the blob that is mined, Codec the bytes of a block, with the
--                transactions in Codec/Full
--   Coinbase     block/coinbase.go: CoinbaseTransaction
--   Chaintype    chaintype/: account states, delegates, TotalAmount, SortFunds; Codec has their bytes
--   Stats        blockchain/bc-stats.go: the statistics and the entries of the mempool
--   Ledger       the indexes of the database and the statistics as one record. Stakes, Rewards, Outputs
--                and Apply are blockchain/bc-stateadd.go, Remove is blockchain/bc-staterm.go, Blocks and
--                Supply are ApplyBlockToState, RemoveBlockFromState, addMainchainBlock, GetSupply and
--                CheckSupply of blockchain/blockchain.go. Coins is about the sum of the balances,
--                Backing about the sum of the delegates' funds, Frame about the part of the ledger
--                that blocks and tips are in, which applying a block leaves alone
--   Chain        the choice of the chain in blockchain/blockchain.go: Check is checkBlock, Prevalidate
--                is PrevalidateBlock of blockchain/bc-block.go, Add is AddBlock and addAltchainBlock,
--                Reorg is CheckReorgs, Genesis is addGenesis, Export is CreateCheckpoints
--   Queue        blockchain/blockqueue.go: the blocks to download
--   RateLimit    util/ratelimit/ratelimit.go
--   Target       util/util.go: targets and difficulties
--   Staking      blockchain/staking.go: GetStaker, hashToCoinIndex
--   Difficulty   blockchain/difficulty.go: GetNextDifficulty, difficultyEMA
--   Checkpoints  checkpoints/checkpoints.go
--   Tests        the theorems at concrete inputs, among them a chain of two blocks, and one that a
--                fork outgrows
--
-- State and errors. An operation on the ledger is an action: it takes a ledger and gives a result (a
-- value, an error or a panic) with the ledger after it. What was written before an error stays written,
-- as in the code, where the caller drops the database transaction. A statistics record that the code
-- passes by pointer is the one of the ledger. Log output is left out.
--
-- Numbers. An unsigned 64-bit number is a natural number, with `% 2 ^ 64` where the code can wrap;
-- theorems name the words that they are about. Hashes, keys and addresses are the numbers that their
-- bytes spell. Loops over lists are structural recursion, without fuel. A variable-length integer takes
-- at most nine groups of seven bits after the first, which is enough for a word. The search for the
-- common block runs on the height of the tip plus one, which is enough where predecessors are lower
-- (Chain/Search); the undoing of the main chain runs on the height of the top plus two, a step for each
-- block down to height zero. An error `out_of_fuel` is no error of the code.
--
-- Parameters. The hash of a public key, of a block and of bytes, the hash of the proof of work, the check
-- of a signature, the configured genesis address, the order in which the database lists the delegates,
-- the file of checkpoints, and the clock are arguments of the definitions.
--
-- Maps. A map of Go is an association list, and the order of the list is the order in which a loop meets
-- the entries.
--
-- Not modelled: the network, stratum, RPC, wallet, logger and database drivers, which are input and
-- output; nor DeorphanBlock and the validation of the mempool.
pub mod Base
pub mod Binary
pub mod Config
pub mod Emission
pub mod Uint128
pub mod Transaction
pub mod Block
pub mod Coinbase
pub mod Chaintype
pub mod Stats
pub mod Ledger
pub mod Staking
pub mod Difficulty
pub mod Checkpoints
pub mod Chain
pub mod Queue
pub mod RateLimit
pub mod Target
pub mod Tests
