-- ===== src/Lib.antt =====
-- Verification of not-only-mining-pool: what a stratum mining pool for bitcoind-like nodes hands out,
-- accepts and pays.
--
-- The node gives the pool block templates (daemons/getblocktemplate.go: Jobs/Template.antt). The job manager
-- (jobs/jobManager.go) makes each into a job (jobs/job.go): transactions/transactions.go writes the two
-- halves of the coinbase, merkletree/mtree.go the Merkle steps. A miner's submission is checked against its
-- job, put together into a header, hashed, and credited or refused; a header that reaches the target is a
-- block. The client's difficulty follows its shares (vardiff/), its address may be banned (bans/). Shares
-- and found blocks go to redis, from where payments/payer.go pays the miners through the wallet.
--
-- Which file models which part:
--   Common       lists, texts (a string is the list of its bytes), maps (Dict), panics (Fallible: `none`),
--                float64 (Float: a type with its operations, of which nothing is assumed), strconv in base
--                ten (Decimal), strings.Split and Join (Parts)
--   Utils        utils/utils.go: Pack, Varint, Number, Reverse, Search, Hex, Compact, Script; *.RoundTrip
--                and *.Laws have the readers and reference definitions that they are held against
--   Merkle       merkletree/mtree.go; Merkle/Root has the Merkle root by its definition
--   Transactions transactions/transactions.go: Outputs is GenerateOutputTransactions, Generation is
--                CreateGeneration; Layout reads the outputs back, Generation/ScriptSig has the transaction whole
--   Jobs         jobs/ and types/: Job (NewJob's parts, the serializers, RegisterSubmit), Manager
--                (ProcessTemplate), Share, Submit (ProcessSubmit); the theorems are in their children
--                Params is what a miner is told of a job, Process is ProcessShare
--   Bans         bans/banning.go
--   Vardiff      vardiff/: RingBuffer and Retarget (CalcNextDiff)
--   Stratum      stratum/: Client has the state of a connected miner and what is written to it, Client/Handlers
--                its messages, Server the broadcast of jobs; the theorems are in the other children
--   Storage      storage/: Block is block.go; Redis is the interface of the commands that redis.go calls, Keys its
--                keys, Shares putShareNow, Payouts the payout run's transaction and its intent, Reads and Stats
--                the rest. Site has payout runs over redis, and its children show that they are runs of the
--                payer's World and what their reads are told of the database
--   Payments     payments/payer.go: Prog has the calls of a run and programs over them, Split, Classify,
--                Settle and Run are the functions of the source, World says what the calls do; the others are
--                the proofs
--   Engine       engine/cryptonote/blob.go: Varint, TreeHash and Blob (the parser
--                of blocks and their hashing blobs); Blob.Written has blocks as nodes write them
--   Examples     concrete inputs
--
-- Numbers are natural numbers; an unsigned integer keeps its wrap-around where the source can reach it. The
-- time of day is an argument. State is passed and returned. A payout run is a tree of calls with a branch
-- for each reply, so that a run can fail or be cut off at every call; the source's shared PaymentManager is
-- its settings and the cache of checked addresses. Float64, math/big's Float, base58 and the hash functions
-- are parameters, as are redis with the documented effects of its commands, the texts of floats and JSON.
--
-- Fuel: Merkle's loop has the length of its level, which falls from round to round; SerializeNumber's has ten
-- rounds, of which the ninth byte is the last that fits; settle has nine tries, since the withheld part
-- doubles from a hundredth and a try with all of it withheld is the last. FormatUint writes twenty digits at
-- most, readVarint has ten rounds, one for each shift below 64, and the parser's loops have a round for each
-- byte of the blob, of which each of their rounds takes one at least.
--
-- Not modelled: sockets and listeners, the rest of the engines for other families of coins, the P2P peer,
-- the HTTP server, configuration, and the start-up of the pool.
pub mod Common
pub mod Utils
pub mod Vardiff
pub mod Bans
pub mod Merkle
pub mod Storage
pub mod Transactions
pub mod Jobs
pub mod Payments
pub mod Stratum
pub mod Engine
mod Examples
