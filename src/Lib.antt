-- ===== src/Lib.antt =====
-- The lightnode (repository renproject/lightnode) stands between clients and the Darknodes of
-- RenVM: it forwards JSON-RPC requests, limits and checks them, keeps submitted transactions
-- until their chains have confirmed them, and watches other chains for burns. This library
-- models that logic of its own and proves what makes it correct.
--
-- The parts and how they meet: the validator finds the address of a client and asks the rate
-- limiter; the resolver gives a submitted transaction to the transaction checker, which stores
-- it in the database, answers what the database knows, and hands other requests to the cacher,
-- which answers from its table or goes on to the dispatcher, which sends requests to Darknodes
-- and combines their responses with an iterator. The updater keeps the addresses of the
-- Darknodes. The confirmer polls the database for pending transactions, asks the chains for
-- confirmations, submits what is confirmed through the dispatcher and marks it. A watcher per
-- asset and chain polls for burn events, makes a transaction of each and submits it to the
-- resolver, with the last checked block and the mapping of hashes in Redis. The package
-- compat/v0 translates and encodes transactions of the older protocol.
--
-- Files, with the code that they model:
--
--   * Dispatcher.antt and below: dispatcher/iterator.go. Dispatcher.InterfaceMap is
--     interfaceMap (store, most), Dispatcher.Iterator both Collect methods; a channel is the
--     list of what it delivers. Dispatcher.Requests is dispatcher/dispatcher.go (Handle,
--     multiAddr, multiAddrs, newResponseIter).
--   * Cacher.antt: cacher/cacher.go (Handle, insert, get, dispatch); Cacher.Specification has
--     the abstract cache, which only records what was given.
--   * Resolver.antt and below: resolver/resolver.go. Resolver.antt is handleMessage, SubmitTx
--     and the methods that only forward, Resolver.Validation validateGateway, Resolver.Gateways
--     SubmitGateway, and Resolver.Queries the reads of the database, QueryTx and Fallback.
--   * Validator.antt: resolver/validator.go (ValidateRequest up to the rate limit).
--     Updater.antt: updater/updater.go (updateMultiAddress).
--   * Abi.antt and below: compat/v0/abi.go, compat/v0/ext.go and compat/v0/contract.go.
--     Abi.Numbers has a method table for each of the twelve types of numbers, Abi.Values the
--     types and Equal, Abi.Codec the binary forms and the switch by which compat/v0/tx.go
--     decodes an argument, Abi.Arguments the transactions over these values, and Abi.Contracts
--     the table of contracts with ValidateAddress, IsShiftIn and ValidateV0Tx.
--   * RateLimiter.antt and below: resolver/rate_limiter.go (NewRateLimiter, Allow, Prune); the
--     state is the struct with its maps, and a call through nil is no answer.
--   * Database.antt and below: db/db.go. Rows has the conversions between transactions and
--     rows, Txs and Gateways the statements on the two tables; a driver's error is an argument.
--   * TxChecker.antt: resolver/txChecker.go (Run for one request, checkDuplicate).
--   * Confirmer.antt: confirmer/confirmer.go (checkPendingTxs, confirm, lockTxConfirmed,
--     burnTxConfirmed); the state is the database and the list of what the dispatcher was sent.
--   * Watcher.antt and below: watcher/watcher.go. Window chooses the blocks of a poll, Fetchers
--     are the two FetchBurnLogs, Burns is burnToParams, Poll is watchLogShiftOuts, and
--     Checkpoint and Failures have what is proved of the last checked block.
--   * Compat.V0.Codec: compat/v0/tx.go (MarshalBinary, UnmarshalBinary, Get, Set, Remove,
--     Equal); Compat.V0.Hashes: the functions of compat/v0/compat.go that the watcher uses.
--   * Compat.V0.Store: compat/v0/store.go. Compat.V0.Mint, Burn, Submit and Convert: the
--     translation of transactions between the versions in compat/v0/compat.go and the addresses
--     of compat/v0/ext.go (V1TxFromV0Mint, V1TxFromV0Burn, V0TxHashFromTx, V1TxParamsFromTx,
--     BurnTxFromV1Tx, TxFromV1Tx); Watcher.Mapping relates what the watcher records to what a
--     submission finds.
--   * Compat.V0.Fees: the responses with fees and shards of compat/v0/compat.go.
--     Compat.V1.State and Compat.V1.Store: compat/v1/compat.go and compat/v1/store.go.
--     Resolver.BlockState: QueryShards, QueryFees and QueryState of resolver/resolver.go, which
--     convert a block state with these.
--   * Validator.Upgrade: the switch over the method in resolver/validator.go, which translates
--     the parameters of older versions.
--   * Startup.antt: opt.go; Startup.Environment and Startup.Bootstrap: what
--     cmd/lightnode/lightnode.go reads of the environment (parseOptions and what it calls),
--     getConfigFromBootstrap and parsePubkey. The `if`s of parseOptions are a list of settings
--     that are applied in turn.
--   * Http.antt: http/client.go (SendRequest, retry). The outcomes of the rounds are a
--     function, and the answer lists the intervals that were waited for.
--   * MultiAddrStore.antt: store/store.go (New, Get, Insert, Delete, AddrsAll,
--     RandomBootstrapAddrs, RandomAddrs), over a key-value table.
--   * Common.antt and below: numbers, lists, results, dictionaries. JsonRpc.antt, Redis.antt,
--     Darknode.antt: interfaces of packages that the repository does not hold, with the laws
--     that the code relies on. Tests.antt and below: instances of them, runs, and the theorems
--     at concrete inputs.
--
-- Bounds and loops: the loops of the code run over a list and are structural recursion, that of
-- the Solana fetcher over the number of nonces of its window, without fuel. The decimal digits
-- of a number are printed on fuel, and one more than the number is enough, since each round
-- divides by ten; the loop of the client is on fuel, and more than the number of rounds that
-- fail is enough. uint64 sums of the watcher wrap at 2 ^ 64. Times are natural numbers, and the
-- time to live, the expiry and the page bounds of the code are taken as not negative. Where SQL
-- leaves the order of rows open, the model takes that of insertion.
--
-- Not modelled: the HTTP server, goroutines and timeouts except as the answers that they lead
-- to, logging, JSON except that of numbers, the construction of the components, the start of
-- the processes, and the bindings to chains. Of the values of compat/v0, records and lists.
pub mod Common
pub mod JsonRpc
pub mod Redis
pub mod Darknode
pub mod Compat
pub mod Abi
pub mod Dispatcher
pub mod Watcher
pub mod RateLimiter
pub mod Database
pub mod Confirmer
pub mod TxChecker
pub mod Cacher
pub mod Updater
pub mod Validator
pub mod Resolver
pub mod MultiAddrStore
pub mod Http
pub mod Startup
pub mod Tests
