-- ===== src/Lib.antt =====
-- A model of the Go part of profit-monopoly, a bot that looks for arbitrage and sandwich
-- opportunities on Ethereum, with the theorems that hold of it.
--
-- The program reads pending transactions from a node, indexes them, looks for trades that earn
-- something, and pays for them with flash loans. Its parts and the files that model them:
--
-- * utils/math/bigint.go, the wrapper of math/big with the calculations of the strategies.
--   Int is math/big itself: an integer is a natural number with its sign, Div and Mod are the
--   Euclidean division of the Go documentation, and a zero divisor is a panic. BigInt/Trade has the
--   price impact, the amounts, fees and profits of a trade, BigInt/Compare the comparison of slices
--   in blocks of four, BigInt/Metrics the statistics of a strategy, BigInt/Risk the reorg risk,
--   BigInt/MultiHop the search over the ends of a path, and BigInt/Markets sandwiches, bundles, NFTs
--   and lending.
-- * mempool/monitor.go and mempool/mmap_pool.go, the reader of pending transactions.
--   Mempool/Breaker is the circuit breaker, with Mempool/Breaker/Moves for the single reads and
--   writes of its goroutines, Mempool/Monitor the loop that subscribes, batches and
--   retries, Mempool/Processing what happens to a batch, and Mempool/Pool the pool of slots in a
--   mapped file.
-- * mempool/network, the index of the transactions and the network. Network/Index is MempoolIndex of
--   indexer.go with its 256 shards, and Network/Indexer its MempoolIndexer, the queue by gas price
--   with maps by hash and by sender. Network/Standard is standard.go, the manager of a UDP socket,
--   Network/Dpdk is dpdk_network.go, the manager of the packets of a card, and Network/Optimizer is
--   network.go, the options and counters of connections.
-- * dex/uniswap/pair.go, dex/uniswap/v2.go and dex/sushiswap/v2.go, the exchanges. Dex/Amounts is
--   the formula of a swap, Dex/Uniswap and Dex/Sushiswap the prices and amounts along a path.
-- * strategies/arbitrage/detector.go and mempool/analyzer.go, the search for arbitrage.
--   Arbitrage/Routes is FindArbitrage over any exchanges, Arbitrage/Rates is DetectOpportunities over
--   tables of rates, and Arbitrage/Analyzer the analysis that reports the best route.
-- * strategies/sandwich/sandwich.go with utils/profit_calculator.go, utils/flashloan.go and
--   utils/bundler.go, the sandwich strategy. Sandwich/Attack is the strategy, Sandwich/Profit the
--   calculator, Sandwich/Loan the loan, and Sandwich/Bundle the submission of the transactions.
-- * flashloan/manager.go, flashloan/types.go and flashloan/aave/provider.go, the loans.
--   Flashloan/Manager chooses a provider and counts, Flashloan/Aave validates and sends a loan, and
--   Flashloan/Balancer is flashloan/balancer/provider.go, which lends for nothing.
-- * gas/estimator.go, the fees of the latest block: Gas.
-- * flashbots/client.go, the client of the relay: Flashbots.
-- * strategies/frontrun/frontrun.go, the frontrunning strategy with its stubs: Frontrun.
-- * cmd/bot/bot.go, which passes the opportunities from the analysis to the execution: Bot.
-- * config/config.go, the configuration: Config.
--
-- A method is a function with the name of the method in lower case, which takes the state and gives
-- it back changed. A call ends in one of the three ways of Run (Prelude/Outcome): a value, a returned
-- error, or a panic. A nil pointer is `none` of an option; a map is a list of keys and values in the
-- order in which a loop over it meets them, and the theorems hold for every order. Goroutines are the
-- sequence of the events that they see: a tick, a received transaction, a closed channel; methods
-- under one lock are whole steps. The two goroutines of the bot, which share no lock, are a step
-- relation. RecordError of the circuit breaker takes no lock either: a whole call of it is a step in
-- Mempool/Breaker, for runs in which nothing comes between, and a sequence of single reads and writes
-- in Mempool/Breaker/Moves, where any number of calls and the monitor interleave. Clocks are natural numbers that the caller passes.
--
-- Loops are structural: over a list, over the number of slots or of shards, or over the depth of a
-- block. The comparison of slices runs on fuel, one more than the length of the slices, and each
-- round uses up one unit and four elements, so that the fuel is never used up; its theorem is about
-- this fuel. The loop of prune in Network/Indexer runs on the length of the queue, of which each
-- round takes one element. Counters that the program keeps in uint32 or uint64 wrap in the model too;
-- counters and gauges of Prometheus are natural numbers and fractions.
--
-- The node, the contracts, the codec of transactions, hash functions, the limiter, the cache, the
-- packing of calls, container/heap, the sender of a transaction, DPDK, sockets, and the encoding,
-- signing and transport of requests are parameters, and a float64 of the configuration is a value of
-- a type with the comparisons that the code makes. Not modelled are the other files of
-- mempool/network and of mempool/ebpf, which call DPDK and the kernel, the commands, the logging and
-- metrics of utils, which call libraries and the operating system, conversions to floating point, and
-- the second program in Python under mevbot. The simulator and the cached indexer of
-- mempool/indexer.go are not modelled either. FindArbitrage reads a gas price that the result of the
-- simulator does not have, so this price is a parameter too, and so is whether Prometheus takes the
-- names of the metrics. A Write of DPDK beyond the room of a packet buffer overwrites other memory,
-- of which nothing can be said; it counts as a panic.
pub mod Prelude
pub mod Int
pub mod BigInt
pub mod Mempool
pub mod Dex
pub mod Flashloan
pub mod Network
pub mod Arbitrage
pub mod Sandwich
pub mod Config
pub mod Bot
pub mod Flashbots
pub mod Frontrun
pub mod Gas
