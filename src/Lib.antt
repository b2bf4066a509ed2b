-- ===== src/Lib.antt =====
-- A model of a market-making engine over a limit order book, and what holds of it.
--
-- The program takes market events one by one (src/common/pipeline.hpp). Each goes to the order book
-- and the microstructure windows, then to the paper execution engine, which may fill resting orders
-- against a trade; fills go to the portfolio. After the event the strategy decides on quotes, the
-- risk engine checks each, and approved quotes rest in the execution engine. A live loop also passes
-- the time to the pipeline, so that a silent feed cancels the quotes.
--
-- Which file models which part, with the names of the source:
--   Types          src/common/types.hpp: Price, Side, Symbol and the enumerations.
--   Events         src/marketdata/events.hpp: MarketEvent and its constructors.
--   OrderBook      src/orderbook/order_book.hpp: two sorted vectors of levels, `apply` and the readers.
--                  OrderBook/Sides, Sorted, Lookup, View, Best and Canonical hold the proofs.
--   Risk           src/risk/risk_engine.hpp: `check`. Risk/Checks holds the proofs.
--   Portfolio      src/portfolio/portfolio.hpp: `on_fill`, `mark_to_market`. Portfolio/Position.
--   Micro          src/metrics/microstructure.hpp: rolling windows and metrics of the book. Micro/Windows.
--   Latency        src/metrics/latency_stats.hpp: the histogram. Latency/Buckets.
--   Strategy       src/strategy/market_maker.hpp: `decide`, split at its early returns.
--   Execution      src/execution/order.hpp and paper_execution_engine.hpp: orders, reports, the state;
--                  Execution/Operations is paper_execution_engine.cpp. Execution/Fills, Keys, Exposure
--                  and Conservation hold the proofs.
--   Pipeline       src/common/pipeline.hpp: the state; Pipeline/Quotes the private operations on resting
--                  quotes, Pipeline/Process `process` and `on_clock`. The other children of Pipeline
--                  are proofs, from Slots (quotes against orders) to Run, Count and Replay (runs).
--   TradeTape      src/marketdata/trade_tape_adapter.hpp: trades turned into events; FinnhubTrade of
--                  src/marketdata/finnhub_parser.hpp. TradeTape/Overlay and Numbers hold the proofs.
--   Codec          src/replay/event_codec.cpp: the binary event log. Codec/Words, Roundtrip and Files.
--   Ring           src/concurrency/spsc_ring_buffer.hpp: each call as a function. Ring/Mask, Window and
--                  Refine hold the proofs. Ring/Threads is the same code with its two threads, one
--                  access to a shared variable at a time; Ring/Threads/Kept proves its invariant,
--                  Safety and Progress what follows.
--   Pool           src/common/object_pool.hpp: the free list and its calls. Pool/Free, Fresh and Uses.
--   Synthetic      src/tools/synthetic_book.hpp: the generator of synthetic events, its draws and `next`
--                  in Synthetic/Next. Sets, Described, Book, Steps, Uncrossed and Numbers hold the
--                  proofs.
--   CliArgs        src/common/cli_args.hpp: the command line. CliArgs/Render.
--   Replay         src/replay/replay_engine.hpp: the replay loop. Replay/Pace.
--   Finnhub        src/marketdata/finnhub_parser.cpp and finnhub_client.cpp: messages of the feed. The
--                  JSON library is the interface Json. Finnhub/Messages says what a message means, Ticks
--                  and Client hold the proofs.
--   Live           src/apps/market_engine.cpp: the live run, which joins the feed, the ring and the
--                  pipeline. Live/Arrivals, Feed and Outcome hold the proofs.
--   MarketEngine   src/apps/market_engine.cpp: the options, the configuration and the modes; the JSON
--                  library and the system are interfaces. MarketEngine/Words holds its strings, Start
--                  and Limits the proofs.
--   Prelude        lists, integers and Boolean tests that the parts share.
--   Double         the interface for `double` and for random numbers.
--   Tests          a concrete arithmetic, inputs, and the theorems applied to them.
--
-- How the code is rendered:
--   An operation takes the state and returns the next one. A reference to one of the two optional
--   quotes is given as the side. A call of a clock is an argument (ClockReads, or the time passed).
--   `uint64_t` and `size_t` counters wrap at 2^64 (`inc`). `int64_t` values are integers: overflow is
--   undefined in C++, so the model describes runs without it.
--   `double` is a type with the operations that the code calls. Theorems that need facts about it take
--   ExactInts: arithmetic on whole numbers up to 2^53 in size is exact, as IEEE 754 gives it. The
--   generator takes UnitLaws: the ranges of a draw from 0 to 1, its square, ten times that, and the
--   cast of a number from 0 to 10.
--   The random generator is an interface of a seed and draws; no theorem depends on which of
--   the allowed values it draws.
--   The unordered map of open orders is a list of pairs, the newest first. The order of its iteration
--   is unspecified in C++; it decides which order gets which random draw.
--   `std::lower_bound` is the first index at which its test fails.
--   `highest_bit` takes fuel 64, enough for a 64-bit number. `read_file` gives
--   its loop the length of the file, which is more than the number of events.
--
-- Not modelled: a constructor that throws inside the object pool; side bytes of a log other than 0
-- and 1, which count as Sell; and what is input and output, the web socket itself and the recorder of
-- its messages, printing and reports, files beside the event log and the configuration, and starting
-- the threads.
pub mod Prelude
pub mod Double
pub mod Types
pub mod Events
pub mod OrderBook
pub mod Risk
pub mod Latency
pub mod Portfolio
pub mod Micro
pub mod Strategy
pub mod Execution
pub mod Pipeline
pub mod CliArgs
pub mod Codec
pub mod Finnhub
pub mod Live
pub mod MarketEngine
pub mod Pool
pub mod Replay
pub mod Ring
pub mod Synthetic
pub mod TradeTape
pub mod Tests
