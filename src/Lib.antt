-- ===== src/Lib.antt =====
-- The Python code of the repository: the cache policies and the benchmark of two tiers
-- (python/bench), the adapter that connects vLLM to the tiered store (python/vllm_adapter), and the
-- online benchmark (scripts/bench_online.py).
--
-- Parts and how they interact
--   * Base, Dict: the shared helpers. `Base` has Boolean tests on the native numbers, keys with a
--     decidable equality, lists, and `Result`, which holds a value or a Python exception. `Dict` is
--     Python's insertion-ordered dictionary as an association list: a write keeps the place of an
--     existing key, and `trim` is the loop that drops the oldest entries.
--   * Policy: `CachePolicy` of python/bench/policies.py, an interface of methods and of the laws that
--     its clients use. Each class is a module with its state and its methods: Lru, Sieve, S3Fifo,
--     PrefixLru, and S3FifoPrefix, which inherits from S3Fifo. A method returns the keys for which
--     `_evicted` is called, in the order of the calls. Registry is `POLICIES` and `make_policy`, and
--     Calls the calls that a client makes, one after the other.
--   * Tiered: `TieredSimulator` of python/bench/tiered.py, over any two policies that fill the
--     interface. What the fast tier evicts is admitted to the slow one (`demote`), in order. The
--     request loop is `serve_all`, the prefetching along the successor graph `chase`.
--   * Framework: python/bench/framework.py. Percentiles, rates, the replay of a trace over one policy
--     and over two tiers (Framework/Replay), `replay`, which makes the report, the reading of a trace
--     (Framework/Trace) and the command line (Framework/Main). Pools compares two
--     sizes of the pool; Warm and WarmTiers are about what may be a hit.
--   * Shootout: python/bench/shootout.py, which replays a trace over each policy and sorts the rows.
--     A policy name is compared by its place among the sorted names.
--   * Offload: `S3FIFOCachePolicy` of python/vllm_adapter/offloading_spec.py. State has its fields, Loop
--     the rounds of the loop of `evict`, Methods the methods, Calls the calls of vLLM's manager, with
--     what it keeps to, Contract the map of blocks that the manager sees; the other files are about them.
--   * Connector: `ProjectKVConnector` of python/vllm_adapter/connector.py, over a store and a scheduler
--     that are given as records of operations. Connector/Store states what is relied on of a store, and
--     has a store in memory that fulfils it.
--   * Provenance: python/bench/provenance.py, over texts as lists of code points. The expression for a
--     line of the lock file is the function `match_line`, its way back after white space included.
--     Formats and Version have the two format checks; the digits of `\d` are a parameter.
--   * Driver: python/bench/replay_cpp.py and python/bench/replay_multitenant.py, over a store that is
--     given as a record of the methods that they call. Driver/Commands has the two command lines, and
--     Driver/Roomy states what a store does that never drops a block.
--   * Text, Json: Python's texts as lists of code points, and what `json.loads` returns. `json.loads`
--     itself is an argument of the definitions that call it.
--   * Online: scripts/bench_online.py. Dataset is `_load_sharegpt`, Request is `_one_request`, over the
--     status and the lines of an answer, with the times at which they come; Schedule has the tasks
--     `run_session` and `run_scanner` of `run` as a step relation, in which any task may move; Summary
--     is what `run` does before and after. A move ends where a task may wait: at the semaphore, or for
--     the answer. In asyncio nothing else happens in between. The generator of random numbers is the
--     record `Random`, whose laws are what Python documents of `choice` and `shuffle`. When a request
--     raises, `gather` passes the exception on, and no further step is looked at.
--
-- Numbers
--   Capacities and counts are natural numbers. A negative capacity, which the code refuses like 0, has
--   no counterpart. Times are whole numbers of 0.05 ms: 4.0, 0.5 and 0.05 ms, the costs of the code, are
--   80, 10 and 1, so that no time is rounded. A rate and a throughput are a numerator and a denominator.
--   The rank of a percentile is `max(1, ceil(p / 100 * n))`, here with exact division; the division of
--   floats gives the same rank for the three percentages and any list of practical length. So do the
--   indices `int(0.95 * n)` and `int(n * 0.99)`. Numbers in JSON and in the arguments are natural
--   numbers; a negative or a broken one has no counterpart. In the online benchmark times are whole
--   numbers of any unit, and nothing is rounded for printing.
--
-- Loops and fuel
--   A loop over a sequence is structural recursion. `_evict` of SIEVE has as fuel one round more than
--   there are visited keys, each of which a round unmarks. `_insert_main` of S3-FIFO has the sum of the
--   frequencies and of the length, which every round lowers. `admit` of the prefix-aware LRU has the
--   length of its store. The loop of `evict` of the offloading policy has twice the length of the
--   small queue and the rounds that the main queue can make; a promotion takes two and adds one.
--
-- Not modelled
--   `json.loads`, the opening of files (a file is its lines, or nothing), the parsing of command
--   lines by argparse, the default path of the lock file, software versions, the offloading specs,
--   which only register a class with vLLM, the construction of the compiled store, the client that
--   sends requests to a server, and the C++ core under src/. `replay` takes the result of reading
--   the lock file. The blocks and keys of vLLM are type parameters.
pub mod Base
pub mod Dict
pub mod Policy
pub mod Tiered
pub mod Offload
pub mod Framework
pub mod Connector
pub mod Driver
pub mod Text
pub mod Json
pub mod Online
pub mod Shootout
pub mod Provenance
pub mod Tests
