-- ===== src/Lib.antt =====
-- mcp-context-guard: a proxy between an MCP client and an MCP server that replaces large tool
-- responses by short stubs, keeps the content in a bounded cache, and answers `seek_result` calls
-- from it.
--
-- Parts of the program, and the files that model them:
--   internal/cache/cache.go          Cache and Cache/: `New`, `NewWithCapacity`, `Store`, `Get`,
--                                    `Len`, `Bytes`, `evictOldestLocked`, `newID`
--   internal/filter/filter.go        Filter and Filter/: `Apply`, `ApplyContext`, `applyFull`,
--                                    `applyGrep`, `applyLines`, `applyJQ`, `stripJQShellSyntax`
--   internal/rpc/rpc.go              Rpc, and the record Message of Json
--   internal/schema/schema.go        Schema and Schema/: `InjectSeekResult`
--   internal/stats/stats.go          Stats and Stats/: `RecordCache`, `RecordSeek`, `Save`, `flush`,
--                                    `readTotals`, `writeTotals`; Stats/Report: `PathForKey`,
--                                    `DefaultDir`, `Load`, `LoadAll`, `Format`, `formatBytes`
--   internal/intercept/intercept.go  Intercept and Intercept/: `MaybeCache`, `SeekResult`
--   internal/proxy/proxy.go          Proxy and Proxy/: `handleClientMessage`,
--                                    `handleUpstreamMessage`, `idKey`, and the reading loops of
--                                    `Run`; Proxy/Machine: `New`, and the goroutines of `Run`
--   internal/httpserver/server.go    Http and Http/: `New`, `ServeHTTP`, `handleMCPPost`,
--                                    `doUpstream`, `collectSSE`, `forwardRaw`, `copyResponse`
--   main.go                          Main and Main/: the arguments, the merge of flags and
--                                    configuration, and the choice of the mode; Main/Launch: the
--                                    configuration that is read, the state that a mode starts with,
--                                    the line of the subcommand stats, and the exit status;
--                                    Main/Program: all of it in one function, from the flags to a
--                                    failure, a printed line, a server or a proxy
--   bench/run.go                     Bench and Bench/: `startMCP`, the connection and its calls,
--                                    `runDirect`, `runProxied`, `benchCase`, the loops of `main`,
--                                    `findProxy` and `printReport`
-- A function keeps its name in snake_case. Base holds what the parts share: bytes, lines, white
-- space, decimal numbers, 64-bit integers and dictionaries. Tests holds tests and each theorem at a
-- concrete input.
--
-- State is passed explicitly. A `Proxy` holds the shared `State` (cache and statistics), the table of
-- pending requests, and what has been sent both ways. Each handler is a function from the state it
-- finds to the state it leaves. The program's goroutines share only what their locks protect, and
-- each locked operation is one step, so an execution is a sequence of steps in any order
-- (Proxy/Schedule, Stats/Merge). Proxy/Machine takes the stdio proxy apart further: its two reading
-- goroutines, the writer and the one that closes the channel are a step relation, in which a send
-- waits while the channel of 64 lines is full. An error of a write to either side is ignored by the
-- program, and the model has none: a write to either side ends and succeeds.
--
-- What a call leaves readable in the cache is stated once, in Cache/Retention; Intercept/Touches says
-- that a call of internal/intercept makes at most one call of the cache, and Proxy/Retention and
-- Http/Sessions follow this through the events of each transport. Cache/Memory, Proxy/Memory and
-- Http/Memory do the same for the bytes that are held, in the recency list and, with Cache/Held, in the
-- map; Main/Program/Sessions starts them from the state that the program sets up. What both transports
-- must keep of encoding/json is a hypothesis of Proxy/Replies and Proxy/Answers: the id of a decoded
-- message is read back from what is encoded with it.
--
-- A text is a list of bytes as natural numbers. An int64 is its bit pattern, a natural number below
-- 2 ^ 64, and its arithmetic wraps (Base/Int64). A map is an association list. A float64 that is not
-- negative is a natural number of units of a fixed size, rounded to 53 significant bits with ties to
-- even (Base/Float).
--
-- Bounds and fuel: the loop of `Store` runs with the length of the recency list as fuel, since each
-- round removes an entry; the loop of `applyJQ` with one round more than its limit of results. That
-- the fuel is enough is proved. The search for the exponent of a float64 has more rounds than an int64
-- or a quotient of two has exponents.
--
-- Parameters, since they are no code of the repository: encoding/json (the record Json.Codec, and
-- Stats.TotalsCodec for the file of totals), regexp, gojq and the verb %q (Filter.Engines), what
-- `rand.Read` and `ctx.Err()` return, what the file system does in a flush (Stats.Disk), and what
-- net/http does with a request (Http.Network) and with the name of a header.
--
-- For bench/run.go, what a started process prints, decoding and encoding of `any` values, os.ExpandEnv
-- and sort.Slice are parameters as well.
--
-- Not modelled: the parsing of flags, pipes, how processes and the HTTP listener run and end, and what
-- is printed to standard error; what an `http.Transport` does with its timeouts, and what
-- `httputil.ReverseProxy` does behind its director; the padding of the columns of the report of bench
-- and the headings of its scenarios; the JSON schema of the `seek_result` tool.
pub mod Base
pub mod Cache
pub mod Json
pub mod Filter
pub mod Rpc
pub mod Schema
pub mod Stats
pub mod Intercept
pub mod Proxy
pub mod Http
pub mod Main
pub mod Bench
mod Tests
