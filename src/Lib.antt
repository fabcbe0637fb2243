-- ===== src/Lib.antt =====
-- ApiGate, an HTTP/1.1 gateway in C++: a model of its core, with the theorems that make it correct.
--
-- The program. One io_context runs everything, so that the handlers of sockets, timers and signals
-- follow each other and never overlap; a concurrent behaviour of the program is an order of calls,
-- and the theorems about histories quantify over every such order. The server
-- (src/http_server.cpp) accepts connections within a limit and gives each a session. A session
-- reads a request, selects a route (src/http_handler.cpp), authenticates it
-- (src/api_key_auth.cpp), asks for admission (src/route_proxy_admission.cpp), which consults the
-- route's token bucket (src/rate_limit.cpp), the limit on proxies and the health of the upstreams
-- (src/health_state.cpp), reserves bytes for the body (src/buffer_budget.cpp), and proxies the
-- request (src/http_proxy.cpp) on a connection of the pool (src/upstream_pool.cpp). Signals begin a
-- drain and then a forced stop (src/application.cpp). Metrics (src/metrics.cpp) count all of it.
--
-- The files.
--   Base        the names that the others share; Base.Tests, Base.Lists, Base.Words (Boolean tests,
--               lists, integers of 32 and 64 bits), Base.Text (bytes), Base.Decimal (numbers as text) and
--               Base.Pieces (a text between its separators).
--   Config      include/apigate/config.hpp: the records of the configuration.
--   Load        src/config.cpp: the configuration that the environment describes. Load.Result holds
--               results and errors, Load.Scalar the variables with one value, Load.Host host names and
--               prefixes (with Labels and Segments), Load.Json and Load.Events the document and the
--               callback of its parser (Events.Bounded, Events.Seen), Load.Route, Load.Settings and Load.Routes the
--               routes, Load.App the whole. Load.Valid says what a valid configuration is, and
--               Load.Bounds, Upstreams, Checks, Placed, Keys, Loaded, Complete and Sound lead to the theorem
--               that whatever loads is valid; Load.Starts relates it to the components that use it,
--               and Load.RoundTrip is about values that are written and read.
--   Tls         src/downstream_tls.cpp and src/upstream_tls.cpp: the contexts (Tls.Trust) and the choice
--               of a protocol (Tls.Alpn).
--   RateLimit   src/rate_limit.hpp and .cpp: TokenBucket and RouteRateLimits. RateLimit.Refill relates
--               the refill to its ideal, RateLimit.Window is about sequences of calls, and
--               RateLimit.Routes about the buckets of several routes.
--   Budget      src/buffer_budget.hpp and .cpp: the controls on a heap and the permits that point to
--               them. Budget.Held and Budget.Invariant relate the two, Budget.Exact says when calls
--               succeed.
--   Health      src/health_check.hpp and src/health_state.cpp: UpstreamHealthState (Health.Slots) and
--               ProbeSchedule (Health.Schedule, with Count, Scan and Due).
--   Handler     include/apigate/http_handler.hpp and src/http_handler.cpp: route selection
--               (Handler.Boundary, Handler.Select) and the responses that the gateway makes itself
--               (Handler.Respond, Handler.Local).
--   Auth        src/api_key_auth.hpp and .cpp: keys, digests and the bearer credential
--               (Auth.Credential).
--   Admission   src/route_proxy_admission.hpp and .cpp: the rotation over a route's upstreams
--               (Admission.Rotation), its capacity (Admission.Capacity), every outcome of an
--               admission (Admission.Outcome), and what admissions keep (Admission.Kept).
--   Pool        src/upstream_pool.hpp and .cpp: what is taken (Pool.Taken), that no connection is lost
--               (Pool.Owned), and that idle ones are closed in time (Pool.Cleanup, on Pool.Loops).
--   Server      src/http_server_internal.hpp and src/http_server.cpp: the state machines that the
--               server is built of: Server.Drain, Server.Accept, Server.Permits, Server.Signals.
--   Metrics     src/metrics.hpp and .cpp: the counters and what a session observes of a request
--               (Metrics.Once), and the text that is scraped (Metrics.Render, Metrics.Size).
--   Proxy       src/http_proxy.hpp and .cpp: who reports the end of an exchange
--               (Proxy.Completion), and the messages to the upstream and to the client: the tokens of a
--               Connection field (Proxy.Tokens, and Proxy.Named and Proxy.Found, one direction each), the
--               fields that pass (Proxy.Passes, Proxy.Counts, Proxy.Fields), and the target (Proxy.Target).
--   Exchange    src/http_proxy.cpp, HttpProxyExchange::Impl: the state of one exchange, its deadline and
--               its ends; its handlers (Exchange.Handlers), and what holds over every run
--               (Exchange.Invariant, Kept and Runs).
--   Probe       src/health_check.cpp, Probe: one GET of a health check, what its handlers do
--               (Probe.Moves) and its ends (Probe.Ends).
--   Checks      src/health_check.cpp, HealthChecks: the probes of the schedule, one per slot
--               (Checks.Slots), what a launch and a report change (Checks.Launch, Checks.Moves), the
--               loop that launches them (Checks.Turns, Checks.Loop, Checks.Pump), and every run from
--               the start (Checks.Begin, Checks.Runs).
-- A module named Examples holds runs of its component and instances of its theorems.
--
-- How code is modelled. A method that changes an object is a function that returns the new object,
-- with its result beside it. An exception that leaves a function is `none`, and in the
-- loading of the configuration the ConfigError of its message. A shared or unique
-- pointer to an object that is changed through several owners is an address of a heap. Unsigned
-- integers are natural numbers, with the wrap-around written out where the source could overflow. A
-- time point of the steady clock is the number of its nanoseconds since Clock::time_point::min(),
-- below 2 ^ 64. Text is the list of its bytes.
-- The fields of a message are a list, on which Beast's `set`, `insert` and `keep_alive` do what they are
-- documented to do.
--
-- Bounds. The digits of a number are written on fuel 20, enough for 64 bits, and the loop over the
-- tokens of a value runs on one more than the value's bytes, which is more than it has commas. The loop
-- over the segments of a prefix has more fuel than the prefix has bytes, and the loop over a client's
-- protocols as much as the list has bytes; each pass consumes a byte at least. No
-- other definition runs on fuel: the loop of HealthChecks::Impl::pump is a recursion on the readings of
-- the clock that it is given, and a theorem says how many are enough; the loop of the admission over
-- the upstreams is a recursion on the number of slots that are left to visit, and the loop of the probe
-- schedule on the number of probes left; each is exactly the counter of the source's loop.
--
-- Not modelled. Sockets, TLS, resolvers and the event loop (Boost.Asio, Boost.Beast, OpenSSL) are
-- not of this repository: what the code reads from them is a parameter (the digest of a key, the
-- state of a socket, which call throws). So are the operations on a double. The body of a response
-- is kept as the JSON value that is printed. The parser of JSON, and the numbers that are no
-- integers, are nlohmann's; the model takes its events and its document. The session's
-- chain of reads and writes and the program's start are left out, as is logging.
pub mod Base
pub mod Config
pub mod RateLimit
pub mod Budget
pub mod Health
pub mod Admission
pub mod Auth
pub mod Checks
pub mod Exchange
pub mod Handler
pub mod Load
pub mod Metrics
pub mod Pool
pub mod Probe
pub mod Proxy
pub mod Server
pub mod Tls
