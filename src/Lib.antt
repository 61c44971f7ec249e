-- ===== src/Lib.antt =====
-- clipal: a model of the routing, failover, reload and pricing of Clipal, with the theorems that make it correct.
--
-- Clipal forwards the requests of coding agents to one of several providers. Each client type has a
-- ClientProxy, which keeps the health of its providers and of their API keys, a cursor for each of four
-- routing scopes, and one circuit breaker per provider. A request is tried with provider after provider
-- and key after key until one answers; what each attempt comes to is reported to the breaker and may put
-- a key or a provider in quarantine.
--
-- The files and the code:
--   Clock, Common        times and durations of package time as numbers of nanoseconds; slices, Go's
--                        signed integers, strings as lists of code points
--   CircuitBreaker       internal/proxy/circuit_breaker.go, every function
--   Providers            capabilities and routing scopes (internal/proxy/protocols.go), which provider
--                        serves which capability (internal/proxy/oauth_codex.go) and the fields of
--                        config.Provider that failover reads (internal/config/config.go)
--   Failover/State       ClientProxy of internal/proxy/proxy.go, as far as failover reads and writes it
--   Failover/Availability, Ring, Cursors, Quarantine, Waiting, Busy, Permits
--                        internal/proxy/failover_state.go: which providers and keys may be used, where
--                        the cursors go, quarantines, the time until something is available, busy
--                        providers, and the permits of the breakers
--   Failover/Forward     forwardWithFailover of internal/proxy/failover_forward.go: Turns is what one
--                        attempt leads to, Keys the loop over keys, Loop the loop over providers, and
--                        Replies what comes before and after. The ends of streamResponseToClient
--                        (internal/proxy/failover_stream.go) are data: what they do to the proxy is
--                        finish_stream
--   Failover/Classify    internal/proxy/failover_classify.go, every function, and the log line of a body
--                        (internal/proxy/failover_body.go): Sanitize, RetryAfter, TooMany for the bodies
--                        of a 429, Upstream for the action on an answer
--   Protocols            internal/proxy/protocols.go: Paths and Canonical bring a path to its version,
--                        Detect finds its capability, Contexts the context of a request, Names the
--                        strings of the constants
--   Sticky               internal/proxy/sticky.go: Keys is what a request is remembered by, State what a
--                        proxy remembers
--   Pricing              internal/pricing: Rational and Decimal for the amounts, Spec for usage and
--                        prices, Rates for tiers and thresholds, Candidates for the names of a model,
--                        Cost for the sum
--   OauthCooldown        internal/proxy/oauth_cooldown.go: Windows for the answers of the usage services,
--                        Hints for headers and bodies, Choice for what counts
--   Reload               internal/proxy/proxy.go: Settings from the configuration, Inherit for what a
--                        reloaded proxy takes over
--   Json                 the values that encoding/json decodes
--   DnsCache             what the resolver of internal/outbound/dns_cache.go stores
--
-- A method that holds the mutex from start to end is one function from state to state, so that calls by
-- several goroutines are sequences of such steps. Every reading of the clock is an argument: a function
-- that reads it more than once takes one argument for each reading. The outside of forwarding is a
-- World, which answers by the number of the event: what an attempt came to, whether the client has left,
-- whether a wait was sat out, and what the clock reads.
--
-- Go's library is not modelled but for the functions of package strings: json.Unmarshal, strconv.Atoi,
-- time.ParseDuration, http.ParseTime, strings.ToLower on keys and SHA-256 are parameters. Bodies, log
-- lines and amounts are lists of bytes.
--
-- An index is a signed integer, as in Go, and a write outside a slice is written out as the guard of the
-- code has it. Times are natural numbers with no upper bound, so the overflow of a time or of an int is
-- not modelled; the zero time is 0. The loops recurse on what is left of a slice or of a number of
-- offsets, but for two that take as fuel the length of the text which each round shortens: the nested
-- versions of a path and the prefixes of a model's name. The loop over keys may start again once, for
-- the one busy retry.
--
-- Not modelled: the network, the client's connection and the streaming of bodies; logs, notifications,
-- telemetry and the records of the last request and switch; the state of sticky sessions inside of
-- forward, where the provider that they prefer is an argument, as is the outcome of classification;
-- manual mode's forwardManual and the single-shot count of tokens but for its choice of a
-- target; the embedding and decoding of the price catalog, which is a parameter; the requests to the
-- usage services; OAuth requests and credentials, configuration but for routing settings, integrations,
-- the web interface and self-update.
pub mod Common
pub mod Clock
pub mod CircuitBreaker
pub mod Providers
pub mod DnsCache
pub mod Json
pub mod Reload
pub mod OauthCooldown
pub mod Pricing
pub mod Sticky
pub mod Protocols
pub mod Failover
