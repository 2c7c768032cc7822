-- ===== src/Lib.antt =====
-- The LLM gateway (the Go program under llm_gateway/), its core as definitions and what holds of it.
--
-- A request passes the API key middleware, which looks the key up through the store and the key
-- repository with its cache; the chat handler resolves the model in the provider registry, asks
-- the rate limiter and the budget, calls the provider, and hands the cost to the billing worker
-- and the usage to the usage worker. The workers take batches from a queue, retry, and put what
-- fails into a dead letter queue.
--
-- Auth: models/api_key.go and the packages auth and middleware: which requests pass (Auth/Access),
--   and the admin logins of auth/jwt.go (Auth/Login, with Grants about when they succeed).
-- Keys: storage/api_key_repository.go over its two tables (Keys/Tables), httpapi/api_key_store.go,
--   and Delete (`revoke`) and Regenerate of httpapi/admin_api_keys_handler.go; cached lookups
--   (Keys/Lookup) and what Update does to them (Keys/Revocation). Keys/Handlers: Create and Update
--   of that handler, Issued about the keys that Create issues.
-- Cache: storage/cache.go, a map and a linked list of addresses. Order holds the lemmas on the
--   list, Invariant the invariant, Lookup, Eviction, Cleanup and Capacity the effect of the calls.
-- Registry: providers/registry.go, Reload as pure functions of the rows it reads (Registry/Loading
--   about when it fails).
-- RateLimit: the sliding window of ratelimit/ratelimiter.go; Window is about AllowWithDetails over
--   a sequence of requests, on the invariant of Cover, Limits about CheckLimit, Scores holds the
--   lemmas on sorted sets.
-- Proxy: httpapi/proxy_handler.go, with its effects as a list of events.
-- Pricing: the cost of a request, models/model.go and the records beside it.
-- Billing: billing/billing.go, its synchronisation in Billing/Sync, with Failure about it;
--   Billing/Worker: billing/billing_queue_worker.go, with Settlement and Accounting about what
--   becomes of a batch.
-- UsageWorker: storage/usage_queue_worker.go and Create of storage/usage_repository.go; Loss is
--   about what is kept of a batch, Batch about one that fails part of the way, Inserts about
--   the table.
-- Worker: the retry loop that both workers have.
-- Queue: queue/queue.go; Queue/Memory and Queue/DeadLetter: queue/memory.go, and
--   RetryDeadLetterItem of the workers; Queue/RedisQueue: queue/redis.go, with Refinement about it
--   and the channel queue; Queue/RedisDeadLetters: its dead letters, with Refinement about them
--   as a map.
-- Logging: logging/redis_buffer.go (Logging/Bounded is about what the buffer holds);
--   Logging/Sink: logging/sink.go and s3_writer.go, Drained and Complete about the loop of flushAll.
-- Encryption: storage/encryption.go; Encryption/Plain is the cipher of the tests.
-- Providers: the factory and the constructors of providers/; Providers/OpenAi: Chat of openai.go
--   with auth.go, Upstream about what it sends, Stream about the StreamReader.
-- Rows: tables as lists, for the repositories below.
-- Admin: the tables behind the admin API with the registry that its handlers reload;
--   Admin/Providers: httpapi/admin_providers_handler.go and storage/provider_repository.go, with
--   Credentials and Disabled about what the handlers store and load; Admin/Aliases:
--   httpapi/admin_aliases_handler.go and storage/alias_repository.go, with Targets about Create and
--   Changes for Update and Delete; Admin/Pages: the lists of the admin API and their filters, with
--   Cover about their pages.
-- Router: registerRoutes of httpapi/router.go; Guards is about who reaches which handler.
-- Redis: what is relied on of a Redis server, as records of operations and laws.
-- Prelude: names and lemmas that all of them share.
-- The paths above are under llm_gateway/internal/.
--
-- State is passed explicitly; a method that holds a mutex is one step. The methods of the key
-- repository and of the limiter hold none across their calls of the database and of Redis: calls
-- that interleave are not modelled. What the program cannot
-- decide is an argument: the time, the case that a select takes, how a call of Redis or of the
-- database fares, new IDs. A float64 is a type with the operations that the code uses; an int
-- wraps around where the code multiplies it, and is an integer elsewhere; a Duration wraps around
-- in the backoff. The one bound is the twenty digits of a printed number, enough for 64 bits.
-- Loops are structural recursion, on a list or on the number of attempts left.
-- Loops without such a measure take fuel: flushAll as much as there are records and one more, the
-- reads of a stream one more than there are lines.
--
-- Not modelled: the HTTP server and its JSON, ServeMux, the HTTP client and S3 behind Chat and
-- WriteBatch, AES-GCM and base64, the admin handlers of models and users, SQL without
-- logic of its own, configuration and metrics, the timers that call Reload
-- and the workers, and the token bucket.
mod Prelude
pub mod Redis
pub mod Cache
pub mod Auth
pub mod Keys
pub mod Registry
pub mod RateLimit
pub mod Pricing
pub mod Queue
pub mod Worker
pub mod Billing
pub mod UsageWorker
pub mod Proxy
pub mod Logging
pub mod Encryption
pub mod Providers
pub mod Rows
pub mod Admin
pub mod Router
