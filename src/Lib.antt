-- ===== src/Lib.antt =====
-- Models and proofs for fit-go, translated from the Go sources.
--
-- The repository is a set of service packages. This library models parts of nine of them.
--
-- migration/migration.go runs compiled database migrations against a durable state, under a lock.
-- Migration.Ids has the identities (ParseID, CanonicalID, compareID), Migration.States the persisted
-- state and its normalization, Migration.Registry the runner that NewRunner builds and how targets
-- select from it (resolveTarget, resolveRunRange), Migration.Checks what is read off a state
-- (validateState, statuses, latestApplied), Migration.Runner the operations that Run, Revert, RevertOne
-- and List perform, and Migration.Locks the lock around them (withLock). Ids and Registry are pure; the
-- runner calls the store, the clock, the context, the locker and the application's Up and Down
-- functions, which are parameters: Migration.Effects has an environment that answers each call, as a
-- function of the number of calls made before it, and a world that holds the stored state and the
-- history of calls. So each schedule of failures, lost leases, and writes that are lost or that
-- report an error after they were made, is one environment. Programs are functions from a world to
-- a result or an error, and a new world. Go maps are association lists; the order of their entries
-- stands for the order in which Go ranges over the map. A nil map is the empty list. Text is a
-- list of bytes or code points. Panics of the called functions are not modelled, nor is the deferred
-- release after a panic.
--
-- redis/ioredis_resp.go holds the RESP2 codec of the ioredis client. Resp.Encode has the encoder
-- (encodeIORedisRESPCommands), and Resp.Decode the decode budget and the readers
-- (readIORedisRESPLineWithBudget, readIORedisRESPValueWithBudget), over the list of the bytes that the
-- connection will deliver before it ends. The reader of values recurses on the levels of nesting that
-- are left: 129 at the start, for the depths 0 to 128 that the source admits, and its error at level
-- zero is the source's depth error. The connection, its deadlines and its reconnection are not
-- modelled.
--
-- instrumentation/registry.go keeps the compiled instrumentations and starts and stops the selected ones.
-- Instrumentation.Registry has Register and the selection and configuration of Start, and
-- Instrumentation.Lifecycle the loop of Start, the rollback and Shutdown. Factories and hooks are a
-- parameter that answers each call by the number of calls before it, and the history has a member for
-- each call. The validity of JSON is a parameter. A registration stands for the pointer to it that the
-- source's map and list share; nil registries and managers, the mutexes, and calls of Shutdown at the
-- same time are not modelled, and sync.Once is a flag.
--
-- feature/sse.go reads the events that a feature server streams. Sse.Event has the accumulator of one
-- event (featureSSEEvent), and Sse.Split the split function of newFeatureSSEScanner, as a function from
-- the variables of its closure and the buffered bytes to what it returns. bufio's Scanner, which calls
-- it, is not modelled.
--
-- utils/strings.go has helpers on texts. Utils.Strings has those that shorten, mask and pad.
--
-- health/health.go runs health checks and writes the liveness file. Health.Checks has Check, the checks
-- of connections and the interval, and Health.Periodic the periodic loops as a step relation: a step is a
-- section that periodicMu guards, a loop's check, its look at the stop flag, or its write, of any
-- loop and in any order. A loop's stop channel, done channel and flag are its number. Deadlines, by
-- which a caller gives up its wait, need no step: the theorems speak of callers that waited. The
-- generation is a natural number, since 2^64 stops do not happen.
--
-- config/schema.go checks and resolves the configuration by a schema. Config.Values has the kinds and
-- parsers, Config.Constraints the constraints on a value, Config.Evaluate the body of ApplySchema's
-- loop for one field, Config.Schema has NewSchema, and Config.Apply the two locked sections of
-- ApplySchema, with the configuration that each of them sees: other goroutines may write in between.
-- Floats, the decoder of JSON, regular expressions, durations with units, case folding and the copy by
-- reflection are a parameter: a JSON text decodes to a number, which is a float, to a text, to a truth
-- value or to another value of the parameter, and parsers, cloners and validators are the application's functions. The texts of
-- the errors of parsers are left out, and nil receivers are not modelled.
--
-- feature/strategy.go decides which value of a feature a client gets. Feature.Hash has murmurHash3 and
-- the percentage of a client, Feature.Matchers, Feature.Versions and Feature.Attributes the
-- conditions on the context, Feature.Strategies applyStrategies, and Feature.Casts the casts to the
-- declared type. Percentages are natural numbers, for which the float64 sums of the source are exact;
-- floats, dates, addresses and regular expressions are a parameter, and a value of an attribute is
-- what fmt.Sprint prints of it. feature/flags.go keeps the features of a client. Feature.Repository has
-- the sections that the client's mutex guards (applyFullFeatureSet, applyFeature, deleteFeature,
-- replaceAttributes, the stale window) and the evaluation of a feature, Feature.Stream the way from the
-- lines of a stream through the accumulator of Sse.Event to those sections (consumeStream,
-- handleEvent), Feature.Backoff the delays between two streams, and Feature.Waits how long they are at most. A client is what its mutexes
-- guard; the JSON decoders are a parameter, the context that Stop cancels is not done, and signals to
-- waiting goroutines, the loop around the streams and the HTTP requests are not modelled. Delays are
-- nanoseconds; the doubling loop has as fuel the rounds that its index allows.
--
-- logging/ratelimit.go limits the rate of log records. Logging.RateLimit has the token bucket and the
-- decision of the handler. Balances are natural numbers of billionths of a token, exact where the
-- float64 of the source rounds. Rates, starting balances and maximums are whole numbers of tokens, as in
-- the presets of the repository: a rate or balance that has a fraction, or is below zero, is not
-- modelled.
--
-- errors/errors.go and errors/codes.go give errors their codes and messages. ErrorCodes.Codes has the
-- registry and the errors. Codes and ids are natural numbers, the metadata of an error is left out,
-- and the registry is an argument where the source keeps a pointer to it.
--
-- Base has what the parts share: tests on numbers, lists measured by native numbers, texts (TrimSpace,
-- TrimSuffix, Split at one character, EqualFold and the comparison of strings, for code points of one
-- byte and the white space
-- of unicode.IsSpace), association lists, results, and decimal numbers (strconv.ParseUint and ParseInt
-- to base ten, and fmt's %d). Numbers of 64 bits are natural numbers or integers with the range
-- checks of their parsers; migration numbers are only compared, and budgets only decreased within
-- their range.
--
-- The encoding of the state as JSON, the stores, the cloud stores and the other packages of the repository
-- are not modelled.
pub mod Base
pub mod Migration
pub mod Resp
pub mod Instrumentation
pub mod Sse
pub mod Utils
pub mod Health
pub mod Config
pub mod Feature
pub mod Logging
pub mod ErrorCodes
