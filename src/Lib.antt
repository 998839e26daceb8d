-- ===== src/Lib.antt =====
-- A model of the TypeScript library react-native-sync-provider: an offline queue of HTTP requests
-- whose storage and dispatch are native (Swift, Kotlin) and whose API, validation, backoff formula
-- and bounded drain loop are TypeScript. Paths are from the repository's root.
--
-- Parts:
-- - Types: src/types and src/errors. Enums are data types, interfaces are records. Types/Value has
--   the dynamic values that a caller may pass (`unknown`), with `typeof`, property access and
--   `Object.keys`; `undefined` and absent are one, prototypes and getters are left out.
--   Types/Number: a finite number is an integer, fractions and float rounding are left out.
--   Types/Errors: a `throw` carries a `SyncError`, another `Error`, or any value; a promise ends in
--   an `Outcome`.
-- - Validation: src/utils/validateSyncItem.ts. Issues has the checks, Url the regular expression
--   over code points, where it matches as it does over UTF-16 units; Laws, Reports and Codes have
--   the proofs.
-- - Backoff: src/utils/retryBackoff.ts. `Math.random()` is a fraction that the caller gives. Delay has
--   the code over doubles that are exact below 2^1024 (the rounding to 53 bits is left out), infinite
--   from there on, and not a number where 0 meets infinity. Exact is the same arithmetic without a
--   bound, Spread and Laws speak of it, and Range says where the two agree and what holds beyond.
-- - Native: src/SyncProvider.nitro.ts (the interface, a record over a native state `S`, since the
--   native code is a parameter), and the memoized probe of src/utils/isNativeModuleAvailable.ts with
--   assertNativeModuleAvailable.ts and errors.ts. `createHybridObject` is a parameter that may
--   throw, give nothing, or answer differently each time.
-- - Facade: src/index.tsx over Native and Validation. A function is one step of the world (the
--   module variables of the probe and the native state). Facade/Drain puts them under the drain
--   controller, with a timing as a parameter.
-- - Serialization: src/utils/serializeSyncItem.ts and deserializeSyncItem.ts, with
--   `JSON.stringify` and `JSON.parse` as parameters.
-- - Web: src/index.web.tsx, the functions, the hooks and the context that stand in where there is no
--   native module.
-- - Drain: src/utils/drainController.ts. Frame has the module's state and the variables of one
--   `runDrain`, Race has `raceWithStop` and `sleepWithStop`, Loop the loop. The native operations
--   are the source's own interface `DrainNativeOps`, over an environment: a call answers after some
--   ms, rejects, never settles, or is interrupted by `cancelDrain()`, which may also come between
--   the answer and the resumption. Timers are exact, and of a promise and a deadline that come in
--   the same ms the promise wins. The loop runs on fuel, one more than the iterations and the ms
--   up to the deadline; a pass that does not end the loop flushes or waits, so this is enough.
--   Log records the calls with the time of each, and Order and Discipline say what such a log looks
--   like; Prompt is an environment that answers in time, Sound one that keeps an invariant.
-- - IdGenerator: src/utils/idGenerator.ts, with `Math.random()` as a fraction for each call.
-- - Hooks: src/hooks, src/contexts/SyncProvider.tsx and src/types/hooks.ts, a module per hook and
--   one for the provider. A hook is a program: its state (the cells of `useState`, the refs, the
--   variables of the effect), the promises that it waits for, and a handler for each settled
--   promise, each input (an event, a timer, a call of the component, a render) and the cleanup.
--   Runtime says how such programs run: waits settle in any order and with any answer, inputs come
--   at any time, the cleanup runs once; what is reached is an indexed data type. A `setState` is
--   seen by every later step. A program is one run of the effect, that of the provider all its runs.
--   The facade's functions are what is waited for; those that a hook only passes on (`enqueue`,
--   `flush`, `pause`) are in Facade. Listeners is the interface of the hooks that hold one listener,
--   Catalogue the hooks that fill it.
-- - Backoff/Kotlin and Backoff/Swift: the ports in
--   android/src/main/java/com/margelo/nitro/syncprovider/retry/RetryPolicyEvaluator.kt and
--   ios/Retry/RetryPolicyEvaluator.swift; Agreement, Truncated and RangeKotlin compare them with
--   retryBackoff.ts. The Swift port is over exact numbers: its cap of 2^53 - 1 and its guard against
--   a product that is not a number make an overflow come to the same.
-- - Android: the engine in android/src/main/java/com/margelo/nitro/syncprovider. Rows has
--   database/SyncItemEntity.kt and SyncItemDao.kt, a table as the list of its rows and a statement
--   as a function on it; Storage has storage/SyncQueueStorage.kt; Attempt, Dispatch and Cycle have
--   http/SyncDispatcher.kt; Wake has retry/RetryWake.kt and Timer retry/RetryTimer.kt, a step
--   relation. The order in which SQLite comes upon rows, `org.json`, the URL parser, the ids of `Ulid`,
--   OkHttp's answers, the clock and the failures of the database (the claim, the write of an attempt or
--   of the result, `resetInFlight`) are parameters; `ORDER BY` is a sort, in Rows and Sorting. The sum
--   of the clock and a delay that does not fit into a `Long` wraps to a negative time, which is 0 here.
--   The requests of a cycle run concurrently: each writes one row in one statement, in an order that
--   is a parameter. A cycle is one step, as the mutex makes it for other cycles; an `enqueue` or a removal within a cycle is left
--   out. Tables, Verdict, Fate and Refinement lead to the abstract cycle that says what becomes of each
--   row; Settled, Budget, Outcomes, Reports and Events follow from it; Engine runs operations one
--   after another.
-- - Common: Boolean tests, lists over native numbers, integers, texts.
--
-- Not modelled: the rendering of React and its strict mode, the iOS engine but for its backoff, of the
-- Android code WorkManager, connectivity, the stored configuration and its keys, the observers and
-- the reading of the history, the example app and the website.
pub mod Common
pub mod Types
pub mod Drain
pub mod Validation
pub mod Android
pub mod Backoff
pub mod Native
pub mod Facade
pub mod Web
pub mod Serialization
pub mod IdGenerator
pub mod Hooks
