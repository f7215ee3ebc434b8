-- ===== src/Lib.antt =====
-- The storage engine, the query language and the alert state machine of omni-metrics, a
-- Prometheus-shaped metrics system.
--
-- A label set (internal/model/labels.go) names a series, and a matcher (internal/model/matcher.go)
-- selects label values. The head (internal/tsdb/head.go) holds the series with their samples, the
-- chains of label hashes and the postings from label values to references. The write-ahead log
-- (internal/tsdb/wal.go) keeps what was committed in files of framed records. The engine
-- (internal/tsdb/tsdb.go) joins them: an appender stages a batch against the head, and its commit
-- writes the log first and then the samples into the head. A query (internal/promql) is cut into
-- tokens, parsed into a tree and evaluated at one instant or at the steps of a range, where its
-- selectors read the head. An alert rule's evaluation advances the state of each series that its
-- query returns.
--
-- Files and code:
--   Prelude             lists, tests, integers, byte strings and association lists
--   Model/Labels        labels.go: normalize, FromStrings, Get, Has, Equal, Hash, String
--   Model/Matcher       matcher.go: NewMatcher, Matches
--   Tsdb/Binary         the varints and fixed-width integers of encoding/binary that wal.go calls
--   Tsdb/Record         wal.go: encodeSeries, decodeSeries, encodeSamples, decodeSamples, decoder
--   Tsdb/Head           head.go: newHead, getOrCreateLimited, acquire, addSeriesWithRef,
--                       insertLocked, appendSample
--   Tsdb/Head/Query     head.go: query, candidatesLocked, matchesAll, samplesInRange, labelNames,
--                       labelValues
--   Tsdb/Head/Removal   head.go: truncate, reclaimIfEmpty, removeSeriesLocked
--   Tsdb/Wal            wal.go: writeRecord, rollLocked, applyRecord, replaySegment, replayWAL
--   Tsdb/Db             tsdb.go: Append, Commit, Rollback, Truncate, HeadSeries
--   Promql/Token, Lex   lex.go: the tokens; lex, lexString, lexNumberOrDuration
--   Promql/Ast          ast.go: the query tree, the names of aggregators and functions
--   Promql/Duration     parse.go: parseDuration
--   Promql/Parser       parse.go: peek, next, expect and lists of labels
--   Promql/Operator     parse.go: binaryPrec, binaryOpInfo, parseVectorMatching
--   Promql/Selector     parse.go: parseSelectorFrom, parseMatchers, parseAtModifier
--   Promql/Postfix      parse.go: parsePostfix, setOffset, setAt
--   Promql/Parse        parse.go: Parse, parseExpr, parseUnary, parsePrimary, calls, aggregations
--   Promql/Series       parse.go: ParseMatchers
--   Promql/Value        value.go, and evalResult of engine.go; the parameter Runtime
--   Promql/Signature    funcs.go, funcs_helpers.go: labels of results, keys and groups
--   Promql/Binary       funcs.go: applyBinary, scalarVectorOp, vectorVectorOp, vectorSetOp
--   Promql/Aggregate    funcs.go: aggregate, aggregateTopk, aggregateCountValues; quantile
--   Promql/Ranges       funcs.go: applyRangeFunc, rangeFuncValue; linearRegression
--   Promql/Histogram    funcs_helpers.go: bucketQuantile; funcs_lib.go: callHistogramQuantile
--   Promql/Functions    funcs_lib.go: evalCall and the functions that it calls
--   Promql/Engine       engine.go: InstantQuery, RangeQuery, evalExpr and the selectors
--   Alerts/State        internal/alerts/state/state.go: Next
--   Alerts/Fingerprint  internal/alerts/models/models.go: Fingerprint, State.String, ParseState
--   Alerts/Severity     internal/alerts/notify/severity.go: MapSeverity, IsSeverity, meetsMin
--   Alerts/Rule         internal/alerts/evaluator/evaluator.go: EvaluateRule, record, indexSamples,
--                       sortedKeys, mergeLabels; internal/alerts/models/models.go: what they use
-- The other files hold proofs, and Tests holds instances of them.
--
-- Modelling. A string is its list of bytes, a float value its 64 bits, a map an association list in
-- the order of insertion. Unsigned 64-bit numbers wrap where the code lets them; timestamps are
-- integers. A nil result or an error is `none` or a case of a result type, a panic is its own case.
-- The head's invariant `IsHead` ties the series, the chains and the postings together.
--
-- Bounds and fuel. The replay loop takes one unit of fuel for each byte of the file, since a record
-- has nine bytes or more. The varint reader takes ten rounds, as encoding/binary does. The lexer
-- takes one unit for each byte and the parser one for each token, since a round of each uses one up.
-- The steps of a query are counted by an int64: a loop up to the greatest one runs through all 2^64
-- values of the counter and is then `endless`.
-- The evaluation recurs on the query tree. An int64 is an integer, with its arithmetic modulo 2^64.
--
-- Parameters. `can_make` says which capacities the runtime allocates; `compile` is the regular
-- expression compiler. `Calls` has what the parser calls: the regular expression compiler, ParseFloat
-- and the conversion of seconds to milliseconds. `Runtime` has what the evaluation calls: float
-- arithmetic, and the packages math, strconv, regexp, sort and time. `select` is the querier, which
-- Promql/Engine/Selectors instantiates with the head. `Store` has the operations of the alert store
-- on its state and `fresh` the new identifiers.
--
-- Not modelled: errors of reading, writing and syncing files, the directory listing, locks (each
-- operation of the head holds the lock for its whole length), and the parts of the program above the
-- storage engine and the query engine: scraping, push, the alert store, scheduler and
-- notifications, configuration and the HTTP handlers. The evaluation of queries leaves out a context
-- that is cancelled and the texts of errors; how equal or NaN values sort is the parameter's. Runs of
-- the storage engine have one open batch at a time; Tsdb/Db/Shared is about two.

pub mod Prelude
pub mod Model
pub mod Promql
pub mod Alerts
pub mod Tsdb
pub mod Tests
