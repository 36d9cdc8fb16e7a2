-- ===== src/Lib.antt =====
-- The core of tturl in the type theory of antt: the HTTP/2 batch library (tth2), the validation of
-- its ranking service (internal/ranking), and parts of its timing campaigns and of its command line.
--
-- A batch sends several requests so that their last frames leave together, and ranks the responses
-- by the order of their arrival. The parts that are modelled, and where:
--   * Tth2/Arrangement.antt (tth2/arrangement.go): which request goes out at which stream position,
--     over the trials of a cycle, and how results are keyed back to their requests. `newArranger`,
--     `startCycle`, `next`, `arrange`, `scatter` and `scatterBatch` are functions of the same names.
--   * Tth2/Result.antt (tth2/result.go): `newBatchResult` and `FullArrivalOrder`.
--   * Tth2/Pacing.antt (tth2/pacing.go): the scheduler that spaces the batches of an origin. The state
--     is the record `PaceScheduler`, each critical section of the source one function of it.
--   * Tth2/Flow.antt (tth2/conn.go): the send credit of a batch, `flowControl`.
--   * Tth2/Streams.antt (tth2/conn.go): the peer's SETTINGS and the stream IDs of a connection.
--   * Tth2/Body.antt (tth2/conn.go): a response body as its DATA arrives, and the credit that the last
--     bytes of the request bodies need; Body/Tails.antt shows that this need is one that
--     `flowControl` admits.
--   * Tth2/Records.antt (tth2/conn.go): the planner of the TLS records that carry the request bodies,
--     `planGreedyIntermediateRecordWithScratch`, on the credit that `flowControl` reports.
--   * Tth2/Scarce.antt (tth2/conn.go): the planner for scarce credit, `planScarceCreditRecord`.
--   * Tth2/Sending.antt (tth2/conn.go): a turn of `sendGreedyBodyPhase`, which makes the caps of the
--     streams from the flow control, chooses between the two plans and reserves the credit of the one
--     it sends.
--   * Tth2/Pool.antt (tth2/transport.go): the pool of connections of an origin, each critical section
--     one function, the calls of any number of clients one step relation.
--   * Tth2/Lease.antt (tth2/lease.go, tth2/connection_owner.go): who may use a connection and how often
--     it goes back to the pool.
--   * Tth2/Trials.antt (tth2/trials.go, tth2/trialstream.go): the summary of a trial stream and its
--     `tally`; Tth2/TrialWork.antt: the workers that share the blocks of a run, each move of one
--     worker a step; Tth2/TrialSend.antt: `sendTrial` and `warm` inside `work`, with the replacement of
--     a lost connection.
--   * Ranking/Comparator.antt (internal/ranking/comparator.go): which arrangements and which rank
--     vectors the service accepts; they feed and come from a batch of tth2.
--   * Ranking/Sampler.antt (internal/ranking/baselinereservedoutliersolver.go): how `serve` samples the
--     items of a comparison (`sampleComparison`, `sampleConfirmation`); Sampler/Ruling.antt drops
--     candidates (`settleEvidence`) and Sampler/Runs.antt runs both in any order. What it returns goes
--     to the comparator.
--   * Curlblocks/Segments.antt (internal/curlblocks/segment.go): the split of the arguments into the
--     blocks of the command line; Curlblocks/Fan.antt (internal/curlblocks/vary.go): the requests
--     that one block stands for; Curlblocks/Ranges.antt (internal/curlblocks/varysource.go): the
--     ranges that give a fan its values.
--   * Command/Workload.antt (cmd/tturl/measurement.go): the number of requests a measurement plans.
--   * Command/Quota.antt (cmd/tturl/demo_server_quota.go): a quota of the demo server whose check and
--     count are two steps; Command/QuotaStore.antt: the store of the quotas, whose specification is
--     the list of QuotaStore/Recency.antt; Command/FixedWork.antt: `benchmarkDemoFixedWork`,
--     `iterationsFor` and `resolveDemoServerConfig`.
--   * Timing/Schedule.antt (internal/timing/campaign_schedule.go): the units of work of a campaign and
--     the order of a trial, which is the rotation of a batch of tth2.
-- Common.antt holds what they share: tests on numbers, lists by native numbers, counting, integers.
--
-- Slices are lists, an index out of range and an explicit panic are `none`, errors are values
-- without their text, machine integers are numbers with their wrap-around written out. A lock held
-- for a whole function makes the function one step; the order of the steps is the theorem's list of
-- operations, so it holds for every interleaving. Loops run over lists where the source ranges over
-- one. The other loops have fuel: `bits.Len` the width of a word, the split of the arguments their
-- number, the benchmark of fixed work its doublings up to the maximum, the search of the record
-- planner the width of its interval, its residual pass and the planner for scarce credit the credit
-- that is left; the theorems of these functions show that it is enough.
-- Floating point, the SHA-256 digest, dialling and the contents of a response are parameters;
-- the draws of the random source are a list.
--
-- Not modelled: sockets, TLS and frames (golang.org/x/net), the map from origins to pools, the
-- statistics, the sockets of the timing campaigns, and the reports and flag parsing of the command
-- line.
pub mod Command
pub mod Common
pub mod Curlblocks
pub mod Ranking
pub mod Timing
pub mod Tth2
