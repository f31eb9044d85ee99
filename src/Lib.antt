-- ===== src/Lib.antt =====
-- LabelKit labels data with large language models. This library models its deterministic core: the
-- context budgets, the circuit breaker, the runtime that schedules the model calls, and what the
-- operators do with the answers of the models.
--
-- Budget is labelkit/common/inference/budget.py. Margins has margin, input_budget and
-- embed_budget; Estimate has est_text over the list of a text's code points; Image has the prior
-- of an image; Prompt has est_prompt; Fit has fit_text; Packing has pack_windows and the windows
-- that labelkit/operators/classify.py makes of them; Calibrator has ImageCostCalibrator; and
-- Failures has classify_stage_error and feed_reactive_terminal, with ContextOverflowError of
-- labelkit/common/errors.py.
--
-- Breaker is the part of MetricsSink in labelkit/common/observability/obslog.py that
-- record_provider_result changes. Budget.Failures and Client feed it.
--
-- Client is the key pool and the retry engine of labelkit/common/inference/llm_client.py. Pool has
-- _KeyPool and the delays; Call has what _post_with_retries keeps, with the children Overflow (the
-- sniffing of a body of status 400), Settle (what one attempt leads to) and Steps (the loop, as a
-- machine whose events are the points where the coroutine waits, between which the other calls of
-- the client act on the shared pool, breaker and usage). Progress and Accounting have its
-- theorems. The usage objects and key objects that the source changes in place are found by name
-- and by index.
--
-- Dedup is labelkit/operators/dedup.py. Group has the transactions of the group index
-- (group_reserve, group_revalidate, group_commit, group_discard, reset), as turns of coroutines,
-- with the checks in Checks; Records has the index of single records (probe_prepared, _add,
-- _retract, semantic_probe, add_vector) and, in Stage, the reduction of a batch by DedupStage;
-- Kept and Right describe an outcome by the records that were kept, without the index.
--
-- Runtime is labelkit/runtime and labelkit/common/contracts/execution.py. Keys has the identities
-- of resources, origins and tasks; Resources has the checks and capacities of ResourceManager;
-- Intake has the checks of a task group and its lanes; Group has the concurrent part of
-- ExecutionRuntime as a machine whose events are the steps of the coroutines between two points
-- where they wait; Errors has _flatten_group, _unwrap_group and _raise_terminal. Intake reads the
-- capacities through Resources, as the scheduler does.
--
-- Quality is labelkit/operators/quality.py between the answers of the judges and the scores: its
-- own file has _judgments_by_key, _judgment_verdicts, _compose_orders and _majority; Plan has
-- _pairing_plan, over a random generator that is a parameter; Tally has _index_results and
-- _tally_criterion, where none is IndexError; Pool puts the two together; Ranks has
-- _average_ranks, _percentile_scores and _criterion_percentiles; and Gate has _top_ratio_selection
-- and _apply_gate with the gates that it calls. Weights and ranks are doubled there, so that 0.5
-- is 1; of the scores only the order counts; and math.ceil(top_ratio * n), a product of floats, is
-- a parameter.
--
-- Stitch is the logic of labelkit/operators/stitch.py that needs no model: aggregate_votes,
-- select_eviction, span_distance and compute_seams.
--
-- Regions is labelkit/operators/segment_geometry.py, with the records of
-- labelkit/common/contracts/regions.py in Data: Violations has steps 1 to 6 of the validation, and
-- Candidates has step 7, validate_regions and boxes_as_regions.
--
-- State is the execution of one event in labelkit/operators/generation/state.py,
-- _execute_transition and what it calls, with binding_values. A library has JSON pointers, patches
-- and schemas. Validation has the check of a patch, Transition the execution; Data has their
-- records, the violations and the monad of their outcomes.
--
-- Planner is part of labelkit/operators/generation/planner.py: intervals and the calendar search
-- over the start intervals that the windows allow, noise slots, and in Sessions the session check,
-- groups and blocks. Times are natural numbers of microseconds.
--
-- Prelude has what the parts share: Boolean tests and an interface for equality, lists and
-- integers over the native numbers, and dictionaries in insertion order.
--
-- Numbers: a Python int that cannot be negative is a natural number, and a budget, which can be,
-- is an integer. The ratios 0.10, 0.85, 1.2 and 1/3 are exact here: math.ceil of a quotient is a
-- ceiling of natural numbers. The doubles of the source give the same numbers for values below
-- 2^49: an exact integer is rounded to itself, and other values keep their distance from the
-- integers.
--
-- Fuel: the binary search of fit_text has the number of lines, the loops of pack_windows have the
-- number of frames, the loop of _average_ranks has the number of values, and a decimal number has
-- one more than itself: each round of these loops takes at least one line, frame, value or digit.
--
-- The clock of Client is a natural number of microseconds that comes with each event. In Dedup the
-- similarities are natural numbers, of which only the order counts: MinHash, np.dot and
-- np.isfinite are parameters, and a digest is a text. The record ids of an index are distinct, as
-- MinHashLSH asks.
--
-- Time, logs, files, HTTP and the texts of the prompts are not modelled. A semaphore is its number
-- of free permits. What Shapely says of a polygon, the text that json.dumps makes of a schema,
-- str.lower, and the test whether an operation can be called are parameters. A ring has a point,
-- as the schema of the answer asks.
pub mod Prelude
pub mod Budget
pub mod Breaker
pub mod Client
pub mod Runtime
pub mod Dedup
pub mod Quality
pub mod Stitch
pub mod Regions
pub mod State
pub mod Planner
