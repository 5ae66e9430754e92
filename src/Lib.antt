-- ===== src/Lib.antt =====
-- Jira simulator: verification of the parts of the backend that decide what is simulated and what
-- is written to Jira.
--
-- The second version of the backend (backend/app/v2) advances a scrum team through working time
-- and commits, with each tick, intents for Jira; a worker drains the intents in order. The first
-- version (backend/app/engine, backend/app/integrations) computes a sprint item by item with
-- sampled times and queues the writes.
--
-- - Base and its children: the names of the libraries, tests on numbers, lists, sorting, white
--   space, and Result for code that raises.
-- - Delivery: backend/app/v2/domain/jira_delivery.py. Delivery/Store is
--   backend/app/v2/persistence/jira_delivery_store.py over the rows of jira_delivery_models.py,
--   with a transaction as a function of the tables; Delivery/Worker is
--   backend/app/v2/application/jira_delivery.py. The adapter that talks to Jira is a parameter.
-- - Tick: backend/app/v2/domain/scrum_tick.py, from _advance_segment to _proficiency. Tick/Capacity
--   has the capacity of a member, Tick/Owners the assignment of visits, Tick/Advance the advance
--   of a visit and a segment. A tick calls _advance_segment for each segment of business time,
--   which Tick/Segments cuts; Tick/Causes sums the queue time.
-- - State: backend/app/v2/domain/scrum_state.py. State/Checks has the single checks, State/Names the
--   identifiers of deterministic_rng.py, State/Work, Sprints, Counters and Samples the records,
--   State/Collections and Validation what is checked of all of them; Snapshots, Visits and Rounding
--   have the proofs. A validation is the list of its checks in the order of the source, and the
--   first that fails is raised.
-- - Lifecycle: backend/app/v2/domain/sprint_lifecycle.py over the State. Lifecycle/Scope selects
--   work, Lifecycle/Boundary crosses a boundary, Lifecycle/Intents writes what the worker of
--   Delivery then takes to Jira.
-- - Scheduler: backend/app/v2/application/live_scheduler.py and team_tick.py with
--   backend/app/v2/persistence/due_team_store.py. Scheduler/Boundaries finds the instants that
--   Lifecycle crosses, Scheduler/Advance is the turn of one team.
-- - Engine: backend/app/engine/capacity.py (Members), distributions.py (Distributions),
--   workflow_engine.py (Route for the order of steps, Entry for the entry into a status, Moves for
--   the direction, Workflow for the tick of an item) and sprint_lifecycle.py (Planning).
-- - Holidays: backend/app/v2/domain/us_federal_calendar.py.
-- - Queue: backend/app/integrations/jira_write_queue.py; the recovery is Queue/Recovery,
--   with the session factory that it is given.
-- - Dispatch: backend/app/engine/event_dispatcher.py, which moves due events into the queue.
-- - Health: backend/app/integrations/jira_health.py, whose status the write queue reads.
-- - Calendar: backend/app/engine/calendar.py, over a time zone that is a parameter; Moments has the
--   proof about the next working moment.
-- - Auditor: backend/app/engine/event_auditor.py over the rows of Dispatch and of the Queue.
--
-- Identifiers, instants and days are natural numbers. Floats are abstract: the records Floats and
-- Runtime have the operations and the laws of IEEE doubles that the theorems use, and a generator
-- of random numbers is a state that each draw returns anew. An object that the source mutates is
-- returned by the function that changes it.
--
-- Four loops take fuel. The worker's rounds take the limit of the batch, and each round that does
-- not end the loop tries an intent; the extension of the holidays takes 1000 rounds of ten years,
-- more than the range of dates has. The pages of due teams take one round more than there are
-- teams, which is proved to be enough. The turn of a team takes any number of rounds: whether the
-- ticks ever catch up is not stated here.
--
-- Not modelled: the JSON documents of a sample with the authentication of its draws, and
-- validate_against a blueprint (scrum_state.py); the resumption after a restart; risks.py, the
-- business calendar of the second version, the random draws, the bootstrap but for its selection of
-- work, precomputation, HTTP clients, the API and the migrations; the waits between calls; and the
-- choice of HTTP calls in _dispatch of the write queue, which is a parameter.
pub mod Base
pub mod Delivery
pub mod Tick
pub mod State
pub mod Lifecycle
pub mod Scheduler
pub mod Engine
pub mod Holidays
pub mod Queue
pub mod Dispatch
pub mod Health
pub mod Calendar
pub mod Auditor
