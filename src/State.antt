-- ===== src/State.antt =====
-- backend/app/v2/domain/scrum_state.py: the authoritative state of a Scrum team, and the checks
-- that a value of it passes when it is made. A UUID is the number that it stands for, an instant
-- the microseconds since a fixed origin in UTC, a date its ordinal. Integers are natural numbers,
-- so the checks that a value is no negative one, and those of Python's types, hold by the types.
pub mod Checks
pub mod Names
pub mod Work
pub mod Sprints
pub mod Counters
pub mod Samples
pub mod Collections
pub mod Validation
pub mod Snapshots
pub mod Visits
pub mod Rounding
pub mod Tests
