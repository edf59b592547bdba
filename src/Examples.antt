-- ===== src/Examples.antt =====
-- Concrete inputs: each theorem with hypotheses at an input where they hold, and tests.
mod Sessions
mod Files
mod Runs
mod Contexts
mod RedisSessions
mod Schedules
mod Schedulers
mod Expressions
mod Evaluations
mod Events
mod Blueprints
