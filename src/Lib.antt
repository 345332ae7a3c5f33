-- ===== src/Lib.antt =====
-- wlog, a Go library for wide-event logging: one event is built per unit of work and sent once.
--
-- A unit of work starts an event, callers write fields, groups, log lines and errors to it, and its
-- end seals it and takes it through fixed stages: level filter, head sampler, enrichers, tail keep,
-- redaction, size cap, drains. A drain may batch what it gets for a backend. The modules:
-- - Base: lists, tests and case splits that every module shares; nothing of the program.
-- - Value: the tree of values that an event owns, Go's maps and slices in it, and `valueSize` (value.go).
-- - Event: one event between Start and its end. Event/Writes has Set, Field, SetGroup, UpdateGroup,
--   Append, AppendLog and CountDropped with their caps (event.go, logs.go); Event/Errors has
--   recordError and SetLevel (errors.go, level.go); Event/World has the events of a process, which
--   name their parents by index, what a write on a sealed event does, and what the end of an event
--   writes (detach.go, event.go).
-- - Memory: the in-process drain, a ring of events and its subscribers (drain/memory/memory.go).
-- - Pipeline: the batching drain. Pipeline/Options is config.go; Buffer, Batch, Partial, Backoff and
--   Reports are the parts of pipeline.go and partial.go; Pipeline/Run is all of it as steps of
--   callers and worker, which interleave; Pipeline/Fanout is the drain that gives each of several
--   drains a queue and a worker (pipeline/).
-- - Sample: head rates, keep rules and globs (sample/).
-- - Stages: what happens to an event that ended, and the size cap (stages.go, event.go, plain.go,
--   stats.go, summary.go).
-- - Propagate: the trace context in the headers of a message, Extract and Inject, and the formats
--   that are only read (propagate/).
-- - Redact: the words of a key, the rules of the denylist and how they are built, and Apply over an
--   event (redact/).
-- - Audit: the journal of audit records, over bytes. Audit/Lines is one line and its check, Verify the
--   walk of a file, Journal the writing and the opening of one (audit/journal.go, verify.go, sign.go).
--
-- A function of the source is a function of the same name in snake_case. A call that changes state
-- takes the state and gives it back; a call that runs with a lock held is one step. A helper by
-- clauses stands for a branch on a value that the source looks up. Natural numbers have no bound,
-- but for the durations of the retries, which are words of 64 bits and wrap around, and the indices
-- and options that a caller gives, which are integers of either sign.
--
-- Bounds and fuel: the walk of a late write to an ancestor has as fuel the number of events, which is
-- enough because a parent is older than its child. sendBatch takes one turn more than MaxAttempts,
-- and the last turn finds it over. All other loops go over a list.
--
-- Parameters: a Sender, a wait and the random jitter (Pipeline), path.Match, the hash of a trace id,
-- the random draw, the space of a text and the arithmetic of percentages, which are floats (Sample),
-- hooks, the redactor and the summary (Stages), the extractor of errors (Event/Errors), the Unicode
-- tables and the carrier of the headers (Propagate), the Unicode tables, path.Match, EqualFold, the
-- regular expressions and the decimal numbers (Redact), and SHA-256, HMAC, JSON and what the
-- operating system does with a file (Audit).
--
-- Not modelled: copying values by reflection (a value here is a tree, so nothing aliases), rendering
-- and encoding, Flush and Close of the drains behind a fan-out, the built-in value patterns and the
-- options of a redactor, records of audit, files of configuration, the network drains, the adapters for
-- frameworks and queues, the command line tool, and goroutines within a step.
pub mod Base
pub mod Value
pub mod Event
pub mod Memory
pub mod Pipeline
pub mod Sample
pub mod Propagate
pub mod Redact
pub mod Audit
pub mod Stages
