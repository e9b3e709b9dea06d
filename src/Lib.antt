-- ===== src/Lib.antt =====
-- Verification library of the Autonomous Math AI controller.
--
-- The controller runs research jobs and audits over a graph of claims. Jobs hand in candidate events;
-- the audit gate asks for audits of each candidate and decides which candidates are trusted; the claim
-- graph takes over the status of a trusted candidate as far as the contract of the research domain and
-- the verified evidence allow. Leases keep the audits going over restarts, the token governor admits
-- and counts the jobs, the lifecycle and the campaign ledger say when a run and its epochs begin and
-- end, and the turn policy with the health monitor decides whether a job takes one more turn.
--
-- Parts, and the code in src/autonomous_math_research that they model:
--   Base: lists, dictionaries, texts, integers and results with errors, shared by the parts. A Python
--     dict is a list of pairs in insertion order; an exception is an error of the part's own type.
--   Models: the enumerations and records of models.py.
--   Lifecycle.State: lifecycle/state.py. `allowed` is `_ALLOWED`, `transition` is
--     `MonotoneLifecycle.transition`.
--   Lifecycle.AuditLease: lifecycle/audit_lease.py. Book holds the leases and the lines of the file,
--     Operations the calls (`retry` is `retry_wait`). History says which lines may follow each other
--     in the file; Steps, Keeps, Loop and the others hold proofs.
--   Lifecycle.Campaign: lifecycle/campaign.py, with `validate_storage_id` of storage/__init__.py.
--     Store holds the manifest and the records, Operations the calls.
--   Governor: token_governor.py; `record_usage` is `TokenGovernor.record`. Decide holds `decide`.
--   Domain: domain_semantics.py. Contract and Builtin hold the data, Validate `_validate_contract`,
--     Semantics the methods of `DomainSemantics`, for typed contracts.
--   AuditGate: audit_gate.py. `record_result` is `AuditGate.record`; Gate holds registration and
--     `next_audit_kind`, Record the results and discards.
--   ClaimGraph: claim_graph.py. Candidate holds `mark_candidate`, Audit `apply_audit_pass` and
--     `apply_audit_reject`, Claim the claims and their obligations, Dependencies the resolved
--     dependencies, Closure `dependency_claim_closure`, Cycles the `visit` of `validate`, Validate the
--     rest of it, Frontier `research_frontier`, Dependents `__init__`, `_rebuild_dependents` and the
--     graph's part of `to_payload`, Prune `prune_failed_dependencies`.
--   Protocol: contracts.py and schema.py. Contracts holds the keys of the contracts, Metrics the counts
--     of jobs and subtasks, Json the values that `json.loads` makes. Of schema.py, Schema.Validate is
--     `validate`, Schema.Issues, Node and Compatible are `validate_output_schema_compatibility` and
--     `preflight_output_schema_files`; Pointer follows a `$ref`.
--   Representation: representation.py, on the values of Protocol.Json; RoundTrip is about `from_dict`
--     and `to_dict`, Bridges about `require_compatible_representations`.
--   Wire: the decoding of models.py, where an event and a result are the dictionaries of their
--     attributes. Candidate holds `CandidateEvent.from_dict` and `derived_claim_id`, Paths what it uses
--     of PurePosixPath, Receipts the receipts of evidence, Checks the other fields; Audit holds
--     `AuditResult.from_dict` and `from_wire_v2`.
--   Research: research_job.py (TurnPolicy) and reasoning_health.py (Health).
-- Modules named Tests run the code on concrete inputs.
--
-- How the parts meet: AuditGate and ClaimGraph both read a `DomainContract` through Domain.Semantics,
-- as the two classes share a `DomainSemantics`; both take `CandidateEvent` of Models.Events.
--
-- Numbers and bounds: counts of tokens, turns and attempts are natural numbers, as they are where the
-- code makes them; an argument that the code checks or clamps is an integer (Base.Int). Floats are an
-- interface (Base.Float) without laws; a theorem that needs a law takes it as a hypothesis. Loops go
-- over a list that stands at their beginning, but for these. The loop of `prune_failed_dependencies`
-- has as fuel one round more than there are claims, since a round that goes on blocks a claim.
-- The closure has as fuel two rounds more than all claims have dependencies, since a round takes an id
-- from the stack and each claim puts its dependencies there once. The search for cycles has two calls
-- more than there are claims, since the calls that wait are for different claims. That a
-- deep search ends in Python's RecursionError is not modelled there; `validate` of schema.py and the
-- walk of a schema take the depth that Python allows to calls, and end past it in that error.
--
-- Taken as arguments: the digests (the fingerprint of an event, the ids of leases and of
-- obligations, the representation ids, the end of a derived claim id), the clock, the lines that a
-- file holds, the callback that guards terminal transitions, and of schema.py the comparison of floats,
-- `re`, `decimal`, `json.dumps` and the parsers of formats. A schema keyword whose value has another JSON type than the keyword is for is taken as an
-- exception of its own kind, where Python goes on with some such values.
--
-- Not modelled: the controller's event loop with its processes, threads and sockets, the providers,
-- configuration and command line, JSON decoding, prompts and reports, semantic alignment,
-- canonical transitions and reconciliation; of models.py the decoding of tasks, plans and claims, and
-- the job outcomes, which are plain data; of the claim graph its JSON objects and the report
-- `compact_snapshot`; of the campaign the choice of a checkpoint to continue from, which reads files.
pub mod AuditGate
pub mod Base
pub mod ClaimGraph
pub mod Domain
pub mod Governor
pub mod Lifecycle
pub mod Models
pub mod Protocol
pub mod Representation
pub mod Research
pub mod Wire
