-- ===== src/Lib.antt =====
-- RouteDoctor finds out why a client does not reach an HTTP service. A probe collects evidence (checks,
-- observations, visibility assessments) over a service path whose branches form a tree; rules derive
-- claims and findings from it; a selection marks the findings that explain the failure; the report's
-- status, exit code and text follow. This library models the part between evidence and status, the
-- validation that every report passes, and the invariants of the report on which its readers rely.
--
-- Parts and files:
-- - Common: helpers without code of their own. Common/Tests has Boolean tests and `==`, Common/Lists
--   lists and insertion sort, Common/Sorting what sorting gives, Common/Texts Go strings as lists of bytes,
--   Common/Tables maps keyed by strings, Common/Climb the walk up a chain of parents that remembers
--   where it has been, Common/Reach the relation of a branch to those above it, Common/Int integers.
-- - Model: the records and string types of internal/model. Model/Ids has ids.go's types, Model/Enums
--   enums.go, Model/Entities entity.go, Model/Paths path.go and evidence_ref.go, Model/Limitations and
--   Model/Runs run.go, Model/Visibility visibility.go, Model/Claims derived.go, Model/Checks check.go and
--   version.go, Model/Observations observation.go, Model/Assertions assertion.go, Model/Issues
--   the issues of validation.go, Model/Equality reflect.DeepEqual on runs. A field is a field, a pointer an Option, a slice a List. A string type has a
--   constructor for each constant and `invalid s` for any other string `s`.
-- - Utf8 and Ids: validID, generatedNumber and the comparisons of internal/model/ids.go, and claimID and
--   findingID of internal/rules/ids.go. Ids/Kinds has Valid of each kind of identifier. Decimal: itoa of internal/model/validate_selection.go.
-- - Branches: the maps of branches and of parents that several functions build, and the leaves.
-- - GlobalPrimary: GlobalPrimaryProof and ValidateSelection of internal/model/validate_selection.go.
-- - Selection: Apply of internal/selection/selection.go. Selection/Statements compares findings,
--   Selection/Leaf is the round for one leaf, Selection/Apply the whole. The other children prove.
-- - Status: Status of internal/clientprobe/status.go. Its children prove.
-- - Listener: internal/model/listener_absence.go. Listener/Times is the coherence of times,
--   Listener/Complete the completeness of an inventory, Listener/Absence the evidence for absence.
-- - Canonical: internal/model/canonicalize.go. Canonical/Compare has the comparisons, Canonical/Tree the
--   order of branches, Canonical/Runs the two canonicalizations. The other children prove.
-- - Rules: internal/rules. Rules/Templates has the types of internal/rules/ruleapi/rule.go, Rules/Positions
--   the branches and positions of a piece of evidence, Rules/Tcp, Rules/Tls and Rules/Listener the three
--   rules, Rules/Registry the registry, Rules/Default the one of default_registry.go,
--   Rules/Coverage what the listener rule asks of the recorded listeners, Rules/Compile the loops that
--   make claims and findings, Rules/Evaluate the evaluation up to the validation of its result,
--   Rules/Reevaluate the evaluation with it and Reevaluate. Rules/Provenance is about where the claims
--   and findings of a run come from, Rules/Quiet about candidates that are compiled without an issue,
--   and the modules below Rules/Default about what the whole gives for validated evidence.
-- - Procfs: the parsing of a table of sockets in internal/localdiagnosis/procfs.go. Procfs/Scan has the
--   functions of Go's library that it calls, Procfs/Endpoint addresses and endpoints, Procfs/Row the rows
--   and the table.
-- - Validation: the validators of internal/model. Validation/Shared has addIssue and the loops over a
--   collection, Validation/Runes the loop over the characters of a string, Validation/Texts the checks of
--   texts in validation.go and ParseRuleID. Of validate_evidence.go and validate_base_remaining.go,
--   Validation/Shapes has times, targets, vantage points, capabilities and assertions,
--   Validation/Entities entities and limitations, Validation/Paths validatePath, Validation/Checks
--   check definitions, validateCheckDAG and executions, Validation/Payloads validatePayload,
--   Validation/Observations observations and visibility assessments, Validation/Evidence
--   ValidateEvidenceRun. Of validate_evaluated.go, Validation/Claims has parameters, missing evidence
--   and validateClaimRefs, Validation/AbsenceClaims validateListenerAbsenceClaim, Validation/Support
--   claimGraphHasCycle, Validation/Grounds claimPathReachesBase and validateClaimGraphs,
--   Validation/Findings the findings, Validation/Evaluated ValidatePersistedEvaluatedRun.
--   Validation/Graph is about searches that mark nodes. The modules below these prove.
-- - Tests: the definitions and the theorems at concrete inputs.
--
-- How the parts meet: the evaluation builds findings with the positions of Rules/Positions and hands them
-- to Selection/Apply, which asks GlobalPrimary for the proof of a primary finding of the run;
-- ValidateSelection checks the result again, and Status reads the selections to decide whether a report is
-- blocked. Validation/Evaluated is the gate that every report passes, made or read: it validates the
-- evidence, the claims and the findings, asks GlobalPrimary, and compares the run with its canonical form
-- of Canonical/Runs; the claims that no listener is visible are checked by Listener/Absence,
-- which the listener rule asks as well before it makes one. That rule looks for its branches among the
-- references of the edges, which Validation/Paths restricts.
--
-- Choices:
-- - Strings are lists of bytes. A time is a number of nanoseconds since Go's zero time; a duration is
--   a signed number, and the difference of two times stops at the ends of the 64-bit range, as in Go.
--   Ports, counts and positions are natural numbers; the code only compares them.
-- - Maps keyed by strings are association lists; a map to bool that only ever gets true is the list of
--   its keys. No modelled result depends on the order of a map's keys.
-- - sort.Slice and sort.SliceStable are a stable insertion sort. sort.Slice promises no order of
--   elements that compare equal; a result that depends on it holds for the stable order.
-- - Slices are values: the code copies each slice before it changes it, so that no alias is observed.
-- - Walks up a chain of parents run on fuel: one more than the number of branches, which is enough
--   since a walk stops at an identifier that it has seen. The rounds that order branches run on as much
--   fuel as there are branches, which is enough since each round places one. The visits of checks are
--   nested at most one deeper than there are definitions, since each of them marks one; the search for a
--   cycle of claims has two rounds for each claim, which is pushed once and popped once, and the walk to
--   the base of a claim at most one more round than there are references. All this is proved: a validator that
--   runs on fuel returns an Option, which is never none.
-- - The tables of unicode, strings.TrimSpace, strings.ToLower and the parser of addresses of net/netip are the
--   fields of a record, TextLibrary, on which the validators of texts depend; the theorems hold for
--   every such record. The listener rule takes netip.ParseAddr as a parameter, which is any function.
-- - int of an unsigned 64-bit position is written out with its wrap-around.
--
-- Not modelled: the network and the operating system, the text output, the JSON codec, the command line
-- (they hold no state of the report), the assembly of the evidence of a probe or of a local diagnosis from
-- what the network and procfs answer, and the attribution of sockets to processes: the model starts
-- where evidence is handed over, and holds for evidence of any origin. A nil
-- slice and an empty one are the same here and every time is in UTC, so the tests of the validators for a
-- nil slice and for another location have no counterpart.
pub mod Common
pub mod Model
pub mod Branches
pub mod Decimal
pub mod GlobalPrimary
pub mod Utf8
pub mod Ids
pub mod Selection
pub mod Status
pub mod Listener
pub mod Canonical
pub mod Rules
pub mod Procfs
pub mod Validation
pub mod Tests
