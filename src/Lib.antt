-- ===== src/Lib.antt =====
-- Verification library of the Clockchain crates: the Merkle accumulator that anchors the
-- evidence ledger, the gateway's rate limit and response cache, the feasibility filter that
-- judges a claim against the record, the wire format of the ledger's events, their admission,
-- and the authority, the readings and the edges that the ledger derives from them.
--
-- The parts and how they meet. Events are admitted to the ledger (crates/cc-ledger); their
-- ids, in admission order, are the leaves of the Merkle log of
-- crates/cc-anchor/src/merkle.rs, and a reader checks an event or an older root by the
-- proofs of that file. An event is read and written by crates/cc-core/src/v1.rs;
-- crates/cc-ledger decides which events are valid, in the authority that their past gives,
-- and from those derives who has authority, which revision each event selects, which is the
-- head of a subject, and which edges pin what the record says. The filter of
-- crates/cc-filter reads the ledger through the trait CorpusView and answers a feasibility
-- query by a judgment, or by a certificate that lists what it consulted. The gateway of
-- crates/cc-gateway stands between the public and a node: it meters each client (limit.rs)
-- and keeps the node's answers (cache.rs).
--
-- Merkle.antt models merkle.rs. A hash is a list of bytes and SHA-256 is the parameter sha256;
-- what is asked of it is that it returns 32 bytes, and a theorem that would need it to be
-- injective ends in a collision instead: two different inputs with one hash. merkle_root is
-- mth, prove_inclusion and prove_consistency are themselves, the two verify methods are
-- verify_inclusion and verify_consistency, and their loops are walk and walk_both over the
-- path, with climb for what a round does to the two node numbers. mth, audit_path and subproof
-- recurse on the number of leaves, which is enough since both parts of a split are shorter.
-- split_point and is_power_of_two are written on 64 bits, and the theorems ask for at most
-- 2^64 leaves. Merkle/Split, Sides, Collide, Tree, OldSides, Subproof and Extends are the
-- arithmetic of the split and the relation between a path and the tree; Inclusion, Binding,
-- Consistency, NonRemoval, Blob and Stored hold the theorems.
--
-- Limiter.antt models limit.rs: client_key, with_capacity and check_at, whose map of
-- theoretical arrival times is an association list. Instants and durations are nanoseconds
-- without an upper bound. A run is a list of calls in the order of their locks.
--
-- Cache.antt models cache.rs of the same crate, the answers that the gateway keeps for the
-- corpus digest it last saw: observe, get, put and fresh_digest on the record Inner, with the
-- loop of put as evict, by recursion on the order of use that it pops. A run is a list of
-- calls on a new cache (Cache/Answers). Cache/Link, Evict, Invariant and WellFormed are about
-- the well-formed cache, Recency, Served and Generations about what it evicts, answers and
-- follows.
--
-- Filter.antt holds the types of src/ids.rs, phi.rs, view.rs and verdict.rs of
-- crates/cc-filter; Filter/Reach.antt models reach.rs: expand, shortest_distance,
-- backward_labels, the greedy walk and known_k; Filter/Judge.antt models filter.rs: the
-- factors, feasibility, combine and certify. A CorpusView is a record of functions into
-- results, and its errors pass through every operation. A coordinate or an identity is the
-- number of its canonical bytes, in the order of the program. The search loop of
-- shortest_distance runs on fuel k: each round adds one to the two depths, whose sum is below
-- k. The panic of combine's expect is the outcome none. Filter/Fuel, Labels and Walk are about
-- the search, Windows models the existence windows of crates/cc-core/src/lib.rs, in their
-- stored form, Records, Digest and Snapshot model snapshot.rs, the corpus held in memory, with
-- SHA-256 as the parameter sha256, and Slices is about its edges. Factors is about the
-- factors, Sound about the hot path, Agree and Evidence about the audit path.
--
-- Wire.antt models the codecs of crates/cc-core/src/v1.rs, the strict wire format of the
-- events of the ledger: the reader, the writer, numbers, strings, options and sets, and the
-- macros record! and tags!, which are both with via, and tags. A string is the list of its
-- UTF-8 bytes, and String::from_utf8 is is_utf8. A hash is the number that its 32 bytes write.
-- Wire/Event.antt holds the types of events with their codecs, Wire/Signed.antt the payloads,
-- preimage, sign, decode, root_grant and revision_id; SHA-256, Ed25519 and the keys are the
-- record Crypto. The reads of decode are get_envelope and the functions that it calls in turn.
-- Wire/Digits, Laws, Containers, Sets, EventLaws, Values, Payloads and Envelopes show that
-- each codec reads exactly what it writes; Canonical, Binding and Ordered hold the theorems.
--
-- Ledger.antt models the cone and the body of crates/cc-ledger/src/v1/authority.rs and the
-- revisions and selections of v1/projection.rs; Ledger/Authority.antt and Ledger/Derive.antt
-- model the rest of authority.rs: derive, which finds the grants, the revocations that take
-- effect, what they cancel and the effect on every event, and in_scope. A map from ids to
-- events is an association list, in which an id stands once; a map that the code fills is an
-- ascending list. Indexing a missing key, which panics, is the outcome none, and so is a loop
-- that goes on for ever: schedule allows one more round than there are events, cone_loop two
-- more than there are parents to follow, body_loop and in_scope_loop one more than there are
-- events or grants, suppress_loop one more than there are events. The reasons of an effect,
-- which are strings in the code, are the type Reason. Ledger/Search, Cone, Order, Missing,
-- Rounds, Schedule, Selections and Bodies are about the loops and the readings of a ledger;
-- Totals, Rulings, Effects, Suppression and Active about derive once its first loop has run;
-- Governed, Lineage and Trace about that loop, and Derived about all of it. Places and Parts are
-- about the parts of a set of candidates that are governed, Where about the events that a test
-- keeps.
--
-- Edges.antt models crates/cc-ledger/src/v1/edges.rs: the statuses of v1.rs, Subjects::new,
-- check_pin and check_pins; Edges/Evaluate.antt models evaluate, by the kind of event, and
-- Edges/Classify.antt classify, whose loop allows one more pass than there are events to
-- classify. The reasons of a status, which are strings in the code, are the type Cause.
-- Edges/Endpoint.antt models endpoint, the state of a pin against the current reading of its
-- subject. Edges/Standing, Bound and Pinned are about statuses and pins, Decided and
-- Assertion about asserted edges, Kinds, Chain, Returned and Evaluated about evaluate, Staged,
-- Kept, Passes and Classified about the loops.
--
-- Admission.antt models evaluate of crates/cc-ledger/src/v1.rs for subject events, in the
-- stages of the code: the header, the parents, the subject, the decision, the authority of the
-- union of the parents' cones; Admission/Payloads.antt models what it checks of each kind, and
-- Admission/Classify.antt classify and analyze. The loop of classify runs on one more pass than
-- there are subject events: a pass that adds no status lets close_subjects give one to all that
-- are left. Bodies, Views and Revised are about what the past of an event makes, Past, Union,
-- Scope and Authorized about its authority, Resolved, Checks, Founded, Parents, Decisions and
-- Evaluated about evaluate on every branch, Stored, Passes and Admitted about the statuses and
-- the loop, Accepted and Analyzed about analyze, which runs the loops of edges after it.
--
-- Projection.antt models project of crates/cc-ledger/src/v1/projection.rs up to the edges: the
-- frontier of a subject, its reading and the rows of its events, on what analyze answers.
-- Projection/Sets and Frontier are about the frontier, Rows and Readings about one subject,
-- Pasts and Projected about all of them.
--
-- Prelude holds the shared helpers: Boolean tests, lists over the native numbers, byte
-- strings, results, maps as association lists (Table) and sets and maps as ascending lists
-- (Ordered).
--
-- Not modelled: rules and serving of the ledger; in project, the readings of edges and
-- media and the list of rows; receipts, seals and rules of the wire format; the colour
-- refinement (wl.rs) and the version hash of the filter, a field of the filter here; the
-- admission of crates/cc-authoring and the authority of crates/cc-publisher; the SQL store
-- of the ledger and of the anchors, the migrator, the HTTP services, configuration, the
-- OpenTimestamps calendars and the WebAssembly bindings, which are input and output;
-- Magnitude and RankKey of the filter, which are floating point and never decide; the list
-- of the records of the corpus held in memory.
pub mod Prelude
pub mod Merkle
pub mod Limiter
pub mod Cache
pub mod Filter
pub mod Wire
pub mod Ledger
pub mod Edges
pub mod Admission
pub mod Projection
