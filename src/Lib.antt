-- ===== src/Lib.antt =====
-- A webhook through which ExternalDNS manages records on IIJ DNS Platform Service (DPF).
--
-- A request comes in at the HTTP layer, is decoded to records or a change set, and is handed to
-- the domain logic, which checks it, keeps what is in its scope, groups it by zone and asks the
-- DPF layer to list or apply; the DPF layer merges a change set into the records that a zone
-- publishes, guards the result, marks it and submits the whole set. Errors come back as values
-- that are temporary or permanent, and become the status code.
--
-- The parts, by file and by the code that they translate:
--   * Base, with Base/Tests, Base/Lists, Base/Assoc, Base/Text, Base/Space and Base/Int: tests,
--     lists, maps as association lists, texts as lists of code points with what the code calls of
--     the packages strings and strconv, and signed integers.
--   * Errors: error values (the sentinels of internal/provider/ports.go and of the other
--     packages, fmt.Errorf with %w as constructors) and errors.Is.
--   * Calls: a call that acts on a state and may fail, and what one does behind another.
--   * Mux: the patterns of an http.ServeMux, as far as they are used.
--   * Dnsname, with Dnsname/Name and Dnsname/Scope: internal/dnsname. Dnsname/Laws,
--     Dnsname/Suffix and Dnsname/Longest are about the order of names and the longest match.
--   * Provider: internal/provider. Provider/Types (types.go), Provider/Zoneindex (zoneindex.go),
--     Provider/Txt and Provider/Validate (validate.go), Provider/Adjust (adjust.go),
--     Provider/Backend (ports.go), Provider/Service (Filters and Records of provider.go),
--     Provider/Apply (ApplyChanges and groupByZone of apply.go), Provider/Observed (provider.go
--     and apply.go with what they log and measure) and Provider/Fake (providertest/fake.go).
--     Provider/Ownership, Provider/Reading, Provider/Settled, Provider/Format, Provider/Exclusive,
--     Provider/Alone, Provider/Writing, Provider/Parts, Provider/Grouping, Provider/Splitting,
--     Provider/Distinct, Provider/Observing, Provider/Totals, Provider/Counting, Provider/Counted
--     and Provider/Asked are proofs.
--   * Dpf: internal/dpf. Dpf/Rrtype (rrtype.go), Dpf/Wire, Dpf/Merge and Dpf/Guard (merge.go),
--     Dpf/Label (label.go), Dpf/Classify (errors.go), Dpf/Lock (lock.go), Dpf/Apply (Client.Apply
--     of apply.go), Dpf/Read (what records.go, zone.go and history.go read of a listing) and
--     Dpf/Client (client.go, token.go, and the calls of the client). Dpf/Content, Dpf/Membership,
--     Dpf/Preserved, Dpf/Keyed, Dpf/Succeeding, Dpf/Failing, Dpf/Labelled, Dpf/Guarded,
--     Dpf/Editing, Dpf/Classified, Dpf/Waiting, Dpf/Applying, Dpf/Skipping, Dpf/Published,
--     Dpf/Removed, Dpf/Ordered and Dpf/Repeats are proofs.
--   * Webhook: internal/webhook. Webhook/Wire (wire.go), Webhook/Status (errors.go),
--     Webhook/Handler (the four handlers of handler.go), Webhook/Body (logRequestBody),
--     Webhook/Routes (NewHandler) and Webhook/Negotiation (negotiation.go); Webhook/Answers,
--     Webhook/Accepting, Webhook/Rereading, Webhook/Served, Webhook/Writing and
--     Webhook/Succeeding are proofs.
--   * Config: internal/config/config.go. Config/Flags (newFlagSet, and the reading of arguments
--     by the package flag) and Config/Settings (the types, build and Load); Config/Reading,
--     Config/Loading and Config/Undefined are proofs.
--   * Telemetry: internal/telemetry. Telemetry/Slog (what log.go uses of log/slog), Telemetry/Log
--     (log.go), Telemetry/Metrics (metrics.go) and Telemetry/Setup (telemetry.go);
--     Telemetry/Redacted, Telemetry/Teed and Telemetry/Stopping are proofs.
--   * Server: internal/server/server.go. Server/Lifecycle (Start, serve and Shutdown) and
--     Server/Exposed (exposedMux); Server/Together is proofs.
--   * Command: cmd/webhook/main.go. Command/Run (run, serve and the exit code); Command/Ending and
--     Command/Answering are proofs.
--   * Composed: the domain logic of internal/provider over the client of internal/dpf, all proofs.
--     Composed/Failing (kinds of errors), Composed/Zones and Composed/Grouped (applies to zones one
--     after the other), Composed/Published and Composed/Repeats (what DPF publishes behind
--     ApplyChanges).
--   * Tests: concrete parameters and inputs that the theorems apply to.
--
-- How the code is read. A struct is a record and its methods are functions on it; a Go map is an
-- association list; a loop is a recursion on its list, with what it carries as an argument, so no
-- function needs fuel. A call that may fail returns a Result; a call of the backend takes and
-- returns the backend's state. An int is a signed integer without bound, as no code adds to one;
-- the conversion to int32 in toTTL wraps. A nil map of labels is told apart from an empty one, a
-- nil list is not.
--
-- Parameters: miekg/dns is the record Dns, with the laws of DnsLaws where a theorem needs them,
-- and the record TxtCodec for the reading and printing of TXT records. dpf-go is the record DpfGo
-- of Dpf/Client, with its ZoneApplier in Dpf/Apply; what is relied on of it is in ApplierLaws
-- (Dpf/Published) and DpfLaws (Composed/Zones). OpenTelemetry is the record Otel of
-- Telemetry/Setup, unicode.ToLower a function in Telemetry/Log, mime.ParseMediaType one of
-- Webhook/Negotiation. The order in which Go walks the map of operations of an apply is a function
-- in Provider/Observed. What the command calls of the rest (listening, the two http.Server, the
-- making of the DPF client) is the record Outside of Command/Run. The JSON decoder is the record
-- Decoder of Webhook/Routes; an answer's body is the value that is encoded.
--
-- Not modelled: spans; the printing of a log line as JSON; the failure of the encoder of an answer,
-- which ends the connection; the summary of a set in the text of an error; the text
-- of the usage; test/config and test/docs, which read the repository's own files in tests; scripts.
mod Base
pub mod Errors
pub mod Calls
pub mod Mux
pub mod Dnsname
pub mod Provider
pub mod Dpf
pub mod Webhook
pub mod Config
pub mod Telemetry
pub mod Composed
pub mod Command
pub mod Server
mod Tests
