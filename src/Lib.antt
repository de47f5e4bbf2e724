-- ===== src/Lib.antt =====
-- Wyrwood gives containers short-lived access to OpenBao. A controller keeps policies and
-- bindings of policies to containers in its database and publishes each policy to OpenBao; an
-- agent on each host holds the OpenBao tokens and serves them to the containers through proxies.
--
-- Policy models internal/policy: the policy document (Policy/Types), its validation
-- (Policy/Validate, Patterns, CleanPath, Ttl), the binding values in its HCL
-- (Policy/BindingValues), the lifecycle stanzas that the controller manages (Policy/Lifecycle) and
-- the composition of the selected policies into one assignment (Policy/Compose and its children,
-- which follow policy.Compose: Loop is its loop, Env and Union are what the loop collects).
--
-- Store models internal/controller/store: Store/Tables has the tables, Agents, OperatorKeys,
-- Sessions, Policies, Bindings and Reports have one function per method of store.Store, and
-- Store/Step runs the methods that write in any order. A failed call leaves the database alone,
-- as its transaction is rolled back; the statement of an SQL call is written out as what it does
-- to the tables, the unique indexes and the foreign keys included.
--
-- VaultProxy models internal/vaultproxy/proxy.go: Serve has the handler, Paths the patterns of its
-- switch, Headers the request that goes to OpenBao, and Wrapped the wrapping tokens that the proxy
-- remembers between requests. One call of the handler is one step: it takes one instant for every
-- time.Now in it, and it returns its answer, the event's outcome and code, and the requests it
-- sent.
--
-- EngineProxy models internal/engineproxy/policy.go, which decides what requests of the agent reach
-- the container engine: Authorize has authorize, its switch and its tests, and Patterns the
-- patterns and the queries. A request holds the result of url.ParseQuery on its query.
--
-- Protocol models internal/protocol: Messages has the messages between an agent and the controller,
-- Validate their checks, and Codec a message as a line, a line as a message, and the reading of a
-- line that a buffer delivers in parts.
--
-- Controller models internal/controller. World has the state that an operation reads and changes:
-- the database of Store, the state of OpenBao behind the interface OpenBao of controller.go, the
-- flag policySyncPending and the groups that live sessions reported. Each operation is a function
-- from a world to its result and the next world, written with do blocks in the order of the source,
-- which holds one lock for a whole operation. Composing, Publishing, Changes, Roles, Retiring and
-- Renaming have the operations of operations.go, policy_delete.go, policy_retirement.go,
-- policy_rename.go and the credential of session.go; Matching has the choice of bindings of
-- session.go. A call of OpenBao answers and changes its state as the parameter Manager says, and so
-- may fail before or behind its effect. A call of the database follows a script of faults: it
-- answers as it should, fails without an effect, or fails behind its effect, as a commit does whose
-- confirmation is lost. What the theorems rely on of OpenBao stands in the records Documented
-- (Published) and RoleLaws (Roles/Applied).
--
-- Operator models operator/types.go and internal/controller/operator_session.go: Grants has the
-- grant of an operator key, Messages what a request and its answer hold, and Requests each
-- request of a key on top of the operations of Controller.
--
-- Go's strings are lists of bytes, its maps are association lists, whose order stands for the
-- order of an iteration, a pointer or an omitted field is an Option, a time is a number of
-- nanoseconds since 1970, and its counters (revisions, generations, seconds) are natural numbers,
-- so the guards against negative ones have no counterpart. An error keeps the part of the policy
-- that it is about, or its kind, and not its text.
--
-- Parameters stand for code outside this repository: Policy/Hcl for github.com/hashicorp/hcl, and
-- Outside of VaultProxy/Types for OpenBao, net/url, encoding/json, crypto/sha256 and crypto/x509,
-- and Codec of EngineProxy/Types for net/url, mime and encoding/json. Codec of Protocol/Codec
-- stands for encoding/json and net/url, Manager of Controller/World for OpenBao, and Outside there
-- for SHA-256, encoding/json, reflect and strings.ToLower. The regular expressions are written out
-- as matchers. The decimal numbers that strconv writes are built with fuel that is the number
-- itself, which is at least the number of its digits.
--
-- Not modelled: the JSON documents of the database's columns, which hold here the value that they
-- encode, so that Decode's limit of 1 MiB is not met; the pool of transports and the streaming of a
-- response in the vault proxy; the events that an operation of the controller records and the
-- messages that it sends to agents, which follow its result; the decoding of an operator's request
-- and the readiness of a binding in its answer; the timeouts of calls, which are one way of
-- failing; and the agent, the web administration, the command line and the clients of OpenBao and
-- of the container engine.
pub mod Base
pub mod Policy
pub mod Protocol
pub mod VaultProxy
pub mod EngineProxy
pub mod Store
pub mod Controller
pub mod Operator
