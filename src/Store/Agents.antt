-- ===== src/Store/Agents.antt =====
-- internal/controller/store/store.go: the agent keys.
use wyrwood.Base.{ℕ, zero, suc, Bool, true, false, ◌&&◌, Option, none, some, [], ◌∷◌, if◌then◌else◌}
use wyrwood.Base.Text.{Text, ◌==t◌}
use wyrwood.Base.Assoc.{Assoc, lookup, insert, some_entry}
use wyrwood.Base.Errors.{ok, err}
use wyrwood.Store.Tables.{not_found, conflict, invalid, AgentState, Agent, Store, Read, Write}

abbrev pub is_pending : AgentState → Bool
is_pending AgentState.pending = true
is_pending _ = false

abbrev pub is_approved : AgentState → Bool
is_approved AgentState.approved = true
is_approved _ = false

-- Agent
unfoldable pub agent : Text → Store → Read Agent
agent fingerprint s = elim (lookup fingerprint s.agents) [ none ↦ err not_found | some a ↦ ok a ]

-- A row with the column defaults.
abbrev new_agent : Text → Text → ℕ → Agent
new_agent name key now = record {
  name = name;
  public_key = key;
  state = AgentState.pending;
  first_seen = now;
  decided_at = none;
  decided_by = [];
  agent_version = [];
  allow_recreate = false;
  last_connected = none;
  last_report = none;
}

-- The INSERT of RecordKey on the row that the fingerprint has now.
unfoldable pub recorded_agent : Text → Text → ℕ → Option Agent → Agent
recorded_agent name key now none = new_agent name key now
recorded_agent name key now (some a) = if is_pending a.state then record a { name = name } else a

-- RecordKey
unfoldable pub record_key : Text → Text → Text → ℕ → Store → Write Agent
record_key fingerprint name key now s = elim (lookup fingerprint s.operator_keys) [
  | some _ ↦ elim (lookup fingerprint s.agents) [ none ↦ err not_found | some a ↦ ok (a, s) ]
  | none ↦
      let a = recorded_agent name key now (lookup fingerprint s.agents) in
      ok (a, record s { agents = insert fingerprint a s.agents })
]

abbrev count_pending : Assoc Agent → ℕ
count_pending [] = zero
count_pending ((f, a) ∷ m) =
    let rest = count_pending m in if is_pending a.state then suc rest else rest

-- PendingCount
unfoldable pub pending_count : Store → ℕ
pending_count s = count_pending s.agents

unfoldable pub approved_in : Text → Assoc Agent → Read (Text × Agent)
approved_in name [] = err not_found
approved_in name ((f, a) ∷ m) =
    let rest = approved_in name m in
    if (a.name ==t name) && is_approved a.state then ok (f, a) else rest

-- ApprovedAgent
unfoldable pub approved_agent : Text → Store → Read (Text × Agent)
unfolding approved_in
approved_agent name s = approved_in name s.agents

-- A row of the unique index agents_approved_name.
abbrev pub approved_name : Text → Text → Agent → Bool
approved_name name f a = is_approved a.state && (a.name ==t name)

abbrev decided : AgentState → Text → ℕ → Agent → Agent
decided state by now a = record a { state = state; decided_at = some now; decided_by = by }

-- DecideAgent
unfoldable pub decide_agent : Text → AgentState → Text → ℕ → Store → Write Agent
decide_agent fingerprint state by now s =
    if is_pending state then err invalid else elim (lookup fingerprint s.agents) [
      | none ↦ err not_found
      | some a ↦
          let b = decided state by now a in
          if is_pending a.state
          then (if is_approved state && some_entry (approved_name a.name) s.agents
              then err conflict
              else ok (b, record s { agents = insert fingerprint b s.agents }))
          else err not_found
    ]

-- RecordConnection
unfoldable pub record_connection : Text → Text → Bool → ℕ → Store → Store
record_connection fingerprint version allow now s = elim (lookup fingerprint s.agents) [
  | none ↦ s
  | some a ↦ record s {
    agents =
        insert fingerprint
          (record a { agent_version = version; allow_recreate = allow; last_connected = some now })
          s.agents;
  }
]
