-- ===== src/Store/Reports.antt =====
-- internal/controller/store/store.go: what the agents report: inventories, token accessors and
-- contract results.
use wyrwood.Base.{ℕ, ◌&&◌, Option, none, some, List, [], ◌==◌, if◌then◌else◌}
use wyrwood.Base.Text.{Text}
use wyrwood.Base.Assoc.{Assoc, lookup, insert}
use wyrwood.Base.Errors.{ok, err}
use wyrwood.Protocol.Types.{Container, ContractResult}
use wyrwood.Store.Tables.{not_found, conflict, Agent, ResultRow, Store, Read}
use wyrwood.Store.Bindings.{Binding}

unfoldable pub report_seen : Text → ℕ → Assoc Agent → Assoc Agent
report_seen fingerprint now agents = elim (lookup fingerprint agents) [
  | none ↦ agents
  | some a ↦ insert fingerprint (record a { last_report = some now }) agents
]

-- SaveInventory
unfoldable pub save_inventory : Text → Text → List Container → ℕ → Store → Store
unfolding report_seen
save_inventory agent fingerprint containers now s = record s {
  inventories = insert agent (record { containers = containers; reported_at = now }) s.inventories;
  agents = report_seen fingerprint now s.agents;
}

-- Inventory: no report is no container and no time.
unfoldable pub inventory : Text → Store → List Container × Option ℕ
inventory agent s = elim (lookup agent s.inventories) [
  | none ↦ ([], none)
  | some r ↦ (r.containers, some r.reported_at)
]

-- SaveTokenAccessor
unfoldable pub save_token_accessor : Text → Text → ℕ → Store → Read Store
save_token_accessor id accessor now s = elim (lookup id s.bindings) [
  | none ↦ err not_found
  | some _ ↦
      ok (record s {
        tokens = insert id (record { accessor = accessor; updated_at = now }) s.tokens;
      })
]

-- TokenAccessor
unfoldable pub token_accessor : Text → Store → Read Text
token_accessor id s = elim (lookup id s.tokens) [ none ↦ err not_found | some t ↦ ok t.accessor ]

-- SaveAssignmentAccessor
unfoldable pub save_assignment_accessor : Binding → Text → ℕ → Store → Read Store
save_assignment_accessor b accessor now s = elim (lookup b.id s.bindings) [
  | none ↦ err conflict
  | some r ↦
      if (r.revision == b.revision) && r.applied
      then ok (record s {
        tokens = insert b.id (record { accessor = accessor; updated_at = now }) s.tokens;
      })
      else err conflict
]

-- SaveContractResult
unfoldable pub save_contract_result : ContractResult → ℕ → Store → Read Store
save_contract_result r now s = elim (lookup r.binding s.bindings) [
  | none ↦ err not_found
  | some _ ↦ ok (record s {
    results =
        insert r.binding
          (record {
            outcome = r.outcome;
            failed_items = r.failed_items;
            container_id = r.container_id;
            reason = r.reason;
            updated_at = now;
          })
          s.results;
  })
]

-- ContractResults
abbrev pub contract_results : Store → Assoc ResultRow
contract_results s = s.results
