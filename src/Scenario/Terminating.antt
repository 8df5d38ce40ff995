-- ===== src/Scenario/Terminating.antt =====
-- app/scenario_api.py: the end of a tenant's contract, from the request over the backup and the erasure
-- to the certificate. A termination is stored under its id.
use neo_cloud_control_plane.Prelude.{
  ℕ, suc, ◌+◌, String, ◌+++◌, Bool, true, false, not, Option, none, some, List, [], ◌∷◌, map, ◌==◌,
  eqb, if◌then◌else◌, or_else, ltb, length, select,
}
use neo_cloud_control_plane.Prelude.Decimal.{decimal}
use neo_cloud_control_plane.Prelude.Exec.{Exec, pure, require, gets, modify, ◌>>=◌, ◌>>◌}
use neo_cloud_control_plane.Dict.{Dict, get, put, update, values, has}
use neo_cloud_control_plane.Tenancy.{Allocation, Rack, next_seq}
use neo_cloud_control_plane.Nico.{sanitize_steps}
use neo_cloud_control_plane.Lifecycle.{OrderKind, ServiceOrder}
use neo_cloud_control_plane.Orders.{Floats, on_store}
use neo_cloud_control_plane.Orders.Pipeline.{OrderCreate}
use neo_cloud_control_plane.Scenario.{
  TerminationState, ChecklistItem, WipedAllocation, CertBody, Termination, Portal, Outside, now,
  on_world,
}

-- TERMINATION_CHECKLIST
abbrev pub termination_checklist : List String
termination_checklist = "테넌트 데이터 추출(export) 완료" ∷ "외부 스토리지 이관(migration) 완료" ∷ "최종 백업본 확인 완료" ∷ []

abbrev pub erase_method : String
erase_method = "NVMe crypto-erase + GPU/DDR wipe + TPM reset"

abbrev pub is_active : TerminationState → Bool
is_active TerminationState.awaiting_backup = true
is_active TerminationState.erasing = true
is_active _ = false

abbrev pub is_awaiting : TerminationState → Bool
is_awaiting TerminationState.awaiting_backup = true
is_awaiting _ = false

abbrev pub is_erasing : TerminationState → Bool
is_erasing TerminationState.erasing = true
is_erasing _ = false

abbrev pub is_wiped : TerminationState → Bool
is_wiped TerminationState.wiped = true
is_wiped _ = false

abbrev pub is_finished : TerminationState → Bool
is_finished TerminationState.wiped = true
is_finished TerminationState.closed = true
is_finished _ = false

-- `max(recs, key=lambda t: t["requested_at"])`, the first of those
abbrev pub later : Termination → List Termination → Termination
later best [] = best
later best (t ∷ ts) = later (if ltb best.requested_at t.requested_at then t else best) ts

abbrev pub latest : List Termination → Option Termination
latest [] = none
latest (t ∷ ts) = some (later t ts)

abbrev pub unconfirmed : String → ChecklistItem
unconfirmed i = record { item = i; confirmed = false }

abbrev pub confirm_item : ChecklistItem → ChecklistItem
confirm_item c = record c { confirmed = true }

-- `{c["item"]: c["confirmed"] for c in body.checklist}`
abbrev pub confirmations : List (String × Bool) → Dict Bool → Dict Bool
confirmations [] known = known
confirmations ((i, b) ∷ body) known = confirmations body (put i b known)

abbrev pub missing_items : List (String × Bool) → List ChecklistItem → List ChecklistItem
missing_items body =
    select (λ (c : ChecklistItem). not (or_else (get c.item (confirmations body [])) false))

abbrev pub is_none_missing : List ChecklistItem → Bool
is_none_missing [] = true
is_none_missing (_ ∷ _) = false

-- `erase-{i}/7 {s}`
abbrev pub erase_stages : ℕ → List String → List String
erase_stages i [] = []
erase_stages i (s ∷ steps) = ("erase-" +++ decimal i +++ "/7 " +++ s) ∷ erase_stages (suc i) steps

-- `stage_names[:-1]`; the last is `pool-return`
abbrev pub erasure_stages : List String
erasure_stages = "drain" ∷ "release" ∷ erase_stages 1 sanitize_steps

abbrev pub is_running : Option Termination → Bool
is_running none = false
is_running (some t) = is_active t.state

abbrev pub new_termination : String → String → ℕ → List String → Termination
new_termination term_id tenant_id at allocations = record {
  termination_id = term_id;
  tenant_id = tenant_id;
  state = TerminationState.awaiting_backup;
  requested_at = at;
  checklist = map unconfirmed termination_checklist;
  backup_confirmed_at = none;
  progress = record { stage = "awaiting_backup"; pct = 0 };
  allocations = allocations;
  orders = [];
  wipe_certificate = none;
  closed_at = none;
}

abbrev pub wiped_racks : Option Allocation → List String
wiped_racks none = []
wiped_racks (some a) = a.rack_ids

abbrev pub count_trays : List Rack → ℕ
count_trays [] = 0
count_trays (r ∷ rs) = length r.tray_ids + count_trays rs

abbrev pub cert_body_of : Termination → List WipedAllocation → ℕ → CertBody
cert_body_of rec wiped at = record {
  tenant_id = rec.tenant_id;
  termination_id = rec.termination_id;
  erase_method = erase_method;
  erase_steps = sanitize_steps;
  allocations = wiped;
  issued_at = at;
}

abbrev pub confirm_at : ℕ → Termination → Termination
confirm_at at t = record t {
  checklist = map confirm_item t.checklist;
  backup_confirmed_at = some at;
  state = TerminationState.erasing;
}

abbrev pub close_at : ℕ → Termination → Termination
close_at at t = record t { state = TerminationState.closed; closed_at = some at }

module _ {N : Type 0} where
  -- _latest_termination_locked
  abbrev pub latest_termination : String → Portal N → Option Termination
  latest_termination tenant_id p =
      latest (select (λ (t : Termination). t.tenant_id == tenant_id) (values p.terminations))

  abbrev pub set_termination : String → (Termination → Termination) → Exec (Portal N) (Unit {0})
  set_termination key change =
      modify (λ p. record p { terminations = update key change p.terminations })

  abbrev pub allocations_of : String → Portal N → List String
  allocations_of tenant_id p =
      map (λ (a : Allocation). a.id)
        (select (λ (a : Allocation). a.tenant_id == tenant_id) (values p.world.store.allocations))

  abbrev pub count_up : String → Exec (Portal N) ℕ
  count_up name = on_world (on_store (λ s. let (n, s') = next_seq name s in pure n s'))

  abbrev pub erase_order : Floats N → String → String → OrderCreate N
  erase_order f tenant_id aid = record {
    tenant_id = tenant_id;
    kind = OrderKind.terminate;
    blueprint_key = none;
    racks = 0;
    allocation_id = some aid;
    approval_mode = false;
    storage_manual = false;
    storage_tb = f.of_nat 0;
    storage_gbps = f.of_nat 0;
    managed_k8s = false;
    k8s_version = "v1.32.4";
  }

  abbrev pub wiped_of : String → List String → ℕ → ServiceOrder N → WipedAllocation
  wiped_of aid rack_ids nodes order = record {
    allocation_id = aid;
    racks = rack_ids;
    nodes = nodes;
    terminate_order_id = order.id;
    reclaim_state = order.state;
    erase_steps = map (λ s. (s, true)) sanitize_steps;
  }

  module _ (e : Outside N) where
    -- _term_progress
    abbrev pub term_progress : String → ℕ → ℕ → Termination → Termination
    term_progress stage done total t = record t {
      progress = record { stage = stage; pct = if eqb total 0 then 100 else e.percent done total };
    }

    -- POST /tenants/{tenant_id}/termination
    unfoldable pub request_termination : String → Exec (Portal N) Termination
    unfolding get put next_seq decimal
    request_termination tenant_id = do
      known ← gets (λ p. has tenant_id p.world.store.tenants)
      require known 404
      active ← gets (latest_termination tenant_id)
      require (not (is_running active)) 409
      n ← count_up "termination"
      at ← now e
      allocations ← gets (allocations_of tenant_id)
      let rec = new_termination ("term-" +++ decimal n) tenant_id at allocations
      modify (λ p. record p { terminations = put rec.termination_id rec p.terminations })
      pure rec
