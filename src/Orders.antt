-- ===== src/Orders.antt =====
-- app/lifecycle.py: how an order is fulfilled, over app/adapters.py with the simulators in the process
-- (LocalNicoAdapter and LocalVastAdapter pass each call on). An error of status 500 stands for an
-- exception that `except HTTPException` does not catch.
pub mod Holds
pub mod Kept
pub mod Caught
pub mod Rollback
pub mod Restored
pub mod Outcome
pub mod Ends
pub mod Undone
pub mod Saga
pub mod Stages
pub mod Pipeline
pub mod Reclaim
pub mod Kubernetes
pub mod Truth
pub mod Approval
pub mod Modes
pub mod Managed
use neo_cloud_control_plane.Prelude.{
  ℕ, String, Bool, true, false, Option, none, some, List, [], ◌∷◌, ◌==◌, eqb, if◌then◌else◌, select,
  is_some, contains,
}
use neo_cloud_control_plane.Prelude.Exec.{
  Exec, Result, ok, err, raise, or_raise, gets, modify, pure, ◌>>=◌, ◌>>◌,
}
use neo_cloud_control_plane.Dict.{Dict, get, put, has}
use neo_cloud_control_plane.Shared.{Shared}
use neo_cloud_control_plane.Tenancy.{Store}
use neo_cloud_control_plane.Nico.{Nico}
use neo_cloud_control_plane.Vast.{Vast}
use neo_cloud_control_plane.Lifecycle.{NodeInstance, ServiceOrder, World}

-- Python's floating-point numbers: the operations of them that the stages use
pub record Floats (N : Type 0) : Type 0 where
  pub of_nat : ℕ → N
  pub is_positive : N → Bool
  pub is_zero : N → Bool
  pub mul : N → N → N
  pub div : N → N → N
  pub round1 : N → N

module _ {N : Type 0} {A : Type 0} where
  -- a call of one part of the world
  abbrev pub on_nico : Exec Nico A → Exec (World N) A
  on_nico m w = let (r, n) = m w.nico in (r, record w { nico = n })

  abbrev pub on_vast : Exec (Vast N) A → Exec (World N) A
  on_vast m w = let (r, v) = m w.vast in (r, record w { vast = v })

  abbrev pub on_store : Exec Store A → Exec (World N) A
  on_store m w = let (r, s) = m w.store in (r, record w { store = s })

  abbrev pub on_shared : Exec Shared A → Exec (World N) A
  on_shared m w =
      let (r, s) = m w.store.shared in (r, record w { store = record w.store { shared = s } })

  -- a call on an object of a table; `nodes[key]` raises KeyError where it is missing
  abbrev pub on_node : String → Exec NodeInstance A → Exec (World N) A
  on_node key m w = elim (get key w.nodes) [
    | none ↦ (err 500, w)
    | some node ↦ let (r, node') = m node in (r, record w { nodes = put key node' w.nodes })
  ]

  abbrev pub on_order : String → Exec (ServiceOrder N) A → Exec (World N) A
  on_order oid m w = elim (get oid w.orders) [
    | none ↦ (err 500, w)
    | some order ↦ let (r, order') = m order in (r, record w { orders = put oid order' w.orders })
  ]

-- `try: … except HTTPException:`, `none` where it was caught
abbrev pub caught : {S A : Type 0} → Result A → S → Result (Option A) × S
caught (ok a) s = (ok (some a), s)
caught (err c) s = if eqb c 500 then (err 500, s) else (ok none, s)

abbrev pub attempt : {S A : Type 0} → Exec S A → Exec S (Option A)
attempt m s = let (r, s') = m s in caught r s'

-- `for x in xs: …`
unfoldable pub for_each : {S A : Type 0} → (A → Exec S (Unit {0})) → List A → Exec S (Unit {0})
for_each body [] = pure tt
for_each body (x ∷ xs) = do body x; for_each body xs
