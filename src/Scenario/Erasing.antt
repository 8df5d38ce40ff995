-- ===== src/Scenario/Erasing.antt =====
-- app/scenario_api.py: the erasure of what a tenant has, with its certificate.
use neo_cloud_control_plane.Prelude.{
  ℕ, suc, ◌+◌, ◌*◌, String, ◌+++◌, Bool, true, false, Option, none, some, List, [], ◌∷◌, ◌++◌, ◌==◌,
  eqb, if◌then◌else◌, or_else, length,
}
use neo_cloud_control_plane.Prelude.Decimal.{decimal}
use neo_cloud_control_plane.Prelude.Exec.{Exec, pure, require, or_raise, gets, ◌>>=◌, ◌>>◌}
use neo_cloud_control_plane.Dict.{get, put, update}
use neo_cloud_control_plane.Tenancy.{Allocation, next_seq, get_all}
use neo_cloud_control_plane.Lifecycle.{World}
use neo_cloud_control_plane.Orders.{Floats}
use neo_cloud_control_plane.Orders.Reclaim.{run_terminate_order}
use neo_cloud_control_plane.Scenario.{
  TerminationState, WipedAllocation, CertBody, WipeCertificate, Termination, Portal, Outside, now,
  on_world,
}
use neo_cloud_control_plane.Scenario.Terminating.{
  is_awaiting, is_wiped, is_finished, confirm_at, close_at, missing_items, is_none_missing,
  erasure_stages, latest_termination, set_termination, allocations_of, count_up, erase_order,
  wiped_racks, count_trays, wiped_of, cert_body_of, term_progress,
}

module _ {N : Type 0} where
  module _ (e : Outside N) where
    -- the stages of one allocation that are only shown
    abbrev pub show_stages : String → String → List String → ℕ → ℕ → Exec (Portal N) (Unit {0})
    show_stages key aid [] done total = pure tt
    show_stages key aid (st ∷ stages) done total = do
      set_termination key (term_progress e (aid +++ ": " +++ st) done total)
      show_stages key aid stages (suc done) total

    abbrev pub add_order : String → Termination → Termination
    add_order oid t = record t { orders = t.orders ++ oid ∷ [] }

    abbrev pub wipe : WipeCertificate → ℕ → Termination → Termination
    wipe cert total t =
        term_progress e "wiped" total total
          (record t { wipe_certificate = some cert; state = TerminationState.wiped })

    abbrev pub total_units : List String → ℕ
    total_units aids =
        (if eqb (length aids) 0 then 1 else length aids) * suc (length erasure_stages)

    abbrev pub cert_of : CertBody → ℕ → WipeCertificate
    cert_of body n = record { cert_id = "wipe-" +++ decimal n; sha256 = e.sha256 body; body = body }

    -- the last steps of the saga
    abbrev pub issue_certificate :
        Termination → List WipedAllocation → ℕ → Exec (Portal N) (Unit {0})
    issue_certificate rec wiped total = do
      at ← now e
      n ← count_up "wipe_cert"
      set_termination rec.termination_id (wipe (cert_of (cert_body_of rec wiped at) n) total)

    module _ (f : Floats N) (clusters_down : String → Allocation → Exec (World N) (Unit {0})) where
      -- one round of the saga
      unfoldable pub erase_allocation :
          String → String → String → ℕ → ℕ → Exec (Portal N) WipedAllocation
      unfolding update decimal run_terminate_order
      erase_allocation key tenant_id aid done total = do
        alloc ← gets (λ p. get aid p.world.store.allocations)
        let rack_ids = wiped_racks alloc
        nodes ← gets (λ p. count_trays (get_all p.world.store.racks rack_ids))
        show_stages key aid erasure_stages done total
        order ← on_world (run_terminate_order clusters_down f (erase_order f tenant_id aid))
        set_termination key (add_order order.id)
        set_termination key
            (term_progress e (aid +++ ": pool-return") (done + length erasure_stages) total)
        pure (wiped_of aid rack_ids nodes order)

      unfoldable pub erase_allocations :
          String → String → List String → ℕ → ℕ → Exec (Portal N) (List WipedAllocation)
      unfolding erase_allocation
      erase_allocations key tenant_id [] done total = pure []
      erase_allocations key tenant_id (aid ∷ aids) done total = do
        wiped ← erase_allocation key tenant_id aid done total
        more ← erase_allocations key tenant_id aids (done + suc (length erasure_stages)) total
        pure (wiped ∷ more)

      -- _run_termination_saga
      unfoldable pub run_termination_saga : Termination → Exec (Portal N) (Unit {0})
      unfolding update next_seq decimal erase_allocations
      run_termination_saga rec = do
        aids ← gets (allocations_of rec.tenant_id)
        set_termination rec.termination_id (λ t. record t { allocations = aids })
        wiped ← erase_allocations rec.termination_id rec.tenant_id aids 0 (total_units aids)
        issue_certificate rec wiped (total_units aids)

      abbrev pub delay_given : Option N → N
      delay_given none = f.of_nat 0
      delay_given (some d) = if f.is_positive d then d else f.of_nat 0

      abbrev pub delay_set : Option String → N
      delay_set (some raw) = delay_given (e.float_of raw)
      delay_set none =
          if or_else (e.environ "NOCP_NICO_URL") "" == ""
          then f.of_nat 0
          else f.div (f.of_nat 3) (f.of_nat 2)

      -- _termination_stage_delay
      abbrev pub termination_stage_delay : N
      termination_stage_delay = delay_set (e.environ "NOCP_TERMINATION_STAGE_DELAY")

      -- in the background the saga is a call of its own
      abbrev pub start_saga : Bool → Termination → Exec (Portal N) (Unit {0})
      start_saga true rec = pure tt
      start_saga false rec = run_termination_saga rec

      -- POST /tenants/{tenant_id}/termination/backup-confirm
      unfoldable pub confirm_backup :
          String → List (String × Bool) → Exec (Portal N) (Option Termination)
      unfolding get put update run_termination_saga
      confirm_backup tenant_id body = do
        found ← gets (latest_termination tenant_id)
        rec ← or_raise found 404
        require (is_awaiting rec.state) 409
        require (is_none_missing (missing_items body rec.checklist)) 409
        at ← now e
        set_termination rec.termination_id (λ t. term_progress e "erasing" 0 1 (confirm_at at t))
        start_saga (f.is_positive termination_stage_delay) rec
        gets (λ p. get rec.termination_id p.terminations)

    -- GET /tenants/{tenant_id}/termination
    unfoldable pub get_termination : String → Exec (Portal N) Termination
    get_termination tenant_id = gets (latest_termination tenant_id) >>= λ t. or_raise t 404

    abbrev pub hand_out : Termination → Bool → Exec (Portal N) (Unit {0})
    hand_out rec false = pure tt
    hand_out rec true = do
      at ← now e
      set_termination rec.termination_id (λ t. term_progress e "closed" 1 1 (close_at at t))

    -- GET /tenants/{tenant_id}/termination/wipe-certificate
    unfoldable pub get_wipe_certificate : String → Exec (Portal N) (Option WipeCertificate)
    unfolding update
    get_wipe_certificate tenant_id = do
      found ← gets (latest_termination tenant_id)
      rec ← or_raise found 404
      require (is_finished rec.state) 409
      hand_out rec (is_wiped rec.state)
      pure rec.wipe_certificate
