-- ===== src/Orders/Restored.antt =====
-- app/lifecycle.py: what install_k8s_addon makes of the order that is in service.
use neo_cloud_control_plane.Prelude.{
  String, ◌≡◌, refl, ap, true, false, some, eqb, Bool-cases, inl, inr, eq_refl, ◌⊎◌, ◌==◌, not, any,
  contains, ltb,
}
use neo_cloud_control_plane.Prelude.Exec.{
  Exec, Result, ok, err, raise, continue, modify, ◌>>◌, require_rule, or_raise_rule,
}
use neo_cloud_control_plane.Prelude.Triples.{After, Triple, Triple-keeps, Triple-bind}
use neo_cloud_control_plane.Dict.{get, put, values}
use neo_cloud_control_plane.Dict.Laws.{get-put}
use neo_cloud_control_plane.Lifecycle.{
  OrderState, ServiceOrder, World, order_transitions, lists_order, advance_order, is_order,
}
use neo_cloud_control_plane.Orders.{on_order}
use neo_cloud_control_plane.Orders.Stages.{set_order, order_at}
use neo_cloud_control_plane.Orders.Kept.{Terms, terms, Has, Keeps, keeps_rules, Keeps-modify}
use neo_cloud_control_plane.Orders.Ends.{on_order_lem, allowed, done}
use neo_cloud_control_plane.Orders.Outcome.Installed.{run_k8s_install-Keeps}
use neo_cloud_control_plane.Orders.Kubernetes.{handled}
use neo_cloud_control_plane.Orders.Kubernetes.Running.{begin_k8s_install, install_k8s}
use neo_cloud_control_plane.Orders.Kubernetes.DayTwo.{
  restore, addon_sync, with_k8s, order_with, start_addon, install_k8s_addon, K8sAddonBody,
  is_installed_on,
}
use neo_cloud_control_plane.Orders.Stages.Placing.{
  free_cpu, k8s_cp_nodes_per_cluster, k8s_supported_versions,
}

-- the order in a state, with these terms
abbrev pub Stands : {N : Type 0} → String → Terms → OrderState → World N → Type 0
Stands oid t st w = Has oid t (λ s. s ≡ st) w

abbrev pub plain : Terms → Terms
plain t = record t { managed_k8s = false; k8s_version = "" }

-- the terms of an order that is to have Kubernetes of a version
abbrev pub with_version : {N : Type 0} → String → ServiceOrder N → Terms
with_version version o = record {
  approval_mode = o.approval_mode;
  pending_stage = o.pending_stage;
  managed_k8s = true;
  k8s_version = version;
}

went :
    {S : Type 0} (Q E : S → Type 0) (r : Result Unit × S)
    → r.0 ≡ ok tt
    → Q r.1
    → After (λ (u : Unit {0}). Q) E r
went Q E (ok a, s) e q = q
went Q E (err c, s) e q = cc

module _ {N : Type 0} {oid : String} {t : Terms} where
  advanced :
      (st to : OrderState) (detail : String) (w : World N)
      → lists_order (order_transitions st) to ≡ true
      → Stands oid t st w
      → ((on_order oid (advance_order to detail) w).0 ≡ ok tt)
        × Stands oid t to (on_order oid (advance_order to detail) w).1
  advanced st to detail w y h = rw (on_order_lem oid (advance_order to detail) w h.order h.stored) (
      rw (allowed to detail h.order (rw h.state y)) (
        refl,
        record {
          order = done to detail h.order;
          stored = simp (get-put, eq_refl);
          same = h.same;
          state = refl;
        },
      ))

module _ {N : Type 0} {oid : String} {t : Terms} where
  restored :
      (w : World N)
      → Stands oid t OrderState.k8s_installing w
      → ((restore oid w).0 ≡ ok tt) × Stands oid (plain t) OrderState.delivered (restore oid w).1
  restored w h = rw (on_order_lem oid (modify (with_k8s false "")) w h.order h.stored) (
      advanced OrderState.k8s_installing OrderState.delivered "k8s add-on: failed" (changed w h)
        refl
        (record {
          order = with_k8s false "" h.order;
          stored = simp (get-put, eq_refl);
          same = ap plain h.same;
          state = h.state;
        }))
    where
      changed : (w : World N) → Stands oid t OrderState.k8s_installing w → World N
      changed w h = record w { orders = put oid (with_k8s false "" h.order) w.orders }

  -- what keeps the order in a state, as a triple
  standing :
      {A : Type 0} {st : OrderState} (m : Exec (World N) A)
      → Keeps oid t (λ s. s ≡ st) m
      → Triple (Stands oid t st) m (λ a. Stands oid t st) (Stands oid t st)
  standing m k = Triple-keeps m k.at (λ w h. h)

  begin_k8s_install-Triple :
      Triple
        (Stands {N = N} oid t OrderState.delivered)
        (begin_k8s_install oid)
        (λ iid. Stands oid t OrderState.k8s_installing)
        (Stands oid t OrderState.k8s_installing)
  unfolding begin_k8s_install
  begin_k8s_install-Triple =
      Triple-bind _ _ began (λ u. standing _ (search (keeps_rules, Keeps-modify) depth 14))
    where
      began :
          Triple
            (Stands {N = N} oid t OrderState.delivered)
            (on_order oid (advance_order OrderState.k8s_installing "Managed K8s"))
            (λ u. Stands oid t OrderState.k8s_installing)
            (Stands oid t OrderState.k8s_installing)
      began = record {
        at = λ w h.
            let (e, g) =
              advanced OrderState.delivered OrderState.k8s_installing "Managed K8s" w refl h in
            went (Stands oid t OrderState.k8s_installing) _ _ e g;
      }

  install_k8s-Triple :
      Triple
        (Stands {N = N} oid t OrderState.delivered)
        (install_k8s oid)
        (λ u. Stands oid t OrderState.k8s_installing)
        (Stands oid t OrderState.k8s_installing)
  install_k8s-Triple =
      Triple-bind _ _ begin_k8s_install-Triple (λ iid. standing _ (run_k8s_install-Keeps iid))

-- the order is in service with Kubernetes, or it is in service as it was and the call says so; an
-- exception that is not caught leaves it in the installation
abbrev pub AddOn : {N : Type 0} → String → Terms → Result (Unit {0}) × World N → Type 0
AddOn oid t (ok u, w) = Stands oid t OrderState.delivered w
AddOn oid t (err c, w) =
    ((c ≡ 502) × Stands oid (plain t) OrderState.delivered w)
    ⊎ ((c ≡ 500) × Stands oid t OrderState.k8s_installing w)

module _ {N : Type 0} {oid : String} {t : Terms} where
  finished :
      (w : World N)
      → Stands oid t OrderState.k8s_installing w
      → AddOn oid t (on_order oid (advance_order OrderState.delivered "Managed K8s add-on") w)
  finished w h =
      let (e, g) =
        advanced OrderState.k8s_installing OrderState.delivered "Managed K8s add-on" w refl h in
      said _ e g
    where
      said :
          (r : Result Unit × World N)
          → r.0 ≡ ok tt
          → Stands oid t OrderState.delivered r.1
          → AddOn oid t r
      said (ok a, s) e q = q
      said (err c, s) e q = cc

  -- Kubernetes that is added in the foreground to an order in service
  pub addon_sync-AddOn :
      (w : World N) → Stands oid t OrderState.delivered w → AddOn oid t (addon_sync oid w)
  unfolding addon_sync
  addon_sync-AddOn w h = said (install_k8s oid w) (install_k8s-Triple.at w h)
    where
      after : Result (Unit {0}) × World N → Result (Unit {0}) × World N
      after (r, s) =
          continue r (λ u. on_order oid (advance_order OrderState.delivered "Managed K8s add-on")) s

      given_up :
          (r : Result (Unit {0}) × World N)
          → r.0 ≡ ok tt
          → Stands oid (plain t) OrderState.delivered r.1
          → AddOn oid t (after (continue r.0 (λ u. raise {A = Unit {0}} 502) r.1))
      given_up (ok a, s) e q = inl (refl, q)
      given_up (err c, s) e q = cc

      said :
          (r : Result (Unit {0}) × World N)
          → After
              (λ (u : Unit {0}). Stands oid t OrderState.k8s_installing)
              (Stands oid t OrderState.k8s_installing)
              r
          → AddOn oid t (after (handled (λ c. restore oid >> raise 502) r))
      said (ok a, s) g = finished s g
      said (err c, s) g = elim (Bool-cases (eqb c 500)) [
        | inl y ↦ rw y (inr (refl, g))
        | inr n ↦ rw n (given_up (restore oid s) (restored s g).0 (restored s g).1)
      ]

-- what the call answers, from a world `before`: with the order in service with Kubernetes; or with a
-- refusal, where nothing has changed, or the order is in service as it was; or with an exception that is
-- not caught
abbrev pub Answer :
    {N : Type 0} → String → Terms → World N → Result (ServiceOrder N) × World N → Type 0
Answer oid t before (ok o, w) =
    (get oid w.orders ≡ some o) × (o.state ≡ OrderState.delivered) × (terms o ≡ t)
Answer oid t before (err c, w) =
    (w ≡ before)
    ⊎ (((c ≡ 502) × Stands oid (plain t) OrderState.delivered w)
        ⊎ ((c ≡ 500) × Stands oid t OrderState.k8s_installing w))

module _ {N : Type 0} where
  answered :
      (oid : String) (t : Terms) (w : World N) (r : Result (Unit {0}) × World N)
      → AddOn oid t r
      → Answer oid t w (continue r.0 (λ u. order_at oid) r.1)
  answered oid t w (ok a, s) h = rw h.stored (h.stored, h.state, h.same)
  answered oid t w (err c, s) h = inr h

  installed :
      (version : String) (w : World N) (o : ServiceOrder N)
      → get o.id w.orders ≡ some o
      → o.state ≡ OrderState.delivered
      → Answer o.id
          (with_version version o)
          w
          ((set_order (with_k8s true version) o.id >> (start_addon false o.id >> order_at o.id)) w)
  installed version w o e s = rw (on_order_lem o.id (modify (with_k8s true version)) w o e) (
      answered o.id (with_version version o) w (addon_sync o.id changed) (
        addon_sync-AddOn changed (record {
          order = with_k8s true version o;
          stored = simp (get-put, eq_refl);
          same = refl;
          state = s;
        })))
    where
      changed : World N
      changed = record w { orders = put o.id (with_k8s true version o) w.orders }

  -- Kubernetes that is added in the foreground to racks whose order is stored and in service: the call
  -- answers with the order in service, marked with Kubernetes of the version that was asked for; or it
  -- is refused, and nothing has changed, or, with 502, the order is in service marked without; or an
  -- exception that is not caught leaves the order, marked with it, in the installation. Approval mode
  -- and pending stage stay.
  pub install_k8s_addon-Answer :
      (body : K8sAddonBody) (w : World N) (src : ServiceOrder N)
      → order_with body.allocation_id (values w.orders) ≡ some src
      → get src.id w.orders ≡ some src
      → src.state ≡ OrderState.delivered
      → Answer src.id (with_version body.k8s_version src) w (install_k8s_addon false body w)
  unfolding install_k8s_addon
  install_k8s_addon-Answer body w src e g s =
      or_raise_rule P (get body.allocation_id w.store.allocations) 404 _ w (inl refl) λ alloc found.
        require_rule P (alloc.tenant_id == body.tenant_id) 404 _ w (inl refl) λ own. rw e (
          require_rule P (is_order src.state OrderState.delivered) 409 _ w (inl refl) λ up.
            require_rule P (not (any (is_installed_on alloc.id) (values w.k8s_clusters))) 409 _ w
              (inl refl)
              λ fresh.
                require_rule P (contains k8s_supported_versions body.k8s_version) 422 _ w (inl refl)
                  λ version.
                    require_rule P (not (ltb (free_cpu w.cpu_nodes) k8s_cp_nodes_per_cluster)) 409 _
                      w (inl refl) λ room. installed body.k8s_version w src g s)
    where
      P : Result (ServiceOrder N) × World N → Type 0
      P = Answer src.id (with_version body.k8s_version src) w
