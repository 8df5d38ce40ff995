-- ===== src/Tests/Guard.antt =====
-- Runs of app/tenancy_guard.py before an application that answers every request with two views.
use neo_cloud_control_plane.Prelude.{ℕ, suc, String, ◌≡◌, refl, true, none, some, [], ◌∷◌, ◌⊎◌, All}
use neo_cloud_control_plane.Prelude.Text.{strip}
use neo_cloud_control_plane.Dict.{get}
use neo_cloud_control_plane.Guard.{
  Request, Response, Owners, object, text, array, belongs, forbidden, filtered, guarded_tenant,
  dispatch, segment_after, refusal, scope_violation, role_of, body_tenant_mismatch,
  filter_json_list,
}
use neo_cloud_control_plane.Guard.Admission.{IsAdmitted, dispatch-IsAdmitted, dispatch-belongs}

-- the number of the requests that it has seen
abbrev application : Request → ℕ → Response × ℕ
application request n = (
  record {
    status = 200;
    content = array (
        object (("tenant_ref", text "tnt-acme") ∷ [])
        ∷ object (("tenant_ref", text "tnt-zeta") ∷ [])
        ∷ []);
  },
  suc n,
)

abbrev owners : Owners
owners = record { orders = ("ord-1", "tnt-zeta") ∷ []; clusters = [] }

abbrev request_to : String → Request
request_to path = record {
  method = "GET";
  path = path;
  tenant_header = some "tnt-acme";
  role_header = none;
  query = [];
  body = none;
}

dispatch-IsAdmitted_example :
    ((detail : String) × (dispatch application owners (request_to "/api/v1/orders") 0
        ≡ (forbidden detail, 0)))
    ⊎ ((r : Request) × IsAdmitted owners "tnt-acme" r
        × (r.method ≡ "GET")
        × (r.path ≡ "/api/v1/orders")
        × (dispatch application owners (request_to "/api/v1/orders") 0 ≡ (
          filtered (request_to "/api/v1/orders") "tnt-acme" (application r 0).0,
          (application r 0).1,
        )))
unfolding strip guarded_tenant
dispatch-IsAdmitted_example =
    dispatch-IsAdmitted application owners (request_to "/api/v1/orders") "tnt-acme" 0 refl

dispatch-belongs_example :
    All
      (λ i. belongs "tenant_ref" "tnt-acme" i ≡ true)
      (object (("tenant_ref", text "tnt-acme") ∷ []) ∷ [])
unfolding strip get guarded_tenant dispatch segment_after refusal scope_violation role_of
    body_tenant_mismatch filter_json_list
dispatch-belongs_example =
    dispatch-belongs application owners (request_to "/fake-vast/views") "tnt-acme" "tenant_ref" 0
      (object (("tenant_ref", text "tnt-acme") ∷ []) ∷ []) refl refl refl refl refl

other_order_run :
    dispatch application owners (request_to "/api/v1/orders/ord-1/flow") 0
    ≡ (forbidden "tenant scope violation", 0)
unfolding strip get guarded_tenant dispatch segment_after refusal scope_violation role_of
    body_tenant_mismatch filter_json_list
other_order_run = refl
