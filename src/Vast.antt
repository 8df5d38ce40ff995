-- ===== src/Vast.antt =====
-- app/vast_fake.py: FakeVast, the storage service. A view's capacity and limits are numbers of a type
-- `N`, which nothing computes with; what is sent to the tracer is not kept.
pub mod Views
use neo_cloud_control_plane.Prelude.{
  ℕ, ◌+◌, String, Bool, true, false, not, Option, none, some, List, [], ◌∷◌,
}
use neo_cloud_control_plane.Prelude.Exec.{Exec, or_raise, require, gets, modify, pure, ◌>>=◌, ◌>>◌}
use neo_cloud_control_plane.Dict.{Dict, get, put, pop, has, values}

pub record VastView (N : Type 0) : Type 0 where
  pub id : ℕ
  pub path : String
  pub tenant_ref : String
  pub allocation_id : Option String
  pub protocols : List String
  pub capacity_tb : N
  pub qos_gbps : N
  pub qos_iops_k : N
  pub export_subnet : String
  pub state : String

pub record Vast (N : Type 0) : Type 0 where
  pub views : Dict (VastView N)
  pub seq : ℕ

module _ {N : Type 0} where
  unfoldable pub reset : Vast N → Vast N
  reset v = record { views = []; seq = 0 }

  -- `view.field = …`, where the view stands
  abbrev pub set_view : String → VastView N → Vast N → Vast N
  set_view path view v = record v { views = put path view v.views }

  unfoldable pub create_view :
      N → String → String → String → Option String → Exec (Vast N) (VastView N)
  create_view zero path tenant_ref export_subnet allocation_id = do
    taken ← gets (λ v. has path v.views)
    require (not taken) 409
    n ← gets (λ v. v.seq + 1)
    let view : VastView N = record {
      id = n;
      path = path;
      tenant_ref = tenant_ref;
      allocation_id = allocation_id;
      protocols = "NFS4" ∷ "RDMA" ∷ [];
      capacity_tb = zero;
      qos_gbps = zero;
      qos_iops_k = zero;
      export_subnet = export_subnet;
      state = "active";
    }
    modify (λ v. record v { seq = n; views = put path view v.views })
    pure view

  -- _view
  unfoldable pub view_of : String → Exec (Vast N) (VastView N)
  view_of path = do found ← gets (λ v. get path v.views); or_raise found 404

  unfoldable pub set_quota : String → N → Exec (Vast N) (VastView N)
  unfolding view_of
  set_quota path capacity_tb = do
    view ← view_of path
    let view' : VastView N = record view { capacity_tb = capacity_tb }
    modify (set_view path view')
    pure view'

  unfoldable pub set_qos : String → N → N → Exec (Vast N) (VastView N)
  unfolding view_of
  set_qos path gbps iops_k = do
    view ← view_of path
    let view' : VastView N = record view { qos_gbps = gbps; qos_iops_k = iops_k }
    modify (set_view path view')
    pure view'

  unfoldable pub delete_view : String → Exec (Vast N) (VastView N)
  delete_view path = do
    found ← gets (λ v. get path v.views)
    modify (λ v. record v { views = pop path v.views })
    view ← or_raise found 404
    pure (record view { state = "deleted" })

  unfoldable pub list_views : Vast N → List (VastView N)
  list_views v = values v.views
