-- ===== src/Guard.antt =====
-- app/tenancy_guard.py: the middleware that keeps a customer's requests within the tenant of their
-- `X-Tenant-Id` header. The query and the JSON bodies are as `parse_qsl` and `json.loads` read them; of
-- app/store.py the tenants of orders and clusters are kept. `call_next`, the application behind the
-- middleware, is an argument, with a state of its own.
pub mod Admission
use Prim.Native.Char.{Char, code}
use Prim.Native.String as Text
use neo_cloud_control_plane.Prelude.{
  ℕ, String, Bool, true, false, not, ◌&&◌, ◌||◌, Option, none, some, List, [], ◌∷◌, ◌==◌, eqb, leb,
  if◌then◌else◌, is_some, is_text, or_else, contains, select,
}
use neo_cloud_control_plane.Prelude.Text.{strip}
use neo_cloud_control_plane.Dict.{Dict, get, put, has}
use neo_cloud_control_plane.Tenancy.Slug.{lower}

-- a JSON value: a text, or one of another kind
pub data Value : Type 0 where
  text : String → Value
  other : Value

-- a JSON document
pub data Item : Type 0 where
  object : Dict Value → Item
  scalar : Item

pub data Content : Type 0 where
  unreadable : Content
  array : List Item → Content
  item : Item → Content

pub record Request : Type 0 where
  pub method : String
  pub path : String
  pub tenant_header : Option String
  pub role_header : Option String
  pub query : List (String × String)
  -- `none`: an empty body
  pub body : Option Content

pub record Response : Type 0 where
  pub status : ℕ
  pub content : Content

-- the tenant of each order and of each cluster
pub record Owners : Type 0 where
  pub orders : Dict String
  pub clusters : Dict String

abbrev pub starts_with : String → String → Bool
starts_with p s = is_some (strip p s)

abbrev public_prefixes : List String
public_prefixes = "/api/v1/status" ∷ "/api/v1/public/" ∷ "/api/v1/spec" ∷ []

abbrev starts_with_any : List String → String → Bool
starts_with_any [] s = false
starts_with_any (p ∷ ps) s = starts_with p s || starts_with_any ps s

abbrev pub query_scoped_lists : List String
query_scoped_lists =
    "/api/v1/orders" ∷ "/api/v1/k8s/clusters" ∷ "/api/v1/k8s/installs" ∷ "/api/v1/tickets"
    ∷ "/api/v1/billing/usage" ∷ "/api/v1/nodes" ∷ "/api/v1/cpu-nodes" ∷ "/api/v1/nvlink-partitions"
    ∷ []

abbrev pub response_filtered_lists : Dict String
response_filtered_lists =
    ("/api/v1/tenants", "id")
    ∷ ("/fake-vast/views", "tenant_ref")
    ∷ ("/fake-nico/hosts", "tenant_ref")
    ∷ []

abbrev pub read_methods : List String
read_methods = "GET" ∷ "HEAD" ∷ "OPTIONS" ∷ []

-- `[^/]+`
segment : String → String
segment Text.[] = ""
segment (Text.◌∷◌ c s) = let rest = segment s in if eqb (code c) b'/' then "" else Text.◌∷◌ c rest

abbrev non_empty : String → Option String
non_empty s = if s == "" then none else some s

-- the segment that stands after a literal at the start of the path
unfoldable pub segment_after : String → String → Option String
unfolding segment
segment_after p path = elim (strip p path) [ none ↦ none | some rest ↦ non_empty (segment rest) ]

-- a segment that names an entry of another tenant; an entry that is not there passes
abbrev pub names_other : Option String → Dict String → String → Bool
names_other none owners tid = false
names_other (some k) owners tid = elim (get k owners) [ none ↦ false | some t ↦ not (t == tid) ]

abbrev pub is_other : Option String → String → Bool
is_other none tid = false
is_other (some t) tid = not (t == tid)

unfoldable pub scope_violation : Owners → String → String → Bool
scope_violation owners path tid =
    is_other (segment_after "/api/v1/tenants/" path) tid
    || names_other (segment_after "/api/v1/orders/" path) owners.orders tid
    || names_other (segment_after "/api/v1/k8s/clusters/" path) owners.clusters tid

-- `dict(parse_qsl(…))`: the last value of a name counts
params : List (String × String) → Dict String → Dict String
params [] d = d
params ((k, v) ∷ rest) d = params rest (put k v d)

unfoldable pub force_tenant_query : Request → String → Request
unfolding params
force_tenant_query request tid = record request {
  query = put "tenant_id" tid (params request.query []);
}

abbrev pub is_value : Option Value → String → Bool
is_value (some (text t)) tid = t == tid
is_value _ tid = false

abbrev pub belongs : String → String → Item → Bool
belongs key tid (object fields) = is_value (get key fields) tid
belongs key tid scalar = false

-- `_filter_json_list`
unfoldable pub filter_json_list : Response → String → String → Response
filter_json_list response key tid =
    if eqb response.status 200
    then record response { content = only response.content }
    else response
  where
    only : Content → Content
    only (array items) = array (select (belongs key tid) items)
    only content = content

-- the body is an object whose `tenant_id` is not the tenant
abbrev pub forged : Option Content → String → Bool
forged (some (item (object fields))) tid =
    has "tenant_id" fields && not (is_value (get "tenant_id" fields) tid)
forged _ tid = false

unfoldable pub body_tenant_mismatch : Request → String → Bool
body_tenant_mismatch request tid =
    not (contains read_methods request.method) && forged request.body tid

-- `strip().lower()`
is_space : Char → Bool
is_space c =
    (leb 9 (code c) && leb (code c) 13)
    || (leb 28 (code c) && leb (code c) 32)
    || eqb (code c) 133
    || eqb (code c) 160

strip_left : String → String
strip_left Text.[] = ""
strip_left (Text.◌∷◌ c s) = let rest = strip_left s in if is_space c then rest else Text.◌∷◌ c s

drop_space : Char → String → String
drop_space c Text.[] = if is_space c then "" else Text.◌∷◌ c ""
drop_space c (Text.◌∷◌ d s) = Text.◌∷◌ c (Text.◌∷◌ d s)

lower_right : String → String
lower_right Text.[] = ""
lower_right (Text.◌∷◌ c s) = drop_space (lower c) (lower_right s)

unfoldable pub role_of : Request → String
unfolding strip_left drop_space lower_right is_space lower
role_of request = lower_right (strip_left (default (or_else request.role_header "")))
  where
    default : String → String
    default s = if s == "" then "member" else s

abbrev pub is_api : String → Bool
is_api path = starts_with "/api/" path || starts_with "/fake-" path

-- the tenant that a request is held to, where the middleware steps in
unfoldable pub guarded_tenant : Request → Option String
guarded_tenant request = elim request.tenant_header [
  | none ↦ none
  | some tid ↦
      if tid == "" || not (is_api request.path) || starts_with_any public_prefixes request.path
      then none
      else some tid
]

abbrev pub forbidden : String → Response
forbidden detail = record { status = 403; content = item (object (("detail", text detail) ∷ [])) }

-- the detail with which a request of the tenant is refused
unfoldable pub refusal : Owners → Request → String → Option String
refusal owners request tid =
    if starts_with "/api/v1/admin" request.path
    then some "admin surface not allowed for tenant scope"
    else if scope_violation owners request.path tid
    then some "tenant scope violation"
    else if role_of request == "viewer" && not (contains read_methods request.method)
    then some "read-only role"
    else if body_tenant_mismatch request tid
    then some "tenant scope violation"
    else none

-- the request of a list, once it is let through
abbrev pub scoped : Request → String → Request
scoped request tid =
    if request.method == "GET" && contains query_scoped_lists request.path
    then force_tenant_query request tid
    else request

abbrev pub filter_by : Option String → Request → String → Response → Response
filter_by none request tid response = response
filter_by (some key) request tid response =
    if request.method == "GET" then filter_json_list response key tid else response

abbrev pub filtered : Request → String → Response → Response
filtered request tid response =
    filter_by (get request.path response_filtered_lists) request tid response

module _ {S : Type 0} (call_next : Request → S → Response × S) where
  abbrev admit : Owners → Request → String → S → Option String → Response × S
  admit owners request tid s (some detail) = (forbidden detail, s)
  admit owners request tid s none =
      let (response, s') = call_next (scoped request tid) s in (filtered request tid response, s')

  unfoldable pub dispatch : Owners → Request → S → Response × S
  unfolding guarded_tenant refusal
  dispatch owners request s = elim (guarded_tenant request) [
    | none ↦ call_next request s
    | some tid ↦ admit owners request tid s (refusal owners request tid)
  ]
