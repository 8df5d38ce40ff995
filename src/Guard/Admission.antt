-- ===== src/Guard/Admission.antt =====
-- app/tenancy_guard.py: what `dispatch` lets through and what it lets out.
use neo_cloud_control_plane.Prelude.{
  String, ◌≡◌, refl, ap, sym, ◌∙◌, subst, Bool, true, false, not, ◌&&◌, Option, none, some, List,
  [], ◌∷◌, ◌==◌, eq_iff, eqb, contains, select, All, arith, ◌⊎◌, inl, inr, Bool-cases, Option-cases,
  is_some,
}
use neo_cloud_control_plane.Dict.{Dict, get}
use neo_cloud_control_plane.Dict.Laws.{get-put}
use neo_cloud_control_plane.Guard.{
  Request, Response, Owners, Value, text, Item, object, Content, array, item, unreadable,
  starts_with, segment_after, scope_violation, names_other, is_other, role_of, read_methods,
  query_scoped_lists, response_filtered_lists, force_tenant_query, belongs, is_value,
  filter_json_list, forged, body_tenant_mismatch, guarded_tenant, refusal, forbidden, scoped,
  filtered, filter_by, dispatch,
}

-- A request that stays within the tenant.
pub record IsAdmitted (owners : Owners) (tid : String) (r : Request) : Type 0 where
  pub no_admin : starts_with "/api/v1/admin" r.path ≡ false
  pub own_tenant : (t : String) → segment_after "/api/v1/tenants/" r.path ≡ some t → t ≡ tid
  pub own_order :
      (o t : String)
      → segment_after "/api/v1/orders/" r.path ≡ some o
      → get o owners.orders ≡ some t
      → t ≡ tid
  pub own_cluster :
      (c t : String)
      → segment_after "/api/v1/k8s/clusters/" r.path ≡ some c
      → get c owners.clusters ≡ some t
      → t ≡ tid
  pub viewer_reads : role_of r ≡ "viewer" → contains read_methods r.method ≡ true
  pub own_body :
      (fields : Dict Value) (v : Value)
      → contains read_methods r.method ≡ false
      → r.body ≡ some (item (object fields))
      → get "tenant_id" fields ≡ some v
      → v ≡ text tid
  pub own_list :
      r.method ≡ "GET"
      → contains query_scoped_lists r.path ≡ true
      → get "tenant_id" r.query ≡ some tid

own_of : (o : Option String) (t tid : String) → is_other o tid ≡ false → o ≡ some t → t ≡ tid
own_of o t tid h e = ground (arith, eq_iff t tid)

named_own :
    (o : Option String) (d : Dict String) (k t tid : String)
    → names_other o d tid ≡ false
    → o ≡ some k
    → get k d ≡ some t
    → t ≡ tid
named_own none d k t tid h e g = absurd (ground arith)
named_own (some j) d k t tid h e g =
    let same : j ≡ k = cc in (eq_iff t tid).0 (at (get j d) refl (ap (λ z. get z d) same ∙ g) h)
  where
    at :
        (o : Option String)
        → get j d ≡ o
        → get j d ≡ some t
        → names_other (some j) d tid ≡ false
        → (t == tid) ≡ true
    at none e g h = absurd (ground arith)
    at (some u) e g h = ground arith

own_value :
    (o : Option Value) (v : Value) (tid : String)
    → is_value o tid ≡ true
    → o ≡ some v
    → v ≡ text tid
own_value none v tid h e = absurd (ground arith)
own_value (some (text t)) v tid h e = let same : t ≡ tid = (eq_iff t tid).0 h in cc
own_value (some _) v tid h e = absurd (ground arith)

module _ (owners : Owners) (request : Request) (tid : String) where
  -- the four tests of a request that is not refused
  pub record Clear : Type 0 where
    pub admin : starts_with "/api/v1/admin" request.path ≡ false
    pub scope : scope_violation owners request.path tid ≡ false
    pub role : (role_of request == "viewer" && not (contains read_methods request.method)) ≡ false
    pub body : body_tenant_mismatch request tid ≡ false

  clear : refusal owners request tid ≡ none → Clear
  unfolding refusal
  clear e = record {
    admin = ground arith;
    scope = ground arith;
    role = ground arith;
    body = ground arith;
  }

  own_paths :
      scope_violation owners request.path tid ≡ false
      → (is_other (segment_after "/api/v1/tenants/" request.path) tid ≡ false)
        × (names_other (segment_after "/api/v1/orders/" request.path) owners.orders tid ≡ false)
        × (names_other (segment_after "/api/v1/k8s/clusters/" request.path) owners.clusters tid
            ≡ false)
  unfolding scope_violation
  own_paths h = ground arith

  own_body_of :
      body_tenant_mismatch request tid ≡ false
      → (fields : Dict Value) (v : Value) → contains read_methods request.method ≡ false
      → request.body ≡ some (item (object fields))
      → get "tenant_id" fields ≡ some v
      → v ≡ text tid
  unfolding body_tenant_mismatch
  own_body_of h fields v m b e =
      own_value (get "tenant_id" fields) v tid
        (matches (get "tenant_id" fields) e
          (subst (λ (o : Option Content). forged o tid ≡ false) b (unless m h)))
        e
    where
      unless : {p q : Bool} → p ≡ false → (not p && q) ≡ false → q ≡ false
      unless m h = ground arith

      matches :
          (o : Option Value)
          → o ≡ some v
          → (is_some o && not (is_value o tid)) ≡ false
          → is_value o tid ≡ true
      matches none e h = absurd (ground arith)
      matches (some w) e h = ground arith

  -- a request that is not refused and whose list is the tenant's
  admitted :
      (query : List (String × String))
      → Clear
      → (request.method ≡ "GET"
          → contains query_scoped_lists request.path ≡ true
          → get "tenant_id" query ≡ some tid)
      → IsAdmitted owners tid (record request { query = query })
  unfolding role_of
  admitted query c list =
      let (t, o, k) = own_paths c.scope in
      record {
        no_admin = c.admin;
        own_tenant = λ u e. own_of _ u tid t e;
        own_order = λ j u e g. named_own _ owners.orders j u tid o e g;
        own_cluster = λ j u e g. named_own _ owners.clusters j u tid k e g;
        viewer_reads = λ r. must_read _ _ ((eq_iff (role_of request) "viewer").1 r) c.role;
        own_body = own_body_of c.body;
        own_list = list;
      }
    where
      must_read : (p q : Bool) → p ≡ true → (p && not q) ≡ false → q ≡ true
      must_read p q h e = ground arith

  scoped-IsAdmitted : Clear → IsAdmitted owners tid (scoped request tid)
  unfolding force_tenant_query
  scoped-IsAdmitted c =
      elim (Bool-cases (request.method == "GET" && contains query_scoped_lists request.path)) [
        | inl y ↦ rw y (admitted _ c (λ m l. rw get-put refl))
        | inr f ↦ rw f (admitted request.query c (λ m l. absurd (not_both m l f)))
      ]
    where
      not_both :
          request.method ≡ "GET"
          → contains query_scoped_lists request.path ≡ true
          → (request.method == "GET" && contains query_scoped_lists request.path) ≡ false
          → ⊥
      not_both m l f = ground (arith, eq_iff request.method "GET")

module _ {S : Type 0} (call_next : Request → S → Response × S) (owners : Owners) (request : Request)
    (tid : String) (s : S) (customer : guarded_tenant request ≡ some tid) where
  refused_lem :
      (detail : String)
      → refusal owners request tid ≡ some detail
      → dispatch call_next owners request s ≡ (forbidden detail, s)
  unfolding dispatch
  refused_lem detail e = rw (customer, e, dispatch) refl

  passed_lem :
      refusal owners request tid ≡ none
      → dispatch call_next owners request s ≡ (
        filtered request tid (call_next (scoped request tid) s).0,
        (call_next (scoped request tid) s).1,
      )
  unfolding dispatch
  passed_lem e = rw (customer, e, dispatch) refl

  -- A customer's request is refused with 403 before the application sees it, or the application gets
  -- it once, as a request of the same method and path that stays within the tenant: its path names no
  -- other tenant and no order and no cluster of another, it is not of the admin surface, a viewer only
  -- reads, a changing body has no other `tenant_id`, and a scoped list asks for the tenant.
  pub dispatch-IsAdmitted :
      ((detail : String) × (dispatch call_next owners request s ≡ (forbidden detail, s)))
      ⊎ ((r : Request) × IsAdmitted owners tid r
          × (r.method ≡ request.method)
          × (r.path ≡ request.path)
          × (dispatch call_next owners request s
              ≡ (filtered request tid (call_next r s).0, (call_next r s).1)))
  dispatch-IsAdmitted = elim (Option-cases (refusal owners request tid)) [
    | inr (detail, e) ↦ inl (detail, refused_lem detail e)
    | inl e ↦ inr (
      scoped request tid,
      scoped-IsAdmitted owners request tid (clear owners request tid e),
      same_method,
      same_path,
      passed_lem e,
    )
  ]
    where
      same_method : (scoped request tid).method ≡ request.method
      same_method =
          elim (Bool-cases (request.method == "GET" && contains query_scoped_lists request.path)) [
            | inl y ↦ rw y (unfold force_tenant_query in refl)
            | inr f ↦ rw f refl
          ]

      same_path : (scoped request tid).path ≡ request.path
      same_path =
          elim (Bool-cases (request.method == "GET" && contains query_scoped_lists request.path)) [
            | inl y ↦ rw y (unfold force_tenant_query in refl)
            | inr f ↦ rw f refl
          ]

select-All : (p : Item → Bool) (xs : List Item) → All (λ x. p x ≡ true) (select p xs)
select-All p [] = tt
select-All p (x ∷ xs) = elim (Bool-cases (p x)) [
  | inl y ↦ rw y (y, select-All p xs)
  | inr f ↦ rw f (select-All p xs)
]

array_eq : (xs ys : List Item) → array xs ≡ array ys → xs ≡ ys
array_eq xs ys e = cc

filter_lem :
    (response : Response) (key tid : String) (items : List Item)
    → response.status ≡ 200
    → (filter_json_list response key tid).content ≡ array items
    → All (λ i. belongs key tid i ≡ true) items
unfolding filter_json_list
filter_lem response key tid items ok e = by_content response.content (rw ok at e)
  where
    by_content :
        (c : Content)
        → (filter_json_list (record { status = 200; content = c }) key tid).content ≡ array items
        → All (λ i. belongs key tid i ≡ true) items
    by_content (array xs) e =
        subst (All (λ i. belongs key tid i ≡ true)) (array_eq _ items e)
          (select-All (belongs key tid) xs)
    by_content (item x) e = absurd (ground arith)
    by_content unreadable e = absurd (ground arith)

same_status :
    (response : Response) (key tid : String)
    → (filter_json_list response key tid).status ≡ 200
    → response.status ≡ 200
unfolding filter_json_list
same_status response key tid e = elim (Bool-cases (eqb response.status 200)) [
  | inl y ↦ ground arith
  | inr f ↦ rw f at e
]

filtered_lem :
    (request : Request) (tid key : String) (response : Response)
    → request.method ≡ "GET"
    → get request.path response_filtered_lists ≡ some key
    → filtered request tid response ≡ filter_json_list response key tid
filtered_lem request tid key response m e = ap (λ o. filter_by o request tid response) e ∙ rw m refl

not_200 : (detail : String) → (forbidden detail).status ≡ 200 → ⊥
not_200 detail e = omega arith

-- Of a list that is filtered on the way out, a customer sees no item but their own.
pub dispatch-belongs :
    {S : Type 0} (call_next : Request → S → Response × S) (owners : Owners) (request : Request)
    (tid key : String) (s : S) (items : List Item)
    → guarded_tenant request ≡ some tid
    → request.method ≡ "GET"
    → get request.path response_filtered_lists ≡ some key
    → (dispatch call_next owners request s).0.status ≡ 200
    → (dispatch call_next owners request s).0.content ≡ array items
    → All (λ i. belongs key tid i ≡ true) items
dispatch-belongs call_next owners request tid key s items customer m listed good e =
    elim (Option-cases (refusal owners request tid)) [
      | inr (detail, r) ↦ absurd (
          not_200 detail (
            ap (λ z. z.0.status)
              (sym (refused_lem call_next owners request tid s customer detail r))
            ∙ good))
      | inl r ↦
          let response = (call_next (scoped request tid) s).0 in
          let sent : (dispatch call_next owners request s).0 ≡ filter_json_list response key tid =
            ap (λ z. z.0) (passed_lem call_next owners request tid s customer r)
            ∙ filtered_lem request tid key response m listed in
          filter_lem response key tid items
            (same_status response key tid (ap (λ (z : Response). z.status) (sym sent) ∙ good))
            (ap (λ (z : Response). z.content) (sym sent) ∙ e)
    ]
