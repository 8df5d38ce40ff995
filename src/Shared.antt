-- ===== src/Shared.antt =====
-- app/shared_services.py: IAM realms, the vault, privileged sessions and the audit trail. Times are
-- not kept, and the random tokens are arguments. What is sent to the tracer is not kept.
pub mod Audit
pub mod Credentials
use Prim.Native.Nat.{min}
use neo_cloud_control_plane.Prelude.{
  ℕ, zero, suc, ◌+◌, ◌-◌, String, ◌+++◌, Bool, true, false, not, ◌&&◌, ◌||◌, Option, none, some,
  List, [], ◌∷◌, ◌++◌, map, ◌==◌, ltb, if◌then◌else◌, is_some, is_text, length, select, contains,
  or_else,
}
use neo_cloud_control_plane.Prelude.Decimal.{decimal}
use neo_cloud_control_plane.Prelude.Exec.{
  Exec, ok, err, raise, or_raise, gets, modify, pure, ◌>>=◌, ◌>>◌,
}
use neo_cloud_control_plane.Dict
use neo_cloud_control_plane.Dict.{Dict, get, put, pop, values}

pub record OidcClient : Type 0 where
  pub client_id : String
  pub kind : String
  pub scope : String
  pub order_id : Option String
  pub mfa : Bool
  pub tokens_issued : ℕ
  pub secret_masked : String
  -- `state == "active"`; the other state is "revoked"
  pub active : Bool

pub record IamRealm : Type 0 where
  pub realm : String
  pub display : String
  pub roles : List String
  pub clients : List OidcClient

pub record SecretEntry : Type 0 where
  pub path : String
  pub kind : String
  pub tenant_ref : String
  pub order_id : Option String
  pub version : ℕ
  pub value_masked : String

pub record PamSession : Type 0 where
  pub id : String
  pub operator : String
  pub target : String
  pub reason : String
  pub ttl_s : ℕ
  pub closed : Bool

pub record AuditEntry : Type 0 where
  pub seq : ℕ
  pub actor : String
  pub action : String
  pub target : String
  pub result : String
  pub tenant_ref : Option String

pub record Shared : Type 0 where
  pub realms : Dict IamRealm
  pub secrets : Dict SecretEntry
  pub pam_sessions : Dict PamSession
  pub audit_log : List AuditEntry
  pub sa_secrets : Dict String
  pub seq : ℕ

abbrev pub empty : Shared
empty = record {
  realms = [];
  secrets = [];
  pam_sessions = [];
  audit_log = [];
  sa_secrets = [];
  seq = 0;
}

-- `reset` clears the tables in place
unfoldable pub reset : Shared → Shared
reset s = record s {
  realms = [];
  secrets = [];
  pam_sessions = [];
  audit_log = [];
  sa_secrets = [];
  seq = 0;
}

abbrev pub drop {ℓ} : {A : Type ℓ} → ℕ → List A → List A
drop zero xs = xs
drop (suc n) [] = []
drop (suc n) (x ∷ xs) = drop n xs

-- `del self.audit_log[:200]` when there are more than 2000 entries
abbrev pub trim : List AuditEntry → List AuditEntry
trim log = if ltb 2000 (length log) then drop 200 log else log

unfoldable pub audit : String → String → String → String → Option String → Shared → Shared
audit actor action target result tenant_ref s =
    let entry : AuditEntry = record {
      seq = s.seq + 1;
      actor = actor;
      action = action;
      target = target;
      result = result;
      tenant_ref = tenant_ref;
    } in
    record s { seq = s.seq + 1; audit_log = trim (s.audit_log ++ entry ∷ []) }

abbrev pub portal_client : String → OidcClient
portal_client tenant_id = record {
  client_id = tenant_id +++ "-portal";
  kind = "portal";
  scope = "openid profile tenant:self";
  order_id = none;
  mfa = true;
  tokens_issued = 0;
  secret_masked = "";
  active = true;
}

-- DEFAULT_ROLES
abbrev pub default_roles : List String
default_roles = "tenant-admin" ∷ "ops-operator" ∷ "viewer" ∷ []

abbrev new_realm : String → String → IamRealm
new_realm tenant_id display = record {
  realm = tenant_id;
  display = display;
  roles = default_roles;
  clients = portal_client tenant_id ∷ [];
}

-- A realm that is there is returned as it is.
unfoldable pub create_realm : String → String → Shared → IamRealm × Shared
unfolding audit
create_realm tenant_id display s = elim (get tenant_id s.realms) [
  | some realm ↦ (realm, s)
  | none ↦ (
    new_realm tenant_id display,
    audit "neocloud-os" "iam.realm.create" tenant_id "success" (some tenant_id)
        (record s { realms = put tenant_id (new_realm tenant_id display) s.realms }),
  )
]

-- the first client with this id
find_in : String → List OidcClient → Option OidcClient
find_in client_id [] = none
find_in client_id (c ∷ cs) = if c.client_id == client_id then some c else find_in client_id cs

-- _find_client: the first client with this id in the first realm that has one
unfoldable pub find_client : String → List IamRealm → Option (IamRealm × OidcClient)
unfolding find_in
find_client client_id [] = none
find_client client_id (r ∷ rs) = elim (find_in client_id r.clients) [
  | some c ↦ some (r, c)
  | none ↦ find_client client_id rs
]

-- `client.tokens_issued += 1` on the client that `_find_client` found
bump_in : String → List OidcClient → List OidcClient
bump_in client_id [] = []
bump_in client_id (c ∷ cs) =
    if c.client_id == client_id
    then record c { tokens_issued = c.tokens_issued + 1 } ∷ cs
    else c ∷ bump_in client_id cs

pub bump_client : String → Dict IamRealm → Dict IamRealm
unfolding bump_in find_in
bump_client client_id [] = []
bump_client client_id ((t, r) ∷ rs) =
    if is_some (find_in client_id r.clients)
    then (t, record r { clients = bump_in client_id r.clients }) ∷ rs
    else (t, r) ∷ bump_client client_id rs

pub record Token : Type 0 where
  pub access_token : String
  pub expires_in : ℕ
  pub scope : String

abbrev denied : String → String → Shared → Shared
denied client_id actor s = audit actor "iam.token.issue" client_id "denied" none s

abbrev granted : String → String → IamRealm → Shared → Shared
granted client_id actor r s =
    audit actor "iam.token.issue" client_id "success" (some r.realm)
      (record s { realms = bump_client client_id s.realms })

abbrev token_for : OidcClient → String → Token
token_for c random = record {
  access_token = "eyJ.fake." +++ random;
  expires_in = 3600;
  scope = c.scope;
}

abbrev pub issue_to : String → String → String → Option (IamRealm × OidcClient) → Exec Shared Token
issue_to client_id actor random none s = (err 403, denied client_id actor s)
issue_to client_id actor random (some (r, c)) s =
    if c.active
    then (ok (token_for c random), granted client_id actor r s)
    else (err 403, denied client_id actor s)

-- 403 for a client that is unknown or revoked, which is audited too
unfoldable pub issue_token : String → String → String → Exec Shared Token
unfolding find_client bump_client audit
issue_token client_id actor random s =
    issue_to client_id actor random (find_client client_id (values s.realms)) s

-- `mask` is the cut `secret[-4:]`.
abbrev pub service_client : (String → String) → String → String → OidcClient
service_client mask order_id secret = record {
  client_id = "sa-" +++ order_id;
  kind = "service-account";
  scope = "nodes:read storage:mount telemetry:write";
  order_id = some order_id;
  mfa = false;
  tokens_issued = 0;
  secret_masked = "nc_****" +++ mask secret;
  active = true;
}

-- the realm with the new client, and the secret that waits for the delivery package
abbrev pub with_account : String → String → OidcClient → String → Shared → Shared
with_account tenant_id order_id client secret s =
    let (realm, s₁) = create_realm tenant_id tenant_id s in
    record s₁ {
      realms = put tenant_id (record realm { clients = realm.clients ++ client ∷ [] }) s₁.realms;
      sa_secrets = put order_id secret s₁.sa_secrets;
    }

unfoldable pub issue_service_account :
    (String → String) → String → String → String → String → Exec Shared OidcClient
unfolding create_realm issue_token
issue_service_account mask tenant_id order_id random token_random s =
    let secret = "nc_" +++ random in
    let client = service_client mask order_id secret in
    (issue_token client.client_id "neocloud-os" token_random >>= λ t. pure client)
      (with_account tenant_id order_id client secret s)

-- `short` is the cut `kind[:3]`.
unfoldable pub write_secret :
    (String → String)
    → String
    → String
    → String
    → Option String
    → String
    → Shared
    → SecretEntry × Shared
unfolding audit
write_secret short path kind tenant_ref order_id random s =
    let entry : SecretEntry = record {
      path = path;
      kind = kind;
      tenant_ref = tenant_ref;
      order_id = order_id;
      version = elim (get path s.secrets) [ none ↦ 1 | some prev ↦ prev.version + 1 ];
      value_masked = short kind +++ "_****" +++ random;
    } in
    (
      entry,
      audit "neocloud-os" "vault.secret.write" path "success" (some tenant_ref)
          (record s { secrets = put path entry s.secrets }),
    )

-- The secret is handed out once; without one a fresh text stands in.
unfoldable pub pop_sa_secret : String → String → Shared → String × Shared
pop_sa_secret order_id random s = (
  or_else (get order_id s.sa_secrets) ("nc_" +++ random),
  record s { sa_secrets = pop order_id s.sa_secrets },
)

abbrev pub of_order : String → OidcClient → Bool
of_order order_id c = is_text c.order_id order_id && c.active

abbrev pub revoke : String → OidcClient → OidcClient
revoke order_id c = if of_order order_id c then record c { active = false } else c

abbrev revoked_ids : String → List OidcClient → List String
revoked_ids order_id cs = map (λ (c : OidcClient). c.client_id) (select (of_order order_id) cs)

-- the paths of an order's secrets, and the vault without them
abbrev pub paths_of : String → Dict SecretEntry → List String
paths_of order_id d = map (λ e. e.0) (select (λ e. is_text (e.1).order_id order_id) d)

abbrev pub purge : String → Dict SecretEntry → Dict SecretEntry
purge order_id d = select (λ e. not (is_text (e.1).order_id order_id)) d

abbrev pub some_of : List String → Bool
some_of [] = false
some_of (x ∷ xs) = true

abbrev pub logged : String → String → Bool → Shared → Shared
logged tenant_id order_id false t = t
logged tenant_id order_id true t =
    audit "neocloud-os" "iam.credentials.revoke" (tenant_id +++ "/" +++ order_id) "success"
      (some tenant_id) t

unfoldable pub revoke_order_credentials :
    String → String → Shared → (List String × List String) × Shared
unfolding audit
revoke_order_credentials tenant_id order_id s =
    let purged = paths_of order_id s.secrets in
    let s₁ : Shared = record s { secrets = purge order_id s.secrets } in
    elim (get tenant_id s.realms) [
      | none ↦ (([], purged), logged tenant_id order_id (some_of purged) s₁)
      | some r ↦ (
        (revoked_ids order_id r.clients, purged),
        logged tenant_id order_id (some_of (revoked_ids order_id r.clients) || some_of purged)
            (record s₁ {
              realms =
                  put tenant_id (record r { clients = map (revoke order_id) r.clients }) s₁.realms;
            }),
      )
    ]

unfoldable pub pam_open : String → String → String → ℕ → Shared → PamSession × Shared
unfolding audit
pam_open operator target reason ttl_s s =
    let sess : PamSession = record {
      id = "pam-" +++ decimal (s.seq + 1);
      operator = operator;
      target = target;
      reason = reason;
      ttl_s = ttl_s;
      closed = false;
    } in
    (
      sess,
      audit operator "pam.session.open" target "success" none
          (record s { seq = s.seq + 1; pam_sessions = put sess.id sess s.pam_sessions }),
    )

unfoldable pub pam_close : String → Exec Shared PamSession
unfolding audit
pam_close session_id = do
  found ← gets (λ s. get session_id s.pam_sessions)
  sess ← or_raise found 404
  let sess' : PamSession = record sess { closed = true }
  modify (λ s.
      audit sess.operator "pam.session.close" sess.target "success" none
        (record s { pam_sessions = put session_id sess' s.pam_sessions }))
  pure sess'
