-- ===== src/Tests/Accounts.antt =====
-- Runs of app/shared_services.py on one realm.
use neo_cloud_control_plane.Prelude.{
  String, ◌≡◌, refl, true, false, none, some, [], ◌∷◌, map, arith, is_text, All,
}
use neo_cloud_control_plane.Dict.{get}
use neo_cloud_control_plane.Dict.Laws.{Entries}
use neo_cloud_control_plane.Shared
use neo_cloud_control_plane.Shared.{
  Shared, IamRealm, OidcClient, SecretEntry, create_realm, audit, issue_service_account,
  pop_sa_secret, revoke_order_credentials, of_order,
}
use neo_cloud_control_plane.Shared.Audit.{IsTrail, IsAppended, audit-IsTrail}
use neo_cloud_control_plane.Shared.Credentials.{revoke_order_credentials-revokes}

audit-IsTrail_example :
    IsTrail (audit "op" "order.create" "ord-1" "ok" none Shared.empty)
    × IsAppended
        (record {
          seq = 1;
          actor = "op";
          action = "order.create";
          target = "ord-1";
          result = "ok";
          tenant_ref = none;
        })
        []
        (audit "op" "order.create" "ord-1" "ok" none Shared.empty).audit_log
audit-IsTrail_example =
    audit-IsTrail "op" "order.create" "ord-1" "ok" none Shared.empty
      (record { short = omega arith; ordered = omega arith })

abbrev mask : String → String
mask s = "***"

abbrev account : OidcClient
account = record {
  client_id = "sa-ord-1";
  kind = "service-account";
  scope = "order:self";
  order_id = some "ord-1";
  mfa = false;
  tokens_issued = 1;
  secret_masked = "***";
  active = true;
}

abbrev realm : IamRealm
realm = record { realm = "tnt-acme"; display = "Acme"; roles = []; clients = account ∷ [] }

abbrev services : Shared
services = record Shared.empty { realms = ("tnt-acme", realm) ∷ [] }

revoke_order_credentials-revokes_example :
    (r' : IamRealm) × (get "tnt-acme"
        (revoke_order_credentials "tnt-acme" "ord-1" services).1.realms
      ≡ some r')
    × (map (λ (c : OidcClient). c.client_id) r'.clients ≡ "sa-ord-1" ∷ [])
    × All (λ c. of_order "ord-1" c ≡ false) r'.clients
    × Entries
        (λ p e. is_text e.order_id "ord-1" ≡ false)
        (revoke_order_credentials "tnt-acme" "ord-1" services).1.secrets
revoke_order_credentials-revokes_example =
    revoke_order_credentials-revokes "tnt-acme" "ord-1" services realm (unfold get in refl)
