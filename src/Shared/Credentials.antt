-- ===== src/Shared/Credentials.antt =====
-- app/shared_services.py: what is left of the credentials of an order once they are revoked.
use neo_cloud_control_plane.Prelude.{
  String, ◌≡◌, refl, Bool, true, false, some, List, [], ◌∷◌, map, arith, eq_refl, is_text, All,
}
use neo_cloud_control_plane.Dict.{Dict, get}
use neo_cloud_control_plane.Dict.Laws.{get-put, Entries}
use neo_cloud_control_plane.Shared.{
  Shared, OidcClient, IamRealm, SecretEntry, audit, revoke_order_credentials, of_order, revoke,
  purge, logged,
}

map-revoke :
    (order_id : String) (cs : List OidcClient)
    → All (λ c. of_order order_id c ≡ false) (map (revoke order_id) cs)
map-revoke order_id [] = tt
map-revoke order_id (c ∷ cs) = (ground arith, map-revoke order_id cs)

purged_Entries :
    (order_id : String) (d : Dict SecretEntry)
    → Entries (λ p e. is_text e.order_id order_id ≡ false) (purge order_id d)
purged_Entries order_id [] = tt
purged_Entries order_id ((p, e) ∷ d) = ground (arith, purged_Entries order_id d)

realms-logged : (t o : String) (b : Bool) (s : Shared) → (logged t o b s).realms ≡ s.realms
unfolding audit
realms-logged t o true s = refl
realms-logged t o false s = refl

secrets-logged : (t o : String) (b : Bool) (s : Shared) → (logged t o b s).secrets ≡ s.secrets
unfolding audit
secrets-logged t o true s = refl
secrets-logged t o false s = refl

-- Once an order's credentials are revoked, the tenant's realm has the clients that it had, those of
-- the order are no longer active, and the vault keeps no secret of the order.
pub revoke_order_credentials-revokes :
    (t o : String) (s : Shared) (r : IamRealm)
    → get t s.realms ≡ some r
    → (r' : IamRealm) × (get t (revoke_order_credentials t o s).1.realms ≡ some r')
      × (map (λ (c : OidcClient). c.client_id) r'.clients
          ≡ map (λ (c : OidcClient). c.client_id) r.clients)
      × All (λ c. of_order o c ≡ false) r'.clients
      × Entries (λ p e. is_text e.order_id o ≡ false) (revoke_order_credentials t o s).1.secrets
unfolding revoke_order_credentials
revoke_order_credentials-revokes t o s r e = (
  record r { clients = map (revoke o) r.clients },
  rw (e, revoke_order_credentials) (rw (realms-logged, get-put, eq_refl) refl),
  same_ids r.clients,
  map-revoke o r.clients,
  rw (e, revoke_order_credentials) (rw secrets-logged (purged_Entries o s.secrets)),
)
  where
    same_ids :
        (cs : List OidcClient)
        → map (λ (c : OidcClient). c.client_id) (map (revoke o) cs)
          ≡ map (λ (c : OidcClient). c.client_id) cs
    same_ids [] = refl
    same_ids (c ∷ cs) = ground (arith, same_ids cs)
