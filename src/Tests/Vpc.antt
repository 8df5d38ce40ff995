-- ===== src/Tests/Vpc.antt =====
-- Runs of the segments of app/nico_fake.py.
use neo_cloud_control_plane.Prelude.{
  String, ◌≡◌, ◌≢◌, refl, none, some, [], ◌∷◌, ◌==◌, Bool-cases, inl, inr,
}
use neo_cloud_control_plane.Prelude.Decimal.{decimal}
use neo_cloud_control_plane.Dict.{get, put, update}
use neo_cloud_control_plane.Nico.{Nico, Host}
use neo_cloud_control_plane.Nico.Segments.{create_segment, attach_hosts, delete_segment}
use neo_cloud_control_plane.Nico.Vpc.{IsWired, create_segment-IsWired, segment_calls-IsWired}
use neo_cloud_control_plane.Tests.Hosts.{host, nico_with}

empty_IsWired : IsWired (nico_with host)
unfolding get
empty_IsWired = record {
  listed = λ k s h here inside. absurd (apart k s h here inside);
  fresh = λ m later. refl;
}
  where
    taken : (s : String) (h : Host) → some host ≡ some h → h.segment_id ≡ some s → ⊥
    taken s h e i = cc

    apart :
        (k s : String) (h : Host)
        → get k (nico_with host).hosts ≡ some h
        → h.segment_id ≡ some s
        → ⊥
    apart k s h here inside = elim (Bool-cases ("host-01" == k)) [
      | inl y ↦ taken s h (rw y at here) inside
      | inr f ↦ missing h (rw f at here)
    ]
      where
        missing : (g : Host) → none ≡ some g → ⊥
        missing g found = cc

-- a VPC with the one host
abbrev with_vpc : Nico
with_vpc =
    (create_segment "tnt-acme" "VRF-acme" 10000 20000 ("host-01" ∷ []) none none (nico_with host)).1

segment_calls-IsWired_example :
    (IsWired
        (create_segment "tnt-zeta" "VRF-zeta" 10001 20001 ("host-01" ∷ []) none none with_vpc).1
      × IsWired (attach_hosts "seg-3" ("host-01" ∷ []) with_vpc).1
      × IsWired (delete_segment "seg-3" with_vpc).1)
    × (host.segment_id ≢ some "seg-3")
unfolding create_segment delete_segment get decimal put update
segment_calls-IsWired_example =
    segment_calls-IsWired with_vpc "tnt-zeta" "VRF-zeta" 10001 20001 ("host-01" ∷ []) none none
      "seg-3" "host-01" host
      (create_segment-IsWired (nico_with host) "tnt-acme" "VRF-acme" 10000 20000 ("host-01" ∷ [])
        none none empty_IsWired)
      refl
