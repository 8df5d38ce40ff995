-- ===== src/Nico/Segments.antt =====
-- app/nico_fake.py: the network segments (a tenant's VPC) and the hosts that belong to them.
use neo_cloud_control_plane.Prelude.{
  ℕ, ◌+◌, String, ◌+++◌, Option, none, some, List, [], ◌∷◌, ◌++◌, if◌then◌else◌, not, select,
  contains, is_text,
}
use neo_cloud_control_plane.Prelude.Decimal.{decimal}
use neo_cloud_control_plane.Prelude.Exec.{Exec, ok, or_raise, gets, modify, pure, ◌>>=◌, ◌>>◌}
use neo_cloud_control_plane.Dict.{Dict, get, put, pop, update}
use neo_cloud_control_plane.Nico.{Nico, Host, Segment}

-- `for hid in host_ids: host.segment_id = …`, over the hosts that are there
unfoldable pub bind_hosts : String → List String → Dict Host → Dict Host
bind_hosts segment_id [] hosts = hosts
bind_hosts segment_id (hid ∷ hids) hosts =
    bind_hosts segment_id hids (update hid (λ h. record h { segment_id = some segment_id }) hosts)

abbrev pub leave : String → Host → Host
leave segment_id h = if is_text h.segment_id segment_id then record h { segment_id = none } else h

-- the loop of `delete_segment`: a host that has moved to another segment stays there
unfoldable pub unbind_hosts : String → List String → Dict Host → Dict Host
unbind_hosts segment_id [] hosts = hosts
unbind_hosts segment_id (hid ∷ hids) hosts =
    unbind_hosts segment_id hids (update hid (leave segment_id) hosts)

abbrev pub segment_name : ℕ → String
segment_name k = "seg-" +++ decimal k

unfoldable pub create_segment :
    String → String → ℕ → ℕ → List String → Option String → Option ℕ → Exec Nico Segment
unfolding bind_hosts
create_segment tenant_ref vrf l3vni converged_vni host_ids allocation_id ib_pkey n =
    let seg : Segment = record {
      segment_id = segment_name (n.seq + 1);
      tenant_ref = tenant_ref;
      vrf = vrf;
      l3vni = l3vni;
      converged_vni = converged_vni;
      vrf_dataplane = "vpc_" +++ decimal l3vni;
      host_ids = host_ids;
      allocation_id = allocation_id;
      ib_pkey = ib_pkey;
      state = "active";
    } in
    (
      ok seg,
      record n {
        seq = n.seq + 1;
        segments = put seg.segment_id seg n.segments;
        hosts = bind_hosts seg.segment_id host_ids n.hosts;
      },
    )

unfoldable pub attach_hosts : String → List String → Exec Nico Segment
unfolding bind_hosts
attach_hosts segment_id host_ids = do
  found ← gets (λ n. get segment_id n.segments)
  seg ← or_raise found 404
  let new_ids = select (λ h. not (contains seg.host_ids h)) host_ids
  let seg' : Segment = record seg { host_ids = seg.host_ids ++ new_ids }
  modify (λ n. record n {
    segments = put segment_id seg' n.segments;
    hosts = bind_hosts segment_id new_ids n.hosts;
  })
  pure seg'

unfoldable pub delete_segment : String → Exec Nico Segment
unfolding unbind_hosts
delete_segment segment_id = do
  found ← gets (λ n. get segment_id n.segments)
  seg ← or_raise found 404
  modify (λ n. record n {
    segments = pop segment_id n.segments;
    hosts = unbind_hosts segment_id seg.host_ids n.hosts;
  })
  pure (record seg { state = "deleted" })
