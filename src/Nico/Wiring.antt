-- ===== src/Nico/Wiring.antt =====
-- Segments: which hosts an operation moves into or out of a segment, and nothing else about them.
use neo_cloud_control_plane.Prelude.{
  ℕ, String, ◌≡◌, refl, ap, ◌∙◌, Bool, true, false, ◌||◌, Option, none, some, List, [], ◌∷◌, arith,
  ◌==◌, eq_iff, if◌then◌else◌, contains, is_text, map_option, Option-cases, Bool-cases, inl, inr,
  select, not,
}
use neo_cloud_control_plane.Dict.{Dict, get, update}
use neo_cloud_control_plane.Dict.Laws.{get-update, IsDict, put-IsDict}
use neo_cloud_control_plane.Nico.{Nico, Host}
use neo_cloud_control_plane.Nico.Segments.{
  bind_hosts, unbind_hosts, leave, create_segment, attach_hosts, delete_segment,
}
use neo_cloud_control_plane.Nico.Settled.{IsSettled}
use neo_cloud_control_plane.Nico.Effect.{Effect, Effect-refl, Moved, Moved-refl, Move, may_stay}

abbrev pub joined : String → List String → String → Host → Host
joined sid hids k h = if contains hids k then record h { segment_id = some sid } else h

abbrev pub left : String → List String → String → Host → Host
left sid hids k h = if contains hids k then leave sid h else h

no_change : (f : Host → Host) (o : Option Host) → o ≡ map_option (λ h. if false then f h else h) o
no_change f none = refl
no_change f (some h) = refl

-- one round of either loop, over a change that is the same made twice
one_round :
    (f : Host → Host) (b c : Bool) (o' o : Option Host)
    → ((h : Host) → f (f h) ≡ f h)
    → (b ≡ true → o' ≡ o)
    → map_option (λ h. if c then f h else h) (if b then map_option f o' else o)
      ≡ map_option (λ h. if b || c then f h else h) o
one_round f true c o' none twice same = rw (same refl) refl
one_round f true true o' (some h) twice same = rw (same refl) (rw (twice h) refl)
one_round f true false o' (some h) twice same = rw (same refl) refl
one_round f false c o' o twice same = refl

leave_twice : (sid : String) (h : Host) → leave sid (leave sid h) ≡ leave sid h
leave_twice sid h = ground arith

same_get : (hid k : String) (d : Dict Host) → (hid == k) ≡ true → get hid d ≡ get k d
same_get hid k d e = ap (λ t. get t d) ((eq_iff hid k).0 e)

-- Every listed host joins, and no other changes.
pub get-bind_hosts :
    (sid : String) (hids : List String) (k : String) (d : Dict Host)
    → get k (bind_hosts sid hids d) ≡ map_option (joined sid hids k) (get k d)
unfolding bind_hosts
get-bind_hosts sid [] k d = no_change (λ h. record h { segment_id = some sid }) (get k d)
get-bind_hosts sid (hid ∷ hids) k d =
    rw
      (
        get-bind_hosts sid hids k (update hid (λ h. record h { segment_id = some sid }) d),
        get-update,
      )
      (one_round (λ h. record h { segment_id = some sid }) (hid == k) (contains hids k) (get hid d)
        (get k d) (λ h. refl) (same_get hid k d))

pub get-unbind_hosts :
    (sid : String) (hids : List String) (k : String) (d : Dict Host)
    → get k (unbind_hosts sid hids d) ≡ map_option (left sid hids k) (get k d)
unfolding unbind_hosts
get-unbind_hosts sid [] k d = no_change (leave sid) (get k d)
get-unbind_hosts sid (hid ∷ hids) k d =
    rw (get-unbind_hosts sid hids k (update hid (leave sid) d), get-update)
      (one_round (leave sid) (hid == k) (contains hids k) (get hid d) (get k d) (leave_twice sid)
        (same_get hid k d))

update-IsDict :
    (hid : String) (f : Host → Host) (d : Dict Host) → IsDict d → IsDict (update hid f d)
unfolding update
update-IsDict hid f d u = elim (Option-cases (get hid d)) [
  | inl e ↦ rw (e, update) u
  | inr (h, e) ↦ rw (e, update) (put-IsDict hid (f h) d u)
]

bind_hosts-IsDict :
    (sid : String) (hids : List String) (d : Dict Host) → IsDict d → IsDict (bind_hosts sid hids d)
unfolding bind_hosts
bind_hosts-IsDict sid [] d u = u
bind_hosts-IsDict sid (hid ∷ hids) d u =
    bind_hosts-IsDict sid hids (update hid (λ h. record h { segment_id = some sid }) d)
      (update-IsDict hid _ d u)

unbind_hosts-IsDict :
    (sid : String) (hids : List String) (d : Dict Host)
    → IsDict d
    → IsDict (unbind_hosts sid hids d)
unfolding unbind_hosts
unbind_hosts-IsDict sid [] d u = u
unbind_hosts-IsDict sid (hid ∷ hids) d u =
    unbind_hosts-IsDict sid hids (update hid (leave sid) d) (update-IsDict hid _ d u)

-- a change of the membership alone
joined-Moved :
    (P : Type 0) (sid k : String) (hids : List String) (o : Option Host)
    → Moved P o (map_option (joined sid hids k) o)
joined-Moved P sid k hids none = tt
joined-Moved P sid k hids (some h) = elim (Bool-cases (contains hids k)) [
  | inl y ↦ rw y (record {
    same_id = refl;
    legal = may_stay h.state;
    bound = λ b. ground arith;
    gate = λ r p. absurd (ground arith);
  })
  | inr f ↦ rw f (Moved-refl P (some h))
]

left-Moved :
    (P : Type 0) (sid k : String) (hids : List String) (o : Option Host)
    → Moved P o (map_option (left sid hids k) o)
left-Moved P sid k hids none = tt
left-Moved P sid k hids (some h) = elim (Bool-cases (contains hids k)) [
  | inl y ↦ rw y (leaving (is_text h.segment_id sid))
  | inr f ↦ rw f (Moved-refl P (some h))
]
  where
    leaving : (b : Bool) → Move P h (if b then record h { segment_id = none } else h)
    leaving true = record {
      same_id = refl;
      legal = may_stay h.state;
      bound = λ b. ground arith;
      gate = λ r p. absurd (ground arith);
    }
    leaving false = Moved-refl P (some h)

module _ (n : Nico) (v : IsSettled n) where
  bound-Effect :
      (n' : Nico) (sid : String) (hids : List String)
      → n'.hosts ≡ bind_hosts sid hids n.hosts
      → n'.jobs ≡ n.jobs
      → n'.job_latency ≡ n.job_latency
      → Effect none n n'
  bound-Effect n' sid hids hosts jobs latency = record {
    latency = latency ∙ v.latency;
    over = λ k j e. v.over k j (rw jobs at e);
    moved = λ k. rw (hosts, get-bind_hosts) (joined-Moved _ sid k hids (get k n.hosts));
    dict = rw hosts (bind_hosts-IsDict sid hids n.hosts v.dict);
  }

  pub create_segment-Effect :
      (tenant vrf : String) (l3vni converged : ℕ) (hids : List String) (a : Option String)
      (pkey : Option ℕ)
      → Effect none n (create_segment tenant vrf l3vni converged hids a pkey n).1
  unfolding create_segment
  create_segment-Effect tenant vrf l3vni converged hids a pkey =
      bound-Effect _ _ hids refl refl refl

  pub attach_hosts-Effect :
      (sid : String) (hids : List String) → Effect none n (attach_hosts sid hids n).1
  unfolding attach_hosts
  attach_hosts-Effect sid hids = elim (Option-cases (get sid n.segments)) [
    | inl e ↦ rw (e, attach_hosts) (Effect-refl n v)
    | inr (seg, e) ↦
        rw (e, attach_hosts)
          (bound-Effect _ sid (select (λ h. not (contains seg.host_ids h)) hids) refl refl refl)
  ]

  pub delete_segment-Effect : (sid : String) → Effect none n (delete_segment sid n).1
  unfolding delete_segment
  delete_segment-Effect sid = elim (Option-cases (get sid n.segments)) [
    | inl e ↦ rw (e, delete_segment) (Effect-refl n v)
    | inr (seg, e) ↦
        rw (e, delete_segment)
          (record {
            latency = v.latency;
            over = v.over;
            moved = λ k. rw get-unbind_hosts (left-Moved _ sid k seg.host_ids (get k n.hosts));
            dict = unbind_hosts-IsDict sid seg.host_ids n.hosts v.dict;
          })
  ]
