-- ===== src/Nico/Vpc.antt =====
-- app/nico_fake.py: create_segment, attach_hosts and delete_segment, and which hosts are in a segment.
use neo_cloud_control_plane.Prelude.{
  ℕ, ◌+◌, ◌<◌, String, ◌≡◌, ◌≢◌, refl, ap, sym, ◌∙◌, Bool, true, false, Option, none, some, List,
  ◌++◌, arith, ◌==◌, eq_iff, contains, contains-append, map_option, Option-cases, Bool-cases, inl,
  inr, select, not,
}
use neo_cloud_control_plane.Prelude.Decimal.{id_inj}
use neo_cloud_control_plane.Dict.{Dict, get, put}
use neo_cloud_control_plane.Dict.Laws.{get-put, get-pop}
use neo_cloud_control_plane.Nico.{Nico, Host, Segment}
use neo_cloud_control_plane.Nico.Segments.{
  bind_hosts, segment_name, create_segment, attach_hosts, delete_segment,
}
use neo_cloud_control_plane.Nico.Wiring.{get-bind_hosts, get-unbind_hosts, joined, left}

-- the hosts that a segment lists
abbrev pub lists : Option Segment → String → Bool
lists none k = false
lists (some seg) k = contains seg.host_ids k

-- Every host is listed by the segment that it is in, and no segment has a name that is yet to come.
pub record IsWired (n : Nico) : Type 0 where
  pub listed :
      (k sid : String) (h : Host)
      → get k n.hosts ≡ some h
      → h.segment_id ≡ some sid
      → lists (get sid n.segments) k ≡ true
  pub fresh : (m : ℕ) → n.seq < m → get (segment_name m) n.segments ≡ none

-- `f (get k hosts)`, taken apart
came_from :
    (f : Host → Host) (o : Option Host) (h' : Host)
    → map_option f o ≡ some h'
    → (h : Host) × (o ≡ some h) × (f h ≡ h')
came_from f none h' e = absurd (ground arith)
came_from f (some h) h' e = (h, refl, cc)

left_not :
    (sid k : String) (hids : List String) (h : Host)
    → contains hids k ≡ true
    → (left sid hids k h).segment_id ≢ some sid
left_not sid k hids h c e = ground (arith, eq_iff sid sid)

-- no host is in a segment that was there once it is deleted
delete_segment-clean :
    (n : Nico) (sid k : String) (seg : Segment) (h : Host)
    → IsWired n
    → get sid n.segments ≡ some seg
    → get k (delete_segment sid n).1.hosts ≡ some h
    → h.segment_id ≢ some sid
unfolding delete_segment
delete_segment-clean n sid k seg h w found here inside =
    let (g, before, became) =
      came_from (left sid seg.host_ids k) (get k n.hosts) h (
        sym (get-unbind_hosts sid seg.host_ids k n.hosts) ∙ (rw (found, delete_segment) at here)) in
    elim (Bool-cases (contains seg.host_ids k)) [
      | inl y ↦ left_not sid k seg.host_ids g y (ap (λ (t : Host). t.segment_id) became ∙ inside)
      | inr f ↦
          let same : g ≡ h = rw f at became in
          let member : contains seg.host_ids k ≡ true =
            rw found at (w.listed k sid g before (ap (λ (t : Host). t.segment_id) same ∙ inside)) in
          cc (f, member)
    ]

module _ (new s k : String) (seg : Segment) (segs : Dict Segment) where
  -- a new segment hides none that lists a host
  lists-put :
      get new segs ≡ none → lists (get s segs) k ≡ true → lists (get s (put new seg segs)) k ≡ true
  lists-put fresh l = elim (Bool-cases (new == s)) [
    | inl y ↦ absurd (
        false≢true
          (ap (λ o. lists o k) (sym fresh ∙ ap (λ t. get t segs) ((eq_iff new s).0 y)) ∙ l))
    | inr f ↦ rw (get-put, f) l
  ]
    where
      false≢true : false ≢ true
      false≢true e = cc

  lists-put_self :
      new ≡ s → contains seg.host_ids k ≡ true → lists (get s (put new seg segs)) k ≡ true
  lists-put_self e c = rw (get-put, (eq_iff new s).1 e) c

left_keeps :
    (sid s k : String) (hids : List String) (g : Host)
    → (left sid hids k g).segment_id ≡ some s
    → g.segment_id ≡ some s
left_keeps sid s k hids g e = ground arith

-- a segment that lists more hosts than before
lists-put_more :
    (sid s k : String) (seg seg' : Segment) (segs : Dict Segment)
    → get sid segs ≡ some seg
    → (contains seg.host_ids k ≡ true → contains seg'.host_ids k ≡ true)
    → lists (get s segs) k ≡ true
    → lists (get s (put sid seg' segs)) k ≡ true
lists-put_more sid s k seg seg' segs found more l = elim (Bool-cases (sid == s)) [
  | inl y ↦
      rw (get-put, y)
        (more (ap (λ o. lists o k) (sym found ∙ ap (λ t. get t segs) ((eq_iff sid s).0 y)) ∙ l))
  | inr f ↦ rw (get-put, f) l
]

-- a key that is there is not one that is not
fresh_ne :
    (k j : String) (v w : Segment) (segs : Dict Segment)
    → get k segs ≡ some v
    → get j segs ≡ none
    → get j (put k w segs) ≡ none
fresh_ne k j v w segs found missing = elim (Bool-cases (k == j)) [
  | inl y ↦ absurd (some≢none (sym found ∙ ap (λ t. get t segs) ((eq_iff k j).0 y) ∙ missing))
  | inr f ↦ rw (get-put, f) missing
]
  where
    some≢none : some v ≢ none
    some≢none e = cc

contains_more :
    (xs ys : List String) (k : String) → contains xs k ≡ true → contains (xs ++ ys) k ≡ true
contains_more xs ys k e = rw (contains-append, e)

contains_end :
    (xs ys : List String) (k : String) → contains ys k ≡ true → contains (xs ++ ys) k ≡ true
contains_end xs ys k e = rw contains-append (ground arith)

some_eq : (a b : String) → some a ≡ some b → a ≡ b
some_eq a b e = cc

segment_name_ne : (m k : ℕ) → m < k → segment_name m ≢ segment_name k
segment_name_ne m k h e = absurd (omega (arith, id_inj "seg-" m k e))

-- Creating a segment keeps every host listed by the segment that it is in and the names to come
-- unused.
pub create_segment-IsWired :
    (n : Nico) (tenant vrf : String) (l3vni converged : ℕ) (hids : List String) (a : Option String)
    (pkey : Option ℕ)
    → IsWired n
    → IsWired (create_segment tenant vrf l3vni converged hids a pkey n).1
unfolding create_segment
create_segment-IsWired n tenant vrf l3vni converged hids a pkey w = record {
  listed = λ k s h here inside.
      let (g, before, became) =
        came_from (joined new hids k) (get k n.hosts) h
          (sym (get-bind_hosts new hids k n.hosts) ∙ here) in
      elim (Bool-cases (contains hids k)) [
        | inl y ↦
            lists-put_self new s k _ n.segments
              (some_eq new s (ap (λ (t : Host). t.segment_id) (rw y at became) ∙ inside)) y
        | inr f ↦
            lists-put new s k _ n.segments (w.fresh (n.seq + 1) (omega arith))
              (w.listed k s g before (ap (λ (t : Host). t.segment_id) (rw f at became) ∙ inside))
      ];
  fresh = λ m later.
      rw
        (
          get-put,
          ne_test (segment_name (n.seq + 1)) (segment_name m) (segment_name_ne (n.seq + 1) m later),
        )
        (w.fresh m (omega arith));
}
  where
    new : String
    new = segment_name (n.seq + 1)

    ne_test : (x y : String) → x ≢ y → (x == y) ≡ false
    ne_test x y h = ground (arith, eq_iff x y)

-- Attaching hosts to a segment keeps every host listed by the segment that it is in and the names to come
-- unused.
pub attach_hosts-IsWired :
    (n : Nico) (sid : String) (hids : List String) → IsWired n → IsWired (attach_hosts sid hids n).1
unfolding attach_hosts
attach_hosts-IsWired n sid hids w = elim (Option-cases (get sid n.segments)) [
  | inl e ↦ rw (e, attach_hosts) w
  | inr (seg, e) ↦ rw (e, attach_hosts) (attached seg e)
]
  where
    attached :
        (seg : Segment)
        → get sid n.segments ≡ some seg
        → let new_ids = select (λ h. not (contains seg.host_ids h)) hids in
          IsWired (record n {
            segments = put sid (record seg { host_ids = seg.host_ids ++ new_ids }) n.segments;
            hosts = bind_hosts sid new_ids n.hosts;
          })
    attached seg e =
        let new_ids = select (λ h. not (contains seg.host_ids h)) hids in
        let seg' : Segment = record seg { host_ids = seg.host_ids ++ new_ids } in
        record {
          listed = λ k s h here inside.
              let (g, before, became) =
                came_from (joined sid new_ids k) (get k n.hosts) h
                  (sym (get-bind_hosts sid new_ids k n.hosts) ∙ here) in
              elim (Bool-cases (contains new_ids k)) [
                | inl y ↦
                    lists-put_self sid s k seg' n.segments
                      (some_eq sid s (ap (λ (t : Host). t.segment_id) (rw y at became) ∙ inside))
                      (contains_end seg.host_ids new_ids k y)
                | inr f ↦
                    lists-put_more sid s k seg seg' n.segments e
                      (contains_more seg.host_ids new_ids k)
                      (w.listed k s g before
                        (ap (λ (t : Host). t.segment_id) (rw f at became) ∙ inside))
              ];
          fresh = λ m later. fresh_ne sid (segment_name m) seg seg' n.segments e (w.fresh m later);
        }

-- Deleting a segment keeps every host listed by the segment that it is in and the names to come
-- unused.
pub delete_segment-IsWired :
    (n : Nico) (sid : String) → IsWired n → IsWired (delete_segment sid n).1
unfolding delete_segment
delete_segment-IsWired n sid w = elim (Option-cases (get sid n.segments)) [
  | inl e ↦ rw (e, delete_segment) w
  | inr (seg, e) ↦
      rw (e, delete_segment)
        (record {
          listed = λ k s h here inside.
              let (g, before, became) =
                came_from (left sid seg.host_ids k) (get k n.hosts) h
                  (sym (get-unbind_hosts sid seg.host_ids k n.hosts) ∙ here) in
              let was : g.segment_id ≡ some s =
                left_keeps sid s k seg.host_ids g
                  (ap (λ (t : Host). t.segment_id) became ∙ inside) in
              elim (Bool-cases (sid == s)) [
                | inl y ↦ absurd (
                    delete_segment-clean n sid k seg h w e (rw (e, delete_segment) here)
                      (inside ∙ ap some (sym ((eq_iff sid s).0 y))))
                | inr f ↦ rw (get-pop, f) (w.listed k s g before was)
              ];
          fresh = λ m later. rw (get-pop, w.fresh m later) (ground arith);
        })
]

-- a segment that was not there has no host, before and after
deleted-clean :
    (n : Nico) (sid k : String) (h : Host)
    → IsWired n
    → get k (delete_segment sid n).1.hosts ≡ some h
    → h.segment_id ≢ some sid
unfolding delete_segment
deleted-clean n sid k h w here inside = elim (Option-cases (get sid n.segments)) [
  | inl e ↦ unlisted (ap (λ o. lists o k) (sym e) ∙ w.listed k sid h (rw e at here) inside)
  | inr (seg, e) ↦ delete_segment-clean n sid k seg h w e here inside
]
  where
    unlisted : false ≢ true
    unlisted q = cc

-- The creation of a segment, the attachment of hosts and the deletion of a segment, whatever comes of
-- them, keep every host listed by the segment that it is in, and the segment names to come unused; and
-- after the deletion no host is in the segment.
pub segment_calls-IsWired :
    (n : Nico) (tenant vrf : String) (l3vni converged : ℕ) (hids : List String) (a : Option String)
    (pkey : Option ℕ) (sid k : String) (h : Host)
    → IsWired n
    → get k (delete_segment sid n).1.hosts ≡ some h
    → (IsWired (create_segment tenant vrf l3vni converged hids a pkey n).1
        × IsWired (attach_hosts sid hids n).1
        × IsWired (delete_segment sid n).1)
      × (h.segment_id ≢ some sid)
segment_calls-IsWired n tenant vrf l3vni converged hids a pkey sid k h w here = (
  (
    create_segment-IsWired n tenant vrf l3vni converged hids a pkey w,
    attach_hosts-IsWired n sid hids w,
    delete_segment-IsWired n sid w,
  ),
  deleted-clean n sid k h w here,
)
