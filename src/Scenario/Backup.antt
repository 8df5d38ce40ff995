-- ===== src/Scenario/Backup.antt =====
-- app/scenario_api.py: no erasure before the backup, and no certificate before the erasure.
use neo_cloud_control_plane.Prelude.{
  All, ap, ◌∙◌, String, ◌≡◌, refl, arith, sym, subst, Bool, true, false, Option, none, some, List,
  [], ◌∷◌, if◌then◌else◌, Bool-cases, inl, inr, ◌==◌, ◌&&◌, any, or_else, eq_iff,
}
use neo_cloud_control_plane.Prelude.Exec.{Exec, err}
use neo_cloud_control_plane.Prelude.Triples.{Triple-state, Triple-to}
use neo_cloud_control_plane.Dict.{Dict, get, put, has}
use neo_cloud_control_plane.Dict.Laws.{Entries-get, get-put}
use neo_cloud_control_plane.Tenancy.{Allocation}
use neo_cloud_control_plane.Lifecycle.{World}
use neo_cloud_control_plane.Orders.{Floats}
use neo_cloud_control_plane.Scenario.{TerminationState, ChecklistItem, Termination, Portal, Outside}
use neo_cloud_control_plane.Scenario.Terminating.{
  latest_termination, request_termination, is_erasing, is_none_missing, missing_items,
  confirmations,
}
use neo_cloud_control_plane.Scenario.Erasing.{
  confirm_backup, run_termination_saga, get_wipe_certificate,
}
use neo_cloud_control_plane.Scenario.Guarded.{IsTermination, AreTerminations}
use neo_cloud_control_plane.Scenario.Ending.{
  request_termination-Triple, get_wipe_certificate-Triple,
}
use neo_cloud_control_plane.Scenario.Ending.Saga.{
  confirm_backup-Triple, run_termination_saga-Triple,
}

-- an item of the list, and a confirmation of it
abbrev pub names : String → ChecklistItem → Bool
names item c = c.item == item

abbrev pub confirms : String → String × Bool → Bool
confirms item (i, b) = i == item && b

-- a body that never confirms the item leaves it unconfirmed, whatever else it says
get-confirmations :
    (item : String) (body : List (String × Bool)) (known : Dict Bool)
    → any (confirms item) body ≡ false
    → or_else (get item known) false ≡ false
    → or_else (get item (confirmations body known)) false ≡ false
get-confirmations item [] known n u = u
get-confirmations item ((i, b) ∷ body) known n u =
    get-confirmations item body (put i b known) (ground (arith, n))
      (rw (get-put i item b known) (ground (arith, n, u)))

missing_items-names :
    (item : String) (body : List (String × Bool)) (cs : List ChecklistItem)
    → any (names item) cs ≡ true
    → any (confirms item) body ≡ false
    → is_none_missing (missing_items body cs) ≡ false
missing_items-names item body [] y n = cc
missing_items-names item body (c ∷ cs) y n = elim (Bool-cases (c.item == item)) [
  | inl e ↦
      rw
        (subst (λ k. or_else (get k (confirmations body [])) false ≡ false)
          (sym ((eq_iff c.item item).0 e)) (get-confirmations item body [] n (unfold get in refl)))
        refl
  | inr m ↦ ground (arith, missing_items-names item body cs (ground (arith, y, m)) n)
]

-- a call of the tenant, the saga in its thread, or anything that the rest of the program does
pub data Event (N : Type 0) : Type 0 where
  request certificate : String → Event N
  confirm : String → List (String × Bool) → Event N
  saga : String → Event N
  elsewhere : (World N → World N) → Event N

-- a call that this tenant makes
abbrev pub IsCallOf : {N : Type 0} → String → Event N → Type 0
IsCallOf tenant_id (request i) = i ≡ tenant_id
IsCallOf tenant_id (certificate i) = i ≡ tenant_id
IsCallOf tenant_id (confirm i body) = i ≡ tenant_id
IsCallOf tenant_id _ = ⊥

module _ {N : Type 0} (e : Outside N) (f : Floats N)
    (down : String → Allocation → Exec (World N) (Unit {0})) where
  -- the thread of a termination that is being erased
  abbrev thread : Option Termination → Portal N → Portal N
  thread none p = p
  thread (some t) p = if is_erasing t.state then (run_termination_saga e f down t p).1 else p

  abbrev pub event : Event N → Portal N → Portal N
  event (request tenant_id) p = (request_termination e tenant_id p).1
  event (certificate tenant_id) p = (get_wipe_certificate e tenant_id p).1
  event (confirm tenant_id body) p = (confirm_backup e f down tenant_id body p).1
  event (saga key) p = thread (get key p.terminations) p
  event (elsewhere g) p = record p { world = g p.world }

  unfoldable pub run_events : List (Event N) → Portal N → Portal N
  unfolding request_termination confirm_backup run_termination_saga get_wipe_certificate
  run_events [] p = p
  run_events (x ∷ xs) p = run_events xs (event x p)

  thread-AreTerminations :
      (key : String) (o : Option Termination) (p : Portal N)
      → get key p.terminations ≡ o
      → AreTerminations e p.terminations
      → AreTerminations e (thread o p).terminations
  thread-AreTerminations key none p q h = h
  thread-AreTerminations key (some t) p q h = elim (Bool-cases (is_erasing t.state)) [
    | inl y ↦ rw y (
        Triple-state (run_termination_saga e f down t)
          (Triple-to _ (λ u p h. h.0) (run_termination_saga-Triple e f down t)) p
          (h, t, subst (λ k. get k p.terminations ≡ some t) (sym is.named) q, erasing t.state y))
    | inr n ↦ rw n h
  ]
    where
      is : IsTermination e key t
      is = Entries-get (IsTermination e) key t p.terminations h.entries q

      erasing : (st : TerminationState) → is_erasing st ≡ true → st ≡ TerminationState.erasing
      erasing TerminationState.awaiting_backup y = cc
      erasing TerminationState.erasing y = refl
      erasing TerminationState.wiped y = cc
      erasing TerminationState.closed y = cc

  event-AreTerminations :
      (x : Event N) (p : Portal N)
      → AreTerminations e p.terminations
      → AreTerminations e (event x p).terminations
  event-AreTerminations (request tenant_id) p h =
      Triple-state _ (request_termination-Triple e tenant_id) p h
  event-AreTerminations (certificate tenant_id) p h =
      Triple-state _ (get_wipe_certificate-Triple e tenant_id) p h
  event-AreTerminations (confirm tenant_id body) p h =
      Triple-state _ (confirm_backup-Triple e f down tenant_id body) p h
  event-AreTerminations (saga key) p h =
      thread-AreTerminations key (get key p.terminations) p refl h
  event-AreTerminations (elsewhere g) p h = h

  -- Whatever the tenants call, in whatever order, and whatever comes of it, with the sagas in their
  -- threads and anything that the rest of the program does to its world between two calls, each
  -- termination stands under its id, and its state says: before the erasure no backup is confirmed and
  -- no certificate there; from the erasure on all items of its list are confirmed, at a reading of the
  -- clock; a certificate is there exactly from the end of the saga on, with the digest of its body, and
  -- reports each step of each erasure as done; and it has a closing time exactly where it is closed.
  pub run_events-AreTerminations :
      (xs : List (Event N)) (p : Portal N)
      → AreTerminations e p.terminations
      → AreTerminations e (run_events xs p).terminations
  unfolding run_events
  run_events-AreTerminations [] p h = h
  run_events-AreTerminations (x ∷ xs) p h =
      run_events-AreTerminations xs (event x p) (event-AreTerminations x p h)

  -- As long as the latest termination of a tenant waits for the backup, a confirmation that nowhere
  -- confirms an item of its list is refused with 409, whatever else it confirms, and so is the
  -- certificate; nothing changes.
  pub confirm_backup-blocked :
      (tenant_id item : String) (body : List (String × Bool)) (p : Portal N) (t : Termination)
      → latest_termination tenant_id p ≡ some t
      → t.state ≡ TerminationState.awaiting_backup
      → any (names item) t.checklist ≡ true
      → any (confirms item) body ≡ false
      → (confirm_backup e f down tenant_id body p ≡ (err 409, p))
        × (get_wipe_certificate e tenant_id p ≡ (err 409, p))
  unfolding confirm_backup get_wipe_certificate
  confirm_backup-blocked tenant_id item body p t q s y n =
      (simp (q, s, missing_items-names item body t.checklist y n), simp (q, s))

  refusals :
      (tenant_id : String) (body : List (String × Bool)) (p : Portal N) (t : Termination)
      → has tenant_id p.world.store.tenants ≡ true
      → latest_termination tenant_id p ≡ some t
      → t.state ≡ TerminationState.erasing
      → (request_termination e tenant_id p ≡ (err 409, p))
        × (confirm_backup e f down tenant_id body p ≡ (err 409, p))
        × (get_wipe_certificate e tenant_id p ≡ (err 409, p))
  unfolding request_termination confirm_backup get_wipe_certificate
  refusals tenant_id body p t k q s = (simp (k, q, s), simp (q, s), simp (q, s))

  -- Where the latest termination of a known tenant is being erased, no call of the tenant goes through:
  -- a new request, a confirmation of whatever items and the certificate are all refused with 409, and
  -- any number of them, in any order, leaves everything as it is.
  pub erasing-refused :
      (tenant_id : String) (body : List (String × Bool)) (p : Portal N) (t : Termination)
      (xs : List (Event N))
      → has tenant_id p.world.store.tenants ≡ true
      → latest_termination tenant_id p ≡ some t
      → t.state ≡ TerminationState.erasing
      → All (IsCallOf tenant_id) xs
      → ((request_termination e tenant_id p ≡ (err 409, p))
          × (confirm_backup e f down tenant_id body p ≡ (err 409, p))
          × (get_wipe_certificate e tenant_id p ≡ (err 409, p)))
        × (run_events xs p ≡ p)
  unfolding run_events
  erasing-refused tenant_id body p t xs k q s a = (refusals tenant_id body p t k q s, unmoved xs a)
    where
      still : (x : Event N) → IsCallOf tenant_id x → event x p ≡ p
      still (request i) c =
          subst (λ j. (request_termination e j p).1 ≡ p) (sym c)
            (ap (λ r. r.1) (refusals tenant_id body p t k q s).0)
      still (confirm i b) c =
          subst (λ j. (confirm_backup e f down j b p).1 ≡ p) (sym c)
            (ap (λ r. r.1) (refusals tenant_id b p t k q s).1)
      still (certificate i) c =
          subst (λ j. (get_wipe_certificate e j p).1 ≡ p) (sym c)
            (ap (λ r. r.1) (refusals tenant_id body p t k q s).2)
      still (saga key) c = absurd c
      still (elsewhere g) c = absurd c

      unmoved : (xs : List (Event N)) → All (IsCallOf tenant_id) xs → run_events xs p ≡ p
      unmoved [] a = refl
      unmoved (x ∷ xs) a = ap (run_events xs) (still x a.0) ∙ unmoved xs a.1
