-- ===== src/Nico/Safety.antt =====
-- app/nico_fake.py: the hosts after a sequence of calls, while `job_latency` is 0.
use neo_cloud_control_plane.Prelude.{
  String, ◌≡◌, refl, ap, subst, Bool, true, ◌||◌, Option, none, some, List, [], ◌∷◌, ◌++◌, arith,
  ◌⊎◌, inl, inr,
}
use neo_cloud_control_plane.Dict.{get}
use neo_cloud_control_plane.Nico.{
  Nico, Host, HostState, allocated, released, pool_ready, sanitizing, rma, is_state,
}
use neo_cloud_control_plane.Nico.Settled.{IsSettled}
use neo_cloud_control_plane.Nico.Effect.{
  Effect-IsSettled, Passed, Gate, Move, Moved, IsBound, may_move,
}
use neo_cloud_control_plane.Nico.Run.{Call, sanitizes, sanitized, step, run, step-Effect}

-- the host that a host has become
Moved-some :
    (P : Type 0) (h : Host) (o' : Option Host)
    → Moved P (some h) o'
    → (h' : Host) × (o' ≡ some h') × Move P h h'
Moved-some P h none m = absurd m
Moved-some P h (some h') m = (h', refl, m)

after_step :
    (c : Call) (n : Nico) (k : String) (h : Host)
    → IsSettled n
    → get k n.hosts ≡ some h
    → (h' : Host) × (get k (step c n).hosts ≡ some h') × Move (Gate (sanitized c) (step c n) k) h h'
after_step c n k h v e = Moved-some (Gate (sanitized c) (step c n) k) h (get k (step c n).hosts) (
    subst (λ o. Moved (Gate (sanitized c) (step c n) k) o (get k (step c n).hosts)) e
      ((step-Effect c n v).moved k))

-- A call changes the state of a host only as the state machine of the hosts allows.
pub step-may_move :
    (c : Call) (n : Nico) (k : String) (h : Host)
    → IsSettled n
    → get k n.hosts ≡ some h
    → (h' : Host) × (get k (step c n).hosts ≡ some h') × (may_move h.state h'.state ≡ true)
step-may_move c n k h v e = let (h', at, m) = after_step c n k h v e in (h', at, m.legal)

-- where a host ends that had an instance and a tenant exactly while it was allocated
pub run-IsBound :
    (cs : List Call) (n : Nico) (k : String) (h : Host)
    → IsSettled n
    → get k n.hosts ≡ some h
    → IsBound h
    → (h' : Host) × (get k (run cs n).hosts ≡ some h') × IsBound h'
unfolding run
run-IsBound [] n k h v e b = (h, e, b)
run-IsBound (c ∷ cs) n k h v e b =
    let (h', at, m) = after_step c n k h v e in
    run-IsBound cs (step c n) k h' (Effect-IsSettled n (step c n) v (step-Effect c n v)) at
      (m.bound b)

-- A host that had a tenant and has not been sanitized since.
abbrev pub is_used : HostState → Bool
is_used s = is_state s allocated || is_state s released || is_state s sanitizing || is_state s rma

stays_used :
    (P : Type 0) (h h' : Host)
    → Move P h h'
    → is_used h.state ≡ true
    → (is_used h'.state ≡ true) ⊎ P
stays_used P h h' m u = used h.state h'.state u m.legal m.gate
  where
    used :
        (s t : HostState)
        → is_used s ≡ true
        → may_move s t ≡ true
        → (s ≡ released → t ≡ pool_ready → P)
        → (is_used t ≡ true) ⊎ P
    used allocated t u l g = inl (ground arith)
    used released pool_ready u l g = inr (g refl refl)
    used released t u l g = inl (ground arith)
    used sanitizing t u l g = inl (ground arith)
    used rma t u l g = inl (ground arith)
    used s t u l g = absurd (ground arith)

only_sanitizes : (c : Call) (k : String) → sanitized c ≡ some k → c ≡ sanitizes k
only_sanitizes (sanitizes h) k e = ap sanitizes (ground arith)
only_sanitizes _ k e = absurd (ground arith)

-- A host that has been allocated comes back into use only through a sanitize run: after any calls it
-- is still allocated, released, in sanitizing or in rma, or one of the calls was a sanitize of this
-- very host, after which the report on file for it had passed all the steps.
pub reuse_needs_sanitize :
    (cs : List Call) (n : Nico) (k : String) (h : Host)
    → IsSettled n
    → get k n.hosts ≡ some h
    → is_used h.state ≡ true
    → ((h' : Host) × (get k (run cs n).hosts ≡ some h') × (is_used h'.state ≡ true))
      ⊎ ((before : List Call) × (after : List Call) × (cs ≡ before ++ sanitizes k ∷ after)
          × Passed (run (before ++ sanitizes k ∷ []) n) k)
unfolding run
reuse_needs_sanitize [] n k h v e u = inl (h, e, u)
reuse_needs_sanitize (c ∷ cs) n k h v e u =
    let (h', at, m) = after_step c n k h v e in
    elim (stays_used (Gate (sanitized c) (step c n) k) h h' m u) [
      | inr p ↦
          let s : c ≡ sanitizes k = only_sanitizes c k p.0 in
          inr ([], cs, ap (λ d. d ∷ cs) s, subst (λ d. Passed (step d n) k) s p.1)
      | inl u' ↦
          elim (reuse_needs_sanitize cs (step c n) k h'
            (Effect-IsSettled n (step c n) v (step-Effect c n v)) at u') [
              | inl done ↦ inl done
              | inr (before, after, split, p) ↦ inr (c ∷ before, after, ap (λ t. c ∷ t) split, p)
            ]
    ]
