-- ===== src/Shared/Audit.antt =====
-- app/shared_services.py: the audit trail.
use neo_cloud_control_plane.Prelude.{
  ℕ, zero, suc, ◌+◌, ◌-◌, ◌≤◌, ◌<◌, String, ◌≡◌, refl, ap, inl, inr, true, false, if◌then◌else◌,
  Option, List, [], ◌∷◌, ◌++◌, arith, ltb, length, length-append, Bool-cases,
}
use neo_cloud_control_plane.Shared.{Shared, AuditEntry, audit, drop, trim}

length-drop : (n : ℕ) (xs : List AuditEntry) → length (drop n xs) ≡ length xs - n
length-drop zero xs = omega arith
length-drop (suc n) [] = omega arith
length-drop (suc n) (x ∷ xs) = omega (arith, length-drop n xs)

-- Entries stand in the order in which they were made, and none is newer than `top`.
abbrev pub Ascending : ℕ → List AuditEntry → ℕ → Type 0
Ascending low [] top = low ≤ top
Ascending low (e ∷ es) top = (low < e.seq) × Ascending e.seq es top

pub record IsTrail (s : Shared) : Type 0 where
  pub short : length s.audit_log ≤ 2000
  pub ordered : Ascending 0 s.audit_log s.seq

Ascending-low :
    (low low' : ℕ) (es : List AuditEntry) (top : ℕ)
    → low' ≤ low
    → Ascending low es top
    → Ascending low' es top
Ascending-low low low' [] top h a = omega arith
Ascending-low low low' (e ∷ es) top h a = (omega arith, a.1)

Ascending-drop :
    (n low : ℕ) (es : List AuditEntry) (top : ℕ)
    → Ascending low es top
    → Ascending low (drop n es) top
Ascending-drop zero low es top a = a
Ascending-drop (suc n) low [] top a = a
Ascending-drop (suc n) low (e ∷ es) top a =
    Ascending-low e.seq low (drop n es) top (omega arith) (Ascending-drop n e.seq es top a.1)

Ascending-end :
    (low : ℕ) (es : List AuditEntry) (top : ℕ) (x : AuditEntry)
    → x.seq ≡ top + 1
    → Ascending low es top
    → Ascending low (es ++ x ∷ []) (top + 1)
Ascending-end low [] top x e a = (omega arith, omega arith)
Ascending-end low (y ∷ es) top x e a = (a.0, Ascending-end y.seq es top x e a.1)

-- the entries that `drop` leaves out, and what stands behind those that are left
drop_lem :
    (n : ℕ) (xs ys : List AuditEntry)
    → n ≤ length xs
    → (old : List AuditEntry) × (xs ≡ old ++ drop n xs)
      × (length old ≡ n)
      × (drop n (xs ++ ys) ≡ drop n xs ++ ys)
drop_lem zero xs ys h = ([], refl, refl, refl)
drop_lem (suc n) [] ys h = absurd (omega (arith, h))
drop_lem (suc n) (x ∷ xs) ys h =
    let (old, e, l, d) = drop_lem n xs ys (omega (arith, h)) in
    (x ∷ old, ap (λ zs. x ∷ zs) e, omega (arith, l), d)

-- What an entry makes of a trail: the `old` entries are gone, and behind the others stands the new one.
pub record IsAppended (entry : AuditEntry) (log log' : List AuditEntry) : Type 0 where
  pub old : List AuditEntry
  pub kept : List AuditEntry
  pub was : log ≡ old ++ kept
  pub is : log' ≡ kept ++ entry ∷ []
  pub gone : length old ≡ (if ltb (length log) 2000 then 0 else 200)

ltb-true : (m n : ℕ) → ltb m n ≡ true → m < n
ltb-true m n e = ground (arith, e)

ltb-false : (m n : ℕ) → ltb m n ≡ false → n ≤ m
ltb-false m n e = ground (arith, e)

true-ltb : (m n : ℕ) → m < n → ltb m n ≡ true
true-ltb m n h = ground (arith, h)

false-ltb : (m n : ℕ) → n ≤ m → ltb m n ≡ false
false-ltb m n h = ground (arith, h)

appended :
    (entry : AuditEntry) (log : List AuditEntry) → IsAppended entry log (trim (log ++ entry ∷ []))
appended entry log = elim (Bool-cases (ltb (length log) 2000)) [
  | inl y ↦ record {
    old = [];
    kept = log;
    was = refl;
    is =
        rw (length-append log (entry ∷ []))
          (rw (false-ltb 2000 (length log + 1) (omega (arith, ltb-true (length log) 2000 y))) refl);
    gone = rw y refl;
  }
  | inr f ↦
      let h = ltb-false (length log) 2000 f in
      let (old, e, l, d) = drop_lem 200 log (entry ∷ []) (omega (arith, h)) in
      record {
        old = old;
        kept = drop 200 log;
        was = e;
        is =
            rw (length-append log (entry ∷ []))
              (rw (true-ltb 2000 (length log + 1) (omega (arith, h))) d);
        gone = rw f l;
      }
]

audited-IsTrail :
    (actor action target result : String) (tenant : Option String) (s : Shared)
    → IsTrail s
    → IsTrail (audit actor action target result tenant s)
unfolding audit
audited-IsTrail actor action target result tenant s t = elim (Bool-cases (ltb 2000 (length long))) [
  | inl y ↦ record {
    short = rw y (
        rw (length-drop 200 long, length-append s.audit_log (entry ∷ [])) (omega (arith, t.short)));
    ordered = rw y (
        Ascending-drop 200 0 long (s.seq + 1)
          (Ascending-end 0 s.audit_log s.seq entry refl t.ordered));
  }
  | inr f ↦ record {
    short = rw f (ground arith);
    ordered = rw f (Ascending-end 0 s.audit_log s.seq entry refl t.ordered);
  }
]
  where
    entry : AuditEntry
    entry = record {
      seq = s.seq + 1;
      actor = actor;
      action = action;
      target = target;
      result = result;
      tenant_ref = tenant;
    }

    long : List AuditEntry
    long = s.audit_log ++ entry ∷ []

-- A call of `audit` keeps the trail within 2000 entries and in the order of their numbers, and its entry
-- stands at the end with what was given and the next number; the entries before it are those that were
-- there, but for the first 200 where there were 2000.
pub audit-IsTrail :
    (actor action target result : String) (tenant : Option String) (s : Shared)
    → IsTrail s
    → IsTrail (audit actor action target result tenant s)
      × IsAppended
          (record {
            seq = s.seq + 1;
            actor = actor;
            action = action;
            target = target;
            result = result;
            tenant_ref = tenant;
          })
          s.audit_log
          (audit actor action target result tenant s).audit_log
unfolding audit
audit-IsTrail actor action target result tenant s t =
    (audited-IsTrail actor action target result tenant s t, appended _ s.audit_log)
