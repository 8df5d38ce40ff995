-- ===== src/Scenario/Guarded.antt =====
-- app/scenario_api.py: what the state of a termination stands for.
use neo_cloud_control_plane.Prelude.{
  ℕ, String, ◌≡◌, sym, subst, true, none, some, List, [], ◌∷◌, map, ◌==◌, is_some, All, Bool-cases,
  inl, inr, ltb,
}
use neo_cloud_control_plane.Prelude.Sorting.{All-select}
use neo_cloud_control_plane.Dict.{Dict, get, put, update, values}
use neo_cloud_control_plane.Dict.Laws.{
  IsDict, put-IsDict, Entries, Entries-put, Entries-get, get-head, get-tail,
}
use neo_cloud_control_plane.Nico.{sanitize_steps}
use neo_cloud_control_plane.Scenario.{
  TerminationState, ChecklistItem, Termination, WipeCertificate, WipedAllocation, Portal, Outside,
}
use neo_cloud_control_plane.Scenario.Contract.{Reads}
use neo_cloud_control_plane.Scenario.Terminating.{latest, later, latest_termination}

-- all items of the list are confirmed, at a reading of the clock
abbrev pub IsConfirmed : {N : Type 0} → Outside N → Termination → Type 0
IsConfirmed e t =
    All (λ (c : ChecklistItem). c.confirmed ≡ true) t.checklist
    × (at : ℕ) × Reads e at
    × (t.backup_confirmed_at ≡ some at)

-- what the certificate says of each allocation
abbrev pub SaysErased : WipedAllocation → Type 0
SaysErased a = a.erase_steps ≡ map (λ s. (s, true)) sanitize_steps

abbrev pub IsCertified : {N : Type 0} → Outside N → Termination → Type 0
IsCertified e t =
    (c : WipeCertificate) × (t.wipe_certificate ≡ some c)
    × (c.sha256 ≡ e.sha256 c.body)
    × All SaysErased c.body.allocations

abbrev pub Stands : {N : Type 0} → Outside N → TerminationState → Termination → Type 0
Stands e TerminationState.awaiting_backup t =
    (t.backup_confirmed_at ≡ none) × (t.wipe_certificate ≡ none) × (t.closed_at ≡ none)
Stands e TerminationState.erasing t =
    IsConfirmed e t × (t.wipe_certificate ≡ none) × (t.closed_at ≡ none)
Stands e TerminationState.wiped t = IsConfirmed e t × IsCertified e t × (t.closed_at ≡ none)
Stands e TerminationState.closed t =
    IsConfirmed e t × IsCertified e t × (is_some t.closed_at ≡ true)

-- A termination under its id, with what its state stands for.
pub record IsTermination {N : Type 0} (e : Outside N) (key : String) (t : Termination)
    : Type 0 where
  pub named : t.termination_id ≡ key
  pub stands : Stands e t.state t

pub record AreTerminations {N : Type 0} (e : Outside N) (ts : Dict Termination) : Type 0 where
  pub dict : IsDict ts
  pub entries : Entries (IsTermination e) ts

module _ {N : Type 0} (e : Outside N) where
  pub put-AreTerminations :
      (key : String) (t : Termination) (ts : Dict Termination)
      → AreTerminations e ts
      → IsTermination e key t
      → AreTerminations e (put key t ts)
  put-AreTerminations key t ts h is = record {
    dict = put-IsDict key t ts h.dict;
    entries = Entries-put (IsTermination e) key t ts h.entries is;
  }

  pub update-AreTerminations :
      (key : String) (change : Termination → Termination) (t : Termination) (ts : Dict Termination)
      → AreTerminations e ts
      → get key ts ≡ some t
      → IsTermination e key (change t)
      → AreTerminations e (update key change ts)
  unfolding update
  update-AreTerminations key change t ts h g is =
      rw (g, update) (put-AreTerminations key (change t) ts h is)

  -- the record of a tenant that the calls work on stands in the table under its id
  abbrev Found : Dict Termination → Termination → Type 0
  Found ts t = get t.termination_id ts ≡ some t

  pub values-Found : (ts : Dict Termination) → AreTerminations e ts → All (Found ts) (values ts)
  values-Found ts h = found ts h.dict h.entries
    where
      further :
          (j : String) (w : Termination) (d : Dict Termination) (us : List Termination)
          → get j d ≡ none
          → All (Found d) us
          → All (Found ((j, w) ∷ d)) us
      further j w d [] n a = tt
      further j w d (u ∷ us) n (g, a) =
          (get-tail j u.termination_id w u d n g, further j w d us n a)

      found :
          (d : Dict Termination) → IsDict d → Entries (IsTermination e) d → All (Found d) (values d)
      found [] i es = tt
      found ((j, w) ∷ d) (n, i) (is, es) = (
        subst (λ k. get k ((j, w) ∷ d) ≡ some w) (sym is.named) (get-head j w d),
        further j w d (values d) n (found d i es),
      )

  later-All :
      (P : Termination → Type 0) (t : Termination) (ts : List Termination)
      → P t
      → All P ts
      → P (later t ts)
  later-All P t [] p ps = p
  later-All P t (u ∷ ts) p (q, ps) = elim (Bool-cases (ltb t.requested_at u.requested_at)) [
    | inl y ↦ rw y (later-All P u ts q ps)
    | inr n ↦ rw n (later-All P t ts p ps)
  ]

  latest-All :
      (P : Termination → Type 0) (ts : List Termination) (t : Termination)
      → All P ts
      → latest ts ≡ some t
      → P t
  latest-All P [] t ps q = absurd (cc)
  latest-All P (u ∷ ts) t (p, ps) q = subst P (cc) (later-All P u ts p ps)

  -- the latest termination of a tenant is found under its id
  pub latest-Found :
      (tenant_id : String) (p : Portal N) (t : Termination)
      → AreTerminations e p.terminations
      → latest_termination tenant_id p ≡ some t
      → Found p.terminations t × (Stands e t.state t) × ((t.tenant_id == tenant_id) ≡ true)
  latest-Found tenant_id p t h q =
      let (g, y) =
        latest-All (λ t. Found p.terminations t × ((t.tenant_id == tenant_id) ≡ true)) _ t
          (All-select (Found p.terminations) (λ t. t.tenant_id == tenant_id) (values p.terminations)
            (values-Found p.terminations h))
          q in
      (g, (Entries-get (IsTermination e) t.termination_id t p.terminations h.entries g).stands, y)
