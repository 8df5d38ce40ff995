-- ===== src/Trace/Log.antt =====
-- app/trace.py: the answers of a query.
use Prim.Native.Char.{code}
use Prim.Native.String as Text
use neo_cloud_control_plane.Prelude.{
  false, ◌||◌, Bool-cases, eq_iff, eqb, is_some, or_else, ◌+++◌, ℕ, zero, suc, ◌-◌, ◌≤◌, String,
  ◌≡◌, refl, ap, Bool, true, ◌&&◌, ◌==◌, Option, none, some, List, [], ◌∷◌, ◌++◌, arith, length,
  select, ltb, is_text, if◌then◌else◌, ◌⊎◌, inl, inr,
}
use neo_cloud_control_plane.Prelude.Text.{strip}
use neo_cloud_control_plane.Shared.{drop}
use neo_cloud_control_plane.Trace.{
  TraceEvent, Tracer, wanted, pos, query, by_text, within, lower_text, hay_of,
}

-- a filter that is missing or empty asks for nothing
abbrev pub asks : Option String → (String → Bool) → Bool
asks none p = true
asks (some f) p = if f == "" then true else p f

begins : String → String → Bool
begins Text.[] s = true
begins (Text.◌∷◌ c p) Text.[] = false
begins (Text.◌∷◌ c p) (Text.◌∷◌ d s) = eqb (code c) (code d) && begins p s

-- the text stands somewhere in the other
occurs : String → String → Bool
occurs q Text.[] = begins q ""
occurs q (Text.◌∷◌ c s) = begins q (Text.◌∷◌ c s) || occurs q s

begins-strip : (p s : String) → is_some (strip p s) ≡ begins p s
unfolding strip begins
begins-strip Text.[] s = refl
begins-strip (Text.◌∷◌ c p) Text.[] = refl
begins-strip (Text.◌∷◌ c p) (Text.◌∷◌ d s) = elim (Bool-cases (eqb (code c) (code d))) [
  | inl y ↦ rw y (begins-strip p s)
  | inr n ↦ rw n refl
]

empty-begins : (q : String) → (q == "") ≡ begins q ""
unfolding begins
empty-begins Text.[] = refl
empty-begins (Text.◌∷◌ c p) = elim (Bool-cases (Text.◌∷◌ c p == "")) [
  | inl y ↦ absurd (clash (ap (λ x. begins x "") ((eq_iff (Text.◌∷◌ c p) "").0 y)))
  | inr n ↦ n
]
  where
    clash : false ≡ true → ⊥
    clash e = cc

occurs-within : (q s : String) → within q s ≡ occurs q s
unfolding within occurs
occurs-within q Text.[] = empty-begins q
occurs-within q (Text.◌∷◌ c s) = rw (begins-strip q (Text.◌∷◌ c s), occurs-within q s) refl

-- What a query asks for: an event after `since`, of the order and over the channel that are named, with
-- the text somewhere in its own, whatever the case of ASCII letters.
unfoldable pub passes : Option String → Option String → Option String → ℕ → TraceEvent → Bool
unfolding occurs begins lower_text
passes order_id channel q since e =
    ltb since e.seq
    && asks order_id (λ f. is_text e.order_id f)
    && asks channel (λ f. e.channel == f)
    && asks q (λ f. occurs (lower_text f) (
        lower_text (
          e.src
          +++ " "
          +++ e.dst
          +++ " "
          +++ e.op
          +++ " "
          +++ e.detail
          +++ " "
          +++ or_else e.host_id "None")))

text-asks :
    (q : Option String) (hay : String)
    → by_text q (λ f. within (lower_text f) (lower_text hay))
      ≡ asks q (λ f. occurs (lower_text f) (lower_text hay))
text-asks none hay = refl
text-asks (some f) hay = rw (occurs-within (lower_text f) (lower_text hay)) (ground arith)

wanted-passes :
    (order_id channel q : Option String) (since : ℕ) (e : TraceEvent)
    → wanted order_id channel q since e ≡ passes order_id channel q since e
unfolding wanted passes
wanted-passes order_id channel q since e = rw (text-asks q (hay_of e)) (ground arith)

select-wanted :
    (order_id channel q : Option String) (since : ℕ) (es : List TraceEvent)
    → select (wanted order_id channel q since) es ≡ select (passes order_id channel q since) es
select-wanted order_id channel q since [] = refl
select-wanted order_id channel q since (e ∷ es) =
    rw (wanted-passes order_id channel q since e, select-wanted order_id channel q since es) refl

-- the first ones that `drop` leaves out
split :
    (n : ℕ) (xs : List TraceEvent)
    → n ≤ length xs
    → (older : List TraceEvent) × (xs ≡ older ++ drop n xs)
      × (length older ≡ n)
      × (length (drop n xs) ≡ length xs - n)
split zero xs h = ([], refl, refl, omega arith)
split (suc n) [] h = absurd (omega (arith, h))
split (suc n) (x ∷ xs) h =
    let (older, e, l, d) = split n xs (omega (arith, h)) in
    (x ∷ older, ap (λ ys. x ∷ ys) e, omega (arith, l), omega (arith, d))

-- With a positive limit the answer of a query ends the list of all events that pass its filters: it has no
-- more of them than the limit, and leaves the older ones out only where it has as many as that.
pub query-passes :
    (order_id channel q : Option String) (since n : ℕ) (t : Tracer)
    → (older : List TraceEvent) × (select (passes order_id channel q since) t.events
        ≡ older ++ query order_id channel q since (pos (suc n)) t)
      × (length (query order_id channel q since (pos (suc n)) t) ≤ suc n)
      × ((older ≡ []) ⊎ (length (query order_id channel q since (pos (suc n)) t) ≡ suc n))
unfolding query
query-passes order_id channel q since n t = rw (select-wanted order_id channel q since t.events) (
    let (older, e, l, d) = split (length out - suc n) out (omega arith) in
    (older, e, omega (arith, d), by_length older l d))
  where
    out : List TraceEvent
    out = select (passes order_id channel q since) t.events

    by_length :
        (older : List TraceEvent)
        → length older ≡ length out - suc n
        → length (drop (length out - suc n) out) ≡ length out - (length out - suc n)
        → (older ≡ []) ⊎ (length (drop (length out - suc n) out) ≡ suc n)
    by_length [] l d = inl refl
    by_length (x ∷ xs) l d = inr (omega (arith, l, d))
