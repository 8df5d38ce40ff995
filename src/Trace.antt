-- ===== src/Trace.antt =====
-- app/trace.py: Tracer, the bounded log of what the system does. Times and payloads are not kept.
pub mod Log
use Prim.Native.String as Text
use neo_cloud_control_plane.Prelude.{
  ℕ, zero, suc, ◌+◌, ◌-◌, String, ◌+++◌, Bool, true, false, not, ◌&&◌, ◌||◌, Option, none, some,
  List, [], ◌∷◌, ◌++◌, ◌==◌, leb, ltb, if◌then◌else◌, length, select, is_some, is_text,
}
use neo_cloud_control_plane.Prelude.Text.{strip}
use neo_cloud_control_plane.Shared.{drop}
use neo_cloud_control_plane.Tenancy.Slug.{lower}

pub record TraceEvent : Type 0 where
  pub seq : ℕ
  pub src : String
  pub dst : String
  pub channel : String
  pub op : String
  pub detail : String
  pub order_id : Option String
  pub host_id : Option String

pub record Tracer : Type 0 where
  pub capacity : ℕ
  pub events : List TraceEvent
  pub seq : ℕ

abbrev pub new_tracer : ℕ → Tracer
new_tracer capacity = record { capacity = capacity; events = []; seq = 0 }

-- `deque(maxlen=capacity).append`: the oldest goes where there is no room
abbrev pub append : ℕ → List TraceEvent → TraceEvent → List TraceEvent
append capacity events e = drop (length (events ++ e ∷ []) - capacity) (events ++ e ∷ [])

unfoldable pub emit :
    String
    → String
    → String
    → String
    → String
    → Option String
    → Option String
    → Tracer
    → TraceEvent × Tracer
emit src dst channel op detail order_id host_id t =
    let ev : TraceEvent = record {
      seq = t.seq + 1;
      src = src;
      dst = dst;
      channel = channel;
      op = op;
      detail = detail;
      order_id = order_id;
      host_id = host_id;
    } in
    (ev, record t { seq = t.seq + 1; events = append t.capacity t.events ev })

-- `text.lower()`, over ASCII
lower_text : String → String
lower_text Text.[] = ""
lower_text (Text.◌∷◌ c s) = Text.◌∷◌ (lower c) (lower_text s)

-- `q in hay`
within : String → String → Bool
within q Text.[] = q == ""
within q (Text.◌∷◌ c s) = is_some (strip q (Text.◌∷◌ c s)) || within q s

abbrev shown : Option String → String
shown none = "None"
shown (some s) = s

abbrev hay_of : TraceEvent → String
hay_of ev =
    ev.src +++ " " +++ ev.dst +++ " " +++ ev.op +++ " " +++ ev.detail +++ " " +++ shown ev.host_id

-- a filter that is missing or empty lets every event through
abbrev pub by_text : Option String → (String → Bool) → Bool
by_text none p = true
by_text (some f) p = f == "" || p f

unfoldable pub wanted : Option String → Option String → Option String → ℕ → TraceEvent → Bool
unfolding lower_text within lower
wanted order_id channel q since ev =
    not (leb ev.seq since)
    && by_text order_id (is_text ev.order_id)
    && by_text channel (λ f. ev.channel == f)
    && by_text q (λ f. within (lower_text f) (lower_text (hay_of ev)))

pub data ℤ : Type 0 where
  pos : ℕ → ℤ
  -- `negsuc n` is -(n + 1)
  negsuc : ℕ → ℤ

-- `out[-limit:]`: all of `out` where the limit is 0, and all but the first -limit where it is negative
abbrev pub last_of : ℤ → List TraceEvent → List TraceEvent
last_of (pos zero) out = out
last_of (pos (suc n)) out = drop (length out - suc n) out
last_of (negsuc n) out = drop (suc n) out

unfoldable pub query :
    Option String → Option String → Option String → ℕ → ℤ → Tracer → List TraceEvent
query order_id channel q since limit t =
    last_of limit (select (wanted order_id channel q since) t.events)

unfoldable pub count : Tracer → ℕ
count t = length t.events

unfoldable pub clear : Tracer → Tracer
clear t = record t { events = []; seq = 0 }

abbrev min_limit : ℤ → ℤ
min_limit (pos n) = if ltb 2000 n then pos 2000 else pos n
min_limit (negsuc n) = negsuc n

-- `GET /trace`
unfoldable pub get_trace :
    Option String → Option String → Option String → ℕ → ℤ → Tracer → List TraceEvent
unfolding query
get_trace order_id channel q since limit t = query order_id channel q since (min_limit limit) t
