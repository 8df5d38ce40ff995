-- ===== src/Scenario/Inquiries.antt =====
-- app/scenario_api.py: the inquiries of the public pages.
use Prim.Native.Char.{Char, code}
use Prim.Native.String as Text
use Prim.Native.String.{compare}
use text.Mathlib.Text.{is_le}
use neo_cloud_control_plane.Prelude.{String, ◌+++◌, Bool, false, not, ◌&&◌, ◌||◌, List, leb, eqb}
use neo_cloud_control_plane.Prelude.Decimal.{decimal}
use neo_cloud_control_plane.Prelude.Exec.{Exec, pure, require, gets, modify, ◌>>=◌, ◌>>◌}
use neo_cloud_control_plane.Prelude.Sorting.{sort_by}
use neo_cloud_control_plane.Dict.{put, values}
use neo_cloud_control_plane.Tenancy.{next_seq}
use neo_cloud_control_plane.Scenario.Incidents.{Inquiry, Desk, Times, stamp, next_number}

-- `gpu_scale` as it is printed
pub record InquiryBody : Type 0 where
  pub company : String
  pub name : String
  pub email : String
  pub gpu_scale : String
  pub message : String

abbrev pub is_at : Char → Bool
is_at c = eqb (code c) 64

-- `str.isspace` of one character
abbrev pub is_white : Char → Bool
is_white c =
    (leb 9 (code c) && leb (code c) 13)
    || (leb 28 (code c) && leb (code c) 32)
    || eqb (code c) 133
    || eqb (code c) 160
    || eqb (code c) 5760
    || (leb 8192 (code c) && leb (code c) 8202)
    || (leb 8232 (code c) && leb (code c) 8233)
    || eqb (code c) 8239
    || eqb (code c) 8287
    || eqb (code c) 12288

unfoldable pub has_char : (Char → Bool) → String → Bool
has_char p Text.[] = false
has_char p (Text.◌∷◌ c s) = p c || has_char p s

-- `bool(s.strip())`
abbrev pub is_filled_in : String → Bool
is_filled_in s = has_char (λ c. not (is_white c)) s

abbrev pub inquiry_of : String → String → InquiryBody → Inquiry
inquiry_of iid at body = record {
  inquiry_id = iid;
  company = body.company;
  name = body.name;
  email = body.email;
  gpu_scale = body.gpu_scale;
  message = body.message;
  received_at = at;
}

abbrev pub later_inquiry : Inquiry → Inquiry → Bool
later_inquiry a b = is_le (compare b.received_at a.received_at)

module _ {N : Type 0} where
  abbrev pub file_inquiry : Inquiry → Desk N → Desk N
  file_inquiry rec d = record d { inquiries = put rec.inquiry_id rec d.inquiries }

  abbrev pub file_new : Times N → InquiryBody → Exec (Desk N) String
  file_new c body = do
    n ← next_number "inquiry"
    at ← stamp c
    let iid = "inq-" +++ decimal n
    modify (file_inquiry (inquiry_of iid at body))
    pure iid

  -- POST /public/inquiries
  unfoldable pub create_inquiry : Times N → InquiryBody → Exec (Desk N) String
  unfolding has_char next_seq put decimal
  create_inquiry c body = do
    require (has_char is_at body.email) 422
    require (is_filled_in body.company && is_filled_in body.name) 422
    file_new c body

  -- GET /public/inquiries
  abbrev pub list_inquiries : Exec (Desk N) (List Inquiry)
  list_inquiries = gets (λ d. sort_by later_inquiry (values d.inquiries))
