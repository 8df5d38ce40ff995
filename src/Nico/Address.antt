-- ===== src/Nico/Address.antt =====
-- app/nico_fake.py: _ips_for_tray and the host address that `provision` leases. A digit is an ASCII
-- digit here.
use Prim.Native.Char.{Char, code}
use neo_cloud_control_plane.Prelude.{
  ℕ, ◌+◌, ◌-◌, ◌*◌, String, ◌+++◌, Bool, true, false, ◌&&◌, Option, none, some, eqb, leb,
  if◌then◌else◌, ◌==◌,
}
use neo_cloud_control_plane.Prelude.Text.{strip}
use neo_cloud_control_plane.Prelude.Decimal.{decimal}
use neo_cloud_control_plane.Nico.{Host}

is_digit : Char → Bool
is_digit c = leb b'0' (code c) && leb (code c) b'9'

-- `\d+`, after its first digit: the number and the rest
digits_from : ℕ → String → ℕ × String
digits_from a String.[] = (a, "")
digits_from a (String.◌∷◌ c s) = elim (is_digit c) [
  | true ↦ digits_from (a * 10 + (code c - b'0')) s
  | false ↦ (a, String.◌∷◌ c s)
]

-- `\d+`
unfoldable pub number : String → Option (ℕ × String)
unfolding digits_from is_digit
number String.[] = none
number (String.◌∷◌ c s) = if is_digit c then some (digits_from (code c - b'0') s) else none

-- the three numbers of `su-(\d+)-rack-(\d+)-tray-(\d+)`, matched at the start
infixl 10 ◌>>=◌
abbrev ◌>>=◌ : {A B : Type 0} → Option A → (A → Option B) → Option B
none >>= f = none
some a >>= f = f a

match_tray : String → Option (ℕ × ℕ × ℕ)
unfolding strip number
match_tray tray_id = do
  s ← strip "su-" tray_id
  (su, s) ← number s
  s ← strip "-rack-" s
  (rack, s) ← number s
  s ← strip "-tray-" s
  (tray, s) ← number s
  some (su, rack, tray)

pub record Ips : Type 0 where
  pub bmc_ip : String
  pub dpu_ip : String
  pub host_ip : String

infixr 65 ◌⊕◌
abbrev ◌⊕◌ : String → String → String
a ⊕ b = a +++ b

-- _ips_for_tray, once the numbers are read
ips_at : ℕ → ℕ → ℕ → Ips
ips_at su rack tray =
    let net = su * 16 + rack in
    record {
      bmc_ip = "10.99." ⊕ decimal net ⊕ "." ⊕ decimal (tray + 1);
      dpu_ip = "172.16." ⊕ decimal net ⊕ "." ⊕ decimal (tray + 1);
      host_ip = "10." ⊕ decimal (100 + su) ⊕ "." ⊕ decimal rack ⊕ "." ⊕ decimal (tray * 4 + 2);
    }

unfoldable pub ips_for_tray : String → Option Ips
unfolding match_tray ips_at decimal
ips_for_tray tray_id = do (su, rack, tray) ← match_tray tray_id; some (ips_at su rack tray)

-- `int(tray_id.rsplit("-", 1)[1])`: the number after the last dash
unfoldable pub last_number : Option ℕ → String → Option ℕ
last_number found String.[] = found
last_number found (String.◌∷◌ c s) =
    last_number (if eqb (code c) b'-' then whole (number s) else found) s
  where
    whole : Option (ℕ × String) → Option ℕ
    whole none = none
    whole (some (n, rest)) = if rest == "" then some n else none

-- The address that the DPU's DHCP leases to a host; `none` where the source raises ValueError.
unfoldable pub lease_ip : Host → Option String
unfolding last_number ips_for_tray number decimal
lease_ip host =
    if host.sku == "cpu-epyc"
    then cpu_ip (last_number none host.tray_id)
    else tray_ip (ips_for_tray host.tray_id)
  where
    cpu_ip : Option ℕ → Option String
    cpu_ip none = none
    cpu_ip (some n) = some ("10.250.1." +++ decimal n)

    tray_ip : Option Ips → Option String
    tray_ip none = some ""
    tray_ip (some ips) = some ips.host_ip
