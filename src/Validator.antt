-- ===== src/Validator.antt =====
-- resolver/validator.go: the address of a client, which the rate limiter counts by, and the limit
-- itself as the first check of a request. Headers are the lists of their bytes.
pub mod Forwarded
pub mod Upgrade
use lightnode.Common.{
  ℕ, Bool, true, false, not, ◌||◌, ◌&&◌, Option, none, some, List, [], ◌∷◌, leb, if◌then◌else◌,
}
use lightnode.Common.Ascii.{split}
use lightnode.Common.Eq.{number_eq, bytes_eq, ◌==◌}
use lightnode.Common.Result.{Result, ok, err, ◌>>=◌}
use lightnode.Darknode.{Bytes}

-- strings.TrimSpace on ASCII: tab, line feed, vertical tab, form feed, carriage return and space.
abbrev pub is_space : ℕ → Bool
is_space c = (c == 32) || (leb 9 c && leb c 13)

unfoldable pub trim_front : Bytes → Bytes
trim_front [] = []
trim_front (c ∷ s) = let rest = trim_front s in if is_space c then rest else c ∷ s

abbrev pub keep_back : ℕ → Bytes → Bytes
keep_back c [] = if is_space c then [] else c ∷ []
keep_back c (d ∷ s) = c ∷ (d ∷ s)

unfoldable pub trim_back : Bytes → Bytes
trim_back [] = []
trim_back (c ∷ s) = keep_back c (trim_back s)

unfoldable pub trim_space : Bytes → Bytes
trim_space s = trim_back (trim_front s)

-- The loop from the last entry on: the last one that is not blank.
abbrev pub or_entry : Bytes → Option Bytes → Option Bytes
or_entry entry (some found) = some found
or_entry entry none = if entry == [] then none else some entry

unfoldable pub last_entry : List Bytes → Option Bytes
last_entry [] = none
last_entry (part ∷ parts) = or_entry (trim_space part) (last_entry parts)

-- The header x-forwarded-for where there is one, and otherwise the remote address.
unfoldable pub ip_string : Bytes → Bytes → Option Bytes
ip_string forwarded remote_addr =
    if forwarded == [] then some remote_addr else last_entry (split 44 forwarded)

pub data Refusal : Type 0 where
  no_forwarded_ip unparsed_ip rate_limited : Refusal

-- net.ParseIP and net.SplitHostPort.
pub record Net : Type 1 where
  pub Ip : Type 0
  pub parse_ip : Bytes → Option Ip
  pub split_host_port : Bytes → Option Bytes

module _ (net : Net) where
  abbrev pub on_host : Option Bytes → Result Refusal (Option net.Ip)
  on_host none = err unparsed_ip
  on_host (some host) = ok (net.parse_ip host)

  abbrev pub or_host : Bytes → Option net.Ip → Result Refusal (Option net.Ip)
  or_host text (some ip) = ok (some ip)
  or_host text none = if text == [] then ok none else on_host (net.split_host_port text)

  abbrev pub on_ip_string : Option Bytes → Result Refusal (Option net.Ip)
  on_ip_string none = err no_forwarded_ip
  on_ip_string (some text) = or_host text (net.parse_ip text)

  -- The address of the client, nil where the text has none.
  unfoldable pub client_ip : Bytes → Bytes → Result Refusal (Option net.Ip)
  client_ip forwarded remote_addr = on_ip_string (ip_string forwarded remote_addr)

  -- The checks before the parameters, with the answer of the limiter for an address.
  unfoldable pub admit : (Option net.Ip → Bool) → Bytes → Bytes → Result Refusal (Option net.Ip)
  admit allow forwarded remote_addr =
      client_ip forwarded remote_addr >>= λ ip. if not (allow ip) then err rate_limited else ok ip
