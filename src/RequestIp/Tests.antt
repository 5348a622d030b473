-- ===== src/RequestIp/Tests.antt =====
-- crates/request_ip: the parsers of a world in which an address is written with one character.
use moghtech_lib.Base.{
  ℕ, ◌≡◌, refl, Bool, true, false, Option, none, some, List, [], ◌∷◌, ◌++◌, ◌==◌, if◌then◌else◌,
}
use moghtech_lib.Base.Text.{Text, codes, trim, trim_start, trim_end, is_whitespace, split}
use moghtech_lib.Net.{IpAddr, v4, v6, to_canonical}
use moghtech_lib.Error.{Error, Note, ok, err, internal_server_error}
use moghtech_lib.RequestIp.Cidr.{Nets, parse_cidr, set_contains, check_cidr_whitelist}
use moghtech_lib.RequestIp.Policy.{
  TrustedProxies, cidrs, trusts, from_config, read_entry, read_entries, policy_of,
}
use moghtech_lib.RequestIp.Client.{entries_of, parse_forwarded_ip, peer_trusted, get_client_ip}
use moghtech_lib.RequestIp.Spoofing.{get_client_ip-nearest}
use moghtech_lib.Base.{◌↔◌}
use moghtech_lib.RequestIp.Trust.{words, from_config-all_iff}
use moghtech_lib.RequestIp.Whitelist.{check_cidr_whitelist-invalid}

abbrev read_one : Text → Option IpAddr
read_one (c ∷ []) = some (v4 c)
read_one _ = none

abbrev bits : IpAddr → ℕ
bits (v4 b) = b
bits (v6 b) = b

abbrev letters : Nets
letters = record {
  IpNet = ℕ;
  parse_net = λ s. none;
  parse_ip = read_one;
  parse_socket = λ s. none;
  contains = λ net ip. net == bits ip;
  host = bits;
  as_v6 = λ net. none;
  v4_net = λ b len. some b;
}

abbrev proxies : TrustedProxies ℕ
proxies = cidrs (b'p' ∷ [])

split_value : entries_of (codes "x, c, p") ≡ codes "p" ∷ codes "c" ∷ codes "x" ∷ []
unfolding entries_of split trim trim_start trim_end is_whitespace
split_value = refl

-- The client `c` says that it is `x`; the proxy `p` adds `c`.
get_client_ip-nearest_example :
    get_client_ip letters
      (record {
        x_forwarded_for = some (codes "x") ∷ some (codes "x, c, p") ∷ [];
        x_real_ip = some (codes "x") ∷ [];
      })
      (some (v4 b'p'))
      proxies
    ≡ ok (v4 b'c')
unfolding parse_forwarded_ip to_canonical peer_trusted trusts set_contains
get_client_ip-nearest_example =
    get_client_ip-nearest letters proxies (some (v4 b'p')) (some (codes "x") ∷ [])
      (some (codes "x") ∷ []) (codes "x, c, p") (codes "p" ∷ []) (codes "c") (codes "x" ∷ [])
      (v4 b'c') refl split_value ((v4 b'p', refl, refl, refl), tt) refl refl refl

abbrev invalid : Error
invalid = record {
  status = internal_server_error;
  notes = Note.text "Invalid CIDR whitelist entry" ∷ [];
}

not_a_net : parse_cidr letters (codes "zz") ≡ err invalid
unfolding parse_cidr trim trim_start trim_end is_whitespace
not_a_net = refl

check_cidr_whitelist-invalid_example :
    (f : Error) × (check_cidr_whitelist letters (v4 b'c') (codes "c" ∷ codes "zz" ∷ []) ≡ err f)
    × (f.status ≡ internal_server_error)
check_cidr_whitelist-invalid_example =
    check_cidr_whitelist-invalid letters (v4 b'c') (codes "c" ∷ []) [] (codes "zz") invalid
      not_a_net

from_config_example : from_config letters (codes " ALL " ∷ []) ≡ ok TrustedProxies.all
unfolding from_config read_entries read_entry policy_of trim trim_start trim_end is_whitespace
    moghtech_lib.Base.Text.to_ascii_lowercase
from_config_example = refl

from_config-all_iff_example :
    (from_config letters (codes " ALL " ∷ codes "p" ∷ []) ≡ ok TrustedProxies.all)
    ↔ (words (codes " ALL " ∷ codes "p" ∷ []) ≡ codes "all" ∷ [])
from_config-all_iff_example = from_config-all_iff letters (codes " ALL " ∷ codes "p" ∷ [])
