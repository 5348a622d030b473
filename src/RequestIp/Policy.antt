-- ===== src/RequestIp/Policy.antt =====
-- crates/request_ip/src/lib.rs: `TrustedProxies`.
use moghtech_lib.Base.{
  ℕ, ◌+◌, Bool, true, false, ◌&&◌, ◌||◌, List, [], ◌∷◌, ◌++◌, ltb, if◌then◌else◌, is_empty,
}
use moghtech_lib.Base.Text.{Text, codes, trim, text_eq, to_ascii_lowercase}
use moghtech_lib.Net.{IpAddr}
use moghtech_lib.Error.{Result, ok, ◌>>=◌, fail, internal_server_error}
use moghtech_lib.RequestIp.Cidr.{Nets, parse, set_contains}

abbrev pub private_ranges : List Text
private_ranges =
    codes "127.0.0.0/8"
    ∷ codes "::1"
    ∷ codes "10.0.0.0/8"
    ∷ codes "172.16.0.0/12"
    ∷ codes "192.168.0.0/16"
    ∷ codes "fc00::/7"
    ∷ []

pub data TrustedProxies (Net : Type 0) : Type 0 where
  untrusting : TrustedProxies Net
  cidrs : List Net → TrustedProxies Net
  all : TrustedProxies Net

-- What a config list was read as so far.
pub record Keywords : Type 0 where
  pub ranges : List Text
  pub all : Bool
  pub none : Bool
  pub count : ℕ

unfoldable pub read_entry : Keywords → Text → Keywords
read_entry k entry =
    let word = to_ascii_lowercase entry in
    if is_empty entry
    then k
    else if text_eq word (codes "all")
    then record k { all = true; count = k.count + 1 }
    else if text_eq word (codes "none")
    then record k { none = true; count = k.count + 1 }
    else if text_eq word (codes "private")
    then record k { ranges = k.ranges ++ private_ranges; count = k.count + 1 }
    else record k { ranges = k.ranges ++ entry ∷ []; count = k.count + 1 }

unfoldable pub read_entries : Keywords → List Text → Keywords
unfolding read_entry
read_entries k [] = k
read_entries k (entry ∷ entries) = read_entries (read_entry k (trim entry)) entries

abbrev pub no_keywords : Keywords
no_keywords = record { ranges = []; all = false; none = false; count = 0 }

module _ (N : Nets) where
  open N use {IpNet}

  unfoldable pub parse_proxies : List Text → Result (TrustedProxies IpNet)
  parse_proxies entries = do
    set ← parse N entries
    ok (if is_empty set then untrusting else cidrs set)

  -- `TrustedProxies::private`, which panics if the ranges do not parse: an error here.
  unfoldable pub private : Result (TrustedProxies IpNet)
  private = do set ← parse N private_ranges; ok (cidrs set)

  unfoldable pub policy_of : Keywords → Result (TrustedProxies IpNet)
  policy_of k =
      if (k.all || k.none) && ltb 1 k.count
      then fail internal_server_error
          "Trusted proxies 'all' / 'none' cannot be combined with other entries"
      else if k.all
      then ok TrustedProxies.all
      else if k.none
      then ok untrusting
      else if is_empty k.ranges
      then private
      else parse_proxies k.ranges

  unfoldable pub from_config : List Text → Result (TrustedProxies IpNet)
  unfolding read_entries policy_of
  from_config entries = policy_of (read_entries no_keywords entries)

  unfoldable pub trusts : TrustedProxies IpNet → IpAddr → Bool
  trusts untrusting ip = false
  trusts (cidrs set) ip = set_contains N set ip
  trusts TrustedProxies.all ip = true
