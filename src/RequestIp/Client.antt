-- ===== src/RequestIp/Client.antt =====
-- crates/request_ip/src/lib.rs: the address of the client. A header is the list of its values, the
-- nearest proxy's last; a value that is no text is `none`.
use mathlib.Core.List.{reverse}
use moghtech_lib.Base.{
  Bool, true, false, Option, none, some, List, [], ◌∷◌, if◌then◌else◌, is_empty, map,
}
use moghtech_lib.Base.Text.{Text, trim, split}
use moghtech_lib.Net.{IpAddr, to_canonical}
use moghtech_lib.Error.{Result, ok, err, fail, or_fail, unauthorized}
use moghtech_lib.RequestIp.Cidr.{Nets}
use moghtech_lib.RequestIp.Policy.{TrustedProxies, trusts}

abbrev pub Values : Type 0
Values = List (Option Text)

pub record Headers : Type 0 where
  pub x_forwarded_for : Values
  pub x_real_ip : Values

-- The walk of a header ends at an address, or goes on with the leftmost one so far.
pub data Walk : Type 0 where
  found : IpAddr → Walk
  onward : Option IpAddr → Walk

-- The nearest first.
unfoldable pub entries_of : Text → List Text
entries_of value = reverse (map trim (split b',' value))

module _ (N : Nets) where
  open N use {IpNet, parse_ip, parse_socket}

  unfoldable pub parse_forwarded_ip : Text → Result IpAddr
  parse_forwarded_ip entry = elim (parse_ip entry) [
    | some ip ↦ ok (to_canonical ip)
    | none ↦ elim (parse_socket entry) [
      | some ip ↦ ok (to_canonical ip)
      | none ↦ fail unauthorized "Invalid ip address in forwarding header"
    ]
  ]

  module _ (proxies : TrustedProxies IpNet) (lenient : Bool) where
    -- The entries of one value, the nearest first.
    unfoldable pub walk_entries : List Text → Option IpAddr → Result Walk
    walk_entries [] leftmost = ok (onward leftmost)
    walk_entries (entry ∷ entries) leftmost =
        let skip = walk_entries entries leftmost in
        if is_empty entry then skip else elim (parse_forwarded_ip entry) [
          | err e ↦ if lenient then skip else err e
          | ok ip ↦
              let rest = walk_entries entries (some ip) in
              if trusts N proxies ip then rest else ok (found ip)
        ]

    unfoldable pub walk_values : Values → Option IpAddr → Result (Option IpAddr)
    walk_values [] leftmost = ok leftmost
    walk_values (none ∷ values) leftmost =
        let rest = walk_values values leftmost in
        if lenient then rest else fail unauthorized "header is not valid UTF-8"
    walk_values (some value ∷ values) leftmost = elim (walk_entries (entries_of value) leftmost) [
      | err e ↦ err e
      | ok (found ip) ↦ ok (some ip)
      | ok (onward ip) ↦ walk_values values ip
    ]

    unfoldable pub walk_forwarding_header : Values → Result (Option IpAddr)
    walk_forwarding_header values = walk_values (reverse values) none

  abbrev pub is_all : TrustedProxies IpNet → Bool
  is_all TrustedProxies.all = true
  is_all _ = false

  unfoldable pub peer_trusted : TrustedProxies IpNet → Option IpAddr → Bool
  peer_trusted TrustedProxies.all peer = true
  peer_trusted proxies none = false
  peer_trusted proxies (some peer) = trusts N proxies peer

  abbrev pub canonical : Option IpAddr → Option IpAddr
  canonical none = none
  canonical (some ip) = some (to_canonical ip)

  or_else : Result (Option IpAddr) → Result IpAddr → Result IpAddr
  or_else (err e) next = err e
  or_else (ok (some ip)) next = ok ip
  or_else (ok none) next = next

  unfoldable pub get_client_ip : Headers → Option IpAddr → TrustedProxies IpNet → Result IpAddr
  unfolding or_else
  get_client_ip headers socket proxies =
      let peer = canonical socket in
      let walk = walk_forwarding_header proxies (is_all proxies) in
      if peer_trusted proxies peer
      then or_else (walk headers.x_forwarded_for) (
          or_else (walk headers.x_real_ip) (
            or_fail peer unauthorized
              "No socket peer address, and no forwarding headers were sent"))
      else or_fail peer unauthorized "No socket peer address available for the request"
