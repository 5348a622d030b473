-- ===== src/RequestIp/Cidr.antt =====
-- crates/request_ip/src/cidr.rs: sets of networks.
use moghtech_lib.Base.{
  ℕ, ◌-◌, ◌/◌, ◌%◌, ◌^◌, Bool, ◌||◌, Option, none, some, List, [], ◌∷◌, leb, ◌==◌, if◌then◌else◌,
  is_empty, any,
}
use moghtech_lib.Base.Text.{Text, trim}
use moghtech_lib.Net.{IpAddr, to_canonical}
use moghtech_lib.Error.{Result, ok, ◌>>=◌, fail, forbidden, internal_server_error}

-- What is used of the parsers of `std::net` and of `ipnet::IpNet`.
pub record Nets : Type 1 where
  pub IpNet : Type 0
  pub parse_net : Text → Option IpNet
  pub parse_ip : Text → Option IpAddr
  -- The address of a `SocketAddr`.
  pub parse_socket : Text → Option IpAddr
  pub contains : IpNet → IpAddr → Bool
  -- `IpNet::from`: the network of one address.
  pub host : IpAddr → IpNet
  -- Address bits and prefix length of an `IpNet::V6`.
  pub as_v6 : IpNet → Option (ℕ × ℕ)
  -- `Ipv4Net::new`
  pub v4_net : ℕ → ℕ → Option IpNet

-- `Ipv6Addr::to_ipv4_mapped`
abbrev pub to_ipv4_mapped : ℕ → Option ℕ
to_ipv4_mapped bits = if bits / 2 ^ 32 == 0xffff then some (bits % 2 ^ 32) else none

-- The trait's errors without a status become `500 Internal Server Error`.
module _ (N : Nets) where
  open N use {IpNet, parse_net, parse_ip, contains, host, as_v6, v4_net}

  mapped_net : ℕ → Option ℕ → Option IpNet
  mapped_net len none = none
  mapped_net len (some bits) = v4_net bits (len - 96)

  or_net : Option IpNet → IpNet → IpNet
  or_net none net = net
  or_net (some v) net = v

  unfoldable pub canonicalize_net : IpNet → IpNet
  unfolding mapped_net or_net
  canonicalize_net net = elim (as_v6 net) [
    | none ↦ net
    | some (bits, len) ↦
        if leb 96 len then or_net (mapped_net len (to_ipv4_mapped bits)) net else net
  ]

  either_net : Option IpNet → Option IpAddr → Result IpNet
  either_net (some net) ip = ok net
  either_net none (some ip) = ok (host ip)
  either_net none none = fail internal_server_error "Invalid CIDR whitelist entry"

  unfoldable pub parse_cidr : Text → Result IpNet
  unfolding either_net
  parse_cidr entry =
      let trimmed = trim entry in
      if is_empty trimmed
      then fail internal_server_error "CIDR whitelist entry cannot be empty"
      else do net ← either_net (parse_net trimmed) (parse_ip trimmed); ok (canonicalize_net net)

  -- `CidrSet::parse`: the first invalid entry is the error.
  unfoldable pub parse : List Text → Result (List IpNet)
  parse [] = ok []
  parse (entry ∷ entries) =
      let rest = parse entries in do net ← parse_cidr entry; nets ← rest; ok (net ∷ nets)

  unfoldable pub set_contains : List IpNet → IpAddr → Bool
  set_contains set ip = any (λ net. contains net (to_canonical ip)) set

  unfoldable pub validate_cidr_whitelist : List Text → Result (Unit {0})
  validate_cidr_whitelist entries = do set ← parse entries; ok tt

  unfoldable pub check_cidr_whitelist : IpAddr → List Text → Result (Unit {0})
  check_cidr_whitelist ip whitelist = do
    set ← parse whitelist
    if is_empty set || set_contains set ip
        then ok tt
        else fail forbidden "Request is not in the CIDR whitelist"
