-- ===== src/RequestIp/Whitelist.antt =====
-- crates/request_ip/src/cidr.rs: which addresses a whitelist lets through.
use moghtech_lib.Base.{◌≡◌, inl, inr, List, [], ◌∷◌, ◌++◌, arith}
use moghtech_lib.Base.Text.{Text}
use moghtech_lib.Net.{IpAddr}
use moghtech_lib.Error.{Result-cases, Error, err, internal_server_error}
use moghtech_lib.RequestIp.Cidr.{Nets, parse_cidr, parse, check_cidr_whitelist}

module _ (N : Nets) where
  parse_cidr-500 :
      (entry : Text) (e : Error) → parse_cidr N entry ≡ err e → e.status ≡ internal_server_error
  unfolding parse_cidr
  parse_cidr-500 entry e h = ground arith

  parse-500 :
      (before after : List Text) (bad : Text) (e : Error)
      → parse_cidr N bad ≡ err e
      → (f : Error) × (parse N (before ++ bad ∷ after) ≡ err f) × (f.status ≡ internal_server_error)
  unfolding parse
  parse-500 [] after bad e h = (e, ground (arith, h), parse_cidr-500 bad e h)
  parse-500 (entry ∷ before) after bad e h = elim (Result-cases (parse_cidr N entry)) [
    | inl (net, read) ↦
        let (f, failed, status) = parse-500 before after bad e h in
        (f, ground (arith, read, failed), status)
    | inr (f, failed) ↦ (f, ground (arith, failed), parse_cidr-500 entry f failed)
  ]

  -- A whitelist with one invalid entry fails closed: whatever its other entries would let through,
  -- every address is refused, with `500 Internal Server Error`.
  pub check_cidr_whitelist-invalid :
      (ip : IpAddr) (before after : List Text) (bad : Text) (e : Error)
      → parse_cidr N bad ≡ err e
      → (f : Error) × (check_cidr_whitelist N ip (before ++ bad ∷ after) ≡ err f)
        × (f.status ≡ internal_server_error)
  unfolding check_cidr_whitelist
  check_cidr_whitelist-invalid ip before after bad e h =
      let (f, failed, status) = parse-500 before after bad e h in
      (f, ground (arith, failed), status)
