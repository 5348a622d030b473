-- ===== src/RequestIp/Spoofing.antt =====
-- crates/request_ip/src/lib.rs: what a client can and cannot do to the address it counts under.
use mathlib.Core.List.{reverse, reverse-append}
use moghtech_lib.Base.{
  ◌≡◌, Bool, true, false, Option, none, some, List, [], ◌∷◌, ◌++◌, is_empty, arith, All, inl, inr,
  Option-cases,
}
use moghtech_lib.Base.Text.{Text}
use moghtech_lib.Net.{IpAddr, to_canonical, to_canonical_idem}
use moghtech_lib.Error.{ok}
use moghtech_lib.RequestIp.Cidr.{Nets}
use moghtech_lib.RequestIp.Policy.{TrustedProxies, trusts}
use moghtech_lib.RequestIp.Client.{
  Values, Headers, found, entries_of, parse_forwarded_ip, walk_entries, walk_values,
  walk_forwarding_header, is_all, peer_trusted, get_client_ip, canonical,
}

module _ (N : Nets) (proxies : TrustedProxies N.IpNet) where
  -- An entry that a trusted proxy wrote for another.
  abbrev pub IsHop : Text → Type 0
  IsHop entry =
      (ip : IpAddr) × (is_empty entry ≡ false)
      × (parse_forwarded_ip N entry ≡ ok ip)
      × (trusts N proxies ip ≡ true)

  walk_entries-hops :
      (lenient : Bool) (hops : List Text) (entry : Text) (more : List Text) (ip : IpAddr)
      (leftmost : Option IpAddr)
      → All IsHop hops
      → is_empty entry ≡ false
      → parse_forwarded_ip N entry ≡ ok ip
      → trusts N proxies ip ≡ false
      → walk_entries N proxies lenient (hops ++ entry ∷ more) leftmost ≡ ok (found ip)
  unfolding walk_entries
  walk_entries-hops lenient [] entry more ip leftmost h present parsed stranger =
      ground (arith, present, parsed, stranger)
  walk_entries-hops lenient (hop ∷ hops) entry more ip leftmost ((j, some_text, read, trusted), h)
        present parsed stranger =
      ground (
        arith,
        some_text,
        read,
        trusted,
        walk_entries-hops lenient hops entry more ip (some j) h present parsed stranger,
      )

  -- Behind a trusted peer, the client is the first address that is no trusted proxy, read from the
  -- nearest hop back in the last value of `X-Forwarded-For`. What stands before it in that value,
  -- all earlier values and `X-Real-IP`, which the client may have sent, change nothing.
  pub get_client_ip-nearest :
      (socket : Option IpAddr) (older real : Values) (value : Text) (hops : List Text)
      (entry : Text) (more : List Text) (ip : IpAddr)
      → peer_trusted N proxies (canonical N socket) ≡ true
      → entries_of value ≡ hops ++ entry ∷ more
      → All IsHop hops
      → is_empty entry ≡ false
      → parse_forwarded_ip N entry ≡ ok ip
      → trusts N proxies ip ≡ false
      → get_client_ip N
          (record { x_forwarded_for = older ++ some value ∷ []; x_real_ip = real })
          socket
          proxies
        ≡ ok ip
  unfolding get_client_ip walk_forwarding_header walk_values
  get_client_ip-nearest socket older real value hops entry more ip peer split h present parsed
        stranger =
      let last : reverse (older ++ some value ∷ []) ≡ some value ∷ reverse older =
        reverse-append older (some value ∷ []) in
      let walked =
        walk_entries-hops (is_all N proxies) hops entry more ip none h present parsed stranger in
      let value_walked : walk_entries N proxies (is_all N proxies) (entries_of value) none
          ≡ ok (found ip) =
        rw split walked in
      rw last (ground (arith, value_walked, peer))

  -- Forwarding headers from a peer that is no trusted proxy are ignored.
  pub get_client_ip-untrusted :
      (peer : IpAddr) (headers : Headers)
      → peer_trusted N proxies (some (to_canonical peer)) ≡ false
      → get_client_ip N headers (some peer) proxies ≡ ok (to_canonical peer)
  unfolding get_client_ip
  get_client_ip-untrusted peer headers h = ground (arith, h)

  parse_forwarded_ip-canonical :
      (entry : Text) (ip : IpAddr) → parse_forwarded_ip N entry ≡ ok ip → to_canonical ip ≡ ip
  unfolding parse_forwarded_ip
  parse_forwarded_ip-canonical entry ip h = elim (Option-cases (N.parse_ip entry)) [
    | inr (j, e) ↦
        let same : to_canonical j ≡ ip = ground (arith, e) in rw (← same) (to_canonical_idem j)
    | inl e ↦ elim (Option-cases (N.parse_socket entry)) [
      | inr (j, f) ↦
          let same : to_canonical j ≡ ip = ground (arith, e, f) in rw (← same) (to_canonical_idem j)
      | inl f ↦ absurd (ground (arith, e, f))
    ]
  ]
