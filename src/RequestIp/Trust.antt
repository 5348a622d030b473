-- ===== src/RequestIp/Trust.antt =====
-- crates/request_ip/src/lib.rs: which configurations trust every peer.
use moghtech_lib.Base.{
  ◌+◌, ◌≤◌, ◌≡◌, ◌↔◌, inl, inr, Bool, true, not, ◌&&◌, ◌||◌, List, [], ◌∷◌, if◌then◌else◌, is_empty,
  any, length, arith, Bool-cases,
}
use moghtech_lib.Base.Text.{Text, codes, trim, text_eq, text_eq_iff, to_ascii_lowercase}
use moghtech_lib.Error.{ok}
use moghtech_lib.RequestIp.Cidr.{Nets}
use moghtech_lib.RequestIp.Policy.{
  TrustedProxies, Keywords, no_keywords, read_entry, read_entries, private, parse_proxies,
  policy_of, from_config,
}

-- What is not blank, trimmed and in lower case.
abbrev pub words : List Text → List Text
words [] = []
words (entry ∷ entries) =
    if is_empty (trim entry) then words entries else to_ascii_lowercase (trim entry) ∷ words entries

abbrev is_all : Text → Bool
is_all word = text_eq word (codes "all")

read_entry_lem :
    (k : Keywords) (entry : Text)
    → ((read_entry k entry).all
        ≡ k.all || (not (is_empty entry) && is_all (to_ascii_lowercase entry)))
      × ((read_entry k entry).count ≡ k.count + (if is_empty entry then 0 else 1))
unfolding read_entry
read_entry_lem k entry = (ground arith, ground arith)

read_entries-words :
    (k : Keywords) (entries : List Text)
    → ((read_entries k entries).all ≡ k.all || any is_all (words entries))
      × ((read_entries k entries).count ≡ k.count + length (words entries))
unfolding read_entries
read_entries-words k [] = (ground arith, ground arith)
read_entries-words k (entry ∷ entries) =
    let (a, c) = read_entries-words (read_entry k (trim entry)) entries in
    let (b, d) = read_entry_lem k (trim entry) in
    elim (Bool-cases (is_empty (trim entry))) [
      | inl blank ↦ (ground (arith, blank, a, b), ground (arith, blank, c, d))
      | inr word ↦ (ground (arith, word, a, b), ground (arith, word, c, d))
    ]

alone_iff : (ws : List Text) → ((any is_all ws ≡ true) × (length ws ≤ 1)) ↔ (ws ≡ codes "all" ∷ [])
alone_iff [] = ground arith
alone_iff (w ∷ []) = ground (arith, text_eq_iff w (codes "all"))
alone_iff (w ∷ v ∷ ws) = ground arith

module _ (N : Nets) where
  private-not_all : (private N ≡ ok TrustedProxies.all) → ⊥
  unfolding private
  private-not_all h = ground arith

  parse_proxies-not_all :
      (ranges : List Text) → (parse_proxies N ranges ≡ ok TrustedProxies.all) → ⊥
  unfolding parse_proxies
  parse_proxies-not_all ranges h = ground arith

  policy_of-all_iff :
      (k : Keywords) → (policy_of N k ≡ ok TrustedProxies.all) ↔ ((k.all ≡ true) × (k.count ≤ 1))
  unfolding policy_of
  policy_of-all_iff k = ground (arith, private-not_all, parse_proxies-not_all k.ranges)

  -- A configuration trusts the forwarding headers of every peer exactly if its one entry that is not
  -- blank is the word `all`, in any case.
  pub from_config-all_iff :
      (entries : List Text)
      → (from_config N entries ≡ ok TrustedProxies.all) ↔ (words entries ≡ codes "all" ∷ [])
  unfolding from_config
  from_config-all_iff entries =
      let (a, c) = read_entries-words no_keywords entries in
      ground (
        arith,
        a,
        c,
        policy_of-all_iff (read_entries no_keywords entries),
        alone_iff (words entries),
      )
