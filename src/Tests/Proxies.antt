-- ===== src/Tests/Proxies.antt =====
-- A concrete network: an address is one number, and a prefix holds itself or, wide, everything.
use http_syncer.Base.{
  ℕ, ◌≡◌, refl, ◌⊎◌, Bool, true, false, List, [], ◌∷◌, Option, some, none, Text, text, ◌==◌,
  trim_space, trim_left, is_space, has_char, split, In, nat_eq,
}
use http_syncer.Server.Proxies.{
  Netip, Origin, parse_proxy, parse_trusted_proxies, is_trusted_proxy, first_address, told_by_proxy,
  remote_ip, request_client_ip,
}
use http_syncer.Server.Proxies.Trust.{Covers, InHeaders, request_client_ip-Covers}

abbrev one_code : Text → Option ℕ
one_code (c ∷ []) = some c
one_code _ = none

abbrev slashed : Text → Option (Option ℕ)
slashed (c ∷ s ∷ []) = some none
slashed _ = none

abbrev same_or_wide : Option ℕ → ℕ → Bool
same_or_wide none ip = true
same_or_wide (some a) ip = nat_eq a ip

abbrev pub net : Netip
net = record {
  Addr = ℕ;
  Prefix = Option ℕ;
  split_host_port = λ t. none;
  parse_addr = one_code;
  parse_prefix = slashed;
  masked = λ p. p;
  prefix_from = λ a bits. some a;
  is6 = λ a. false;
  contains = same_or_wide;
  show = λ a. a ∷ [];
}

abbrev origin : Origin
origin = record { remote_addr = text "p"; forwarded_for = text "?!, c"; real_ip = [] }

abbrev entries : List Text
entries = text " p " ∷ text "" ∷ []

trusted : parse_trusted_proxies net entries ≡ some (some b'p' ∷ [])
unfolding parse_trusted_proxies parse_proxy has_char trim_space trim_left is_space ◌==◌
trusted = refl

behind_proxy : request_client_ip net (some b'p' ∷ []) origin ≡ text "c"
unfolding request_client_ip remote_ip told_by_proxy first_address is_trusted_proxy split trim_space
    trim_left is_space ◌==◌
behind_proxy = refl

spoofed :
    request_client_ip net (some b'p' ∷ []) (record origin { remote_addr = text "q" }) ≡ text "q"
unfolding request_client_ip remote_ip told_by_proxy first_address is_trusted_proxy split trim_space
    trim_left is_space ◌==◌
spoofed = refl

request_client_ip-Covers_example :
    ((remote_ip net origin ≡ none) × (request_client_ip net (some b'p' ∷ []) origin ≡ []))
    ⊎ ((remote : ℕ) × (remote_ip net origin ≡ some remote)
        × (ip : ℕ) × (request_client_ip net (some b'p' ∷ []) origin ≡ ip ∷ [])
        × ((ip ≡ remote)
            ⊎ (InHeaders net origin ip × ((raw : Text) × In raw entries × Covers net raw remote))))
request_client_ip-Covers_example =
    request_client_ip-Covers net entries (some b'p' ∷ []) origin trusted
