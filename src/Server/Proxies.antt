-- ===== src/Server/Proxies.antt =====
-- parseTrustedProxies, requestClientIP and isTrustedProxy of internal/server/server.go. The
-- packages net and net/netip are a parameter.
pub mod Trust
use http_syncer.Base.{
  ℕ, Bool, true, false, not, ◌||◌, List, [], ◌∷◌, ◌++◌, Option, none, some, Text, ◌==◌, trim_space,
  is_blank, has_char, split, if◌then◌else◌,
}
use http_syncer.Path.{slash}

-- What the code calls of the two packages; `none` is an error.
pub record Netip : Type 1 where
  pub Addr : Type 0
  pub Prefix : Type 0
  pub split_host_port : Text → Option Text
  pub parse_addr : Text → Option Addr
  pub parse_prefix : Text → Option Prefix
  pub masked : Prefix → Prefix
  pub prefix_from : Addr → ℕ → Prefix
  pub is6 : Addr → Bool
  pub contains : Prefix → Addr → Bool
  pub show : Addr → Text

-- A request's remote address, and its headers X-Forwarded-For and X-Real-IP, empty if missing.
pub record Origin : Type 0 where
  pub remote_addr : Text
  pub forwarded_for : Text
  pub real_ip : Text

abbrev pub comma : ℕ
comma = b','

module _ (net : Netip) where
  abbrev pub masked_or_error : Option net.Prefix → Option net.Prefix
  masked_or_error none = none
  masked_or_error (some p) = some (net.masked p)

  abbrev pub whole_address : Option net.Addr → Option net.Prefix
  whole_address none = none
  whole_address (some ip) = some (net.prefix_from ip (if net.is6 ip then 128 else 32))

  -- One configured proxy: a prefix if it has a slash, an address otherwise.
  unfoldable pub parse_proxy : Text → Option net.Prefix
  parse_proxy v =
      if has_char slash v
      then masked_or_error (net.parse_prefix v)
      else whole_address (net.parse_addr v)

  abbrev pub proxy_onto : Option net.Prefix → Option (List net.Prefix) → Option (List net.Prefix)
  proxy_onto none out = none
  proxy_onto (some p) none = none
  proxy_onto (some p) (some out) = some (p ∷ out)

  -- The loop of `parseTrustedProxies`.
  unfoldable pub parse_trusted_proxies : List Text → Option (List net.Prefix)
  parse_trusted_proxies [] = some []
  parse_trusted_proxies (raw ∷ entries) =
      let out = parse_trusted_proxies entries in
      if is_blank raw then out else proxy_onto (parse_proxy (trim_space raw)) out

  unfoldable pub is_trusted_proxy : List net.Prefix → net.Addr → Bool
  is_trusted_proxy [] ip = false
  is_trusted_proxy (p ∷ trusted) ip = net.contains p ip || is_trusted_proxy trusted ip

  abbrev pub first_of : Option net.Addr → Option net.Addr → Option net.Addr
  first_of (some ip) later = some ip
  first_of none later = later

  -- The loop over the parts of X-Forwarded-For: the first that is an address.
  unfoldable pub first_address : List Text → Option net.Addr
  first_address [] = none
  first_address (p ∷ parts) = first_of (net.parse_addr (trim_space p)) (first_address parts)

  abbrev pub or_remote : net.Addr → Option net.Addr → Text
  or_remote remote none = net.show remote
  or_remote remote (some ip) = net.show ip

  abbrev pub real_or_remote : Origin → net.Addr → Text
  real_or_remote r remote =
      let xri = trim_space r.real_ip in
      if xri == [] then net.show remote else or_remote remote (net.parse_addr xri)

  abbrev pub forwarded_or_real : Origin → net.Addr → Option net.Addr → Text
  forwarded_or_real r remote (some ip) = net.show ip
  forwarded_or_real r remote none = real_or_remote r remote

  -- What a trusted proxy says of the client.
  unfoldable pub told_by_proxy : Origin → net.Addr → Text
  told_by_proxy r remote =
      forwarded_or_real r remote
        (if r.forwarded_for == [] then none else first_address (split comma r.forwarded_for))

  abbrev pub host_of : Text → Option Text → Text
  host_of remote_addr none = remote_addr
  host_of remote_addr (some host) = host

  -- The address of the other end, if it is one.
  unfoldable pub remote_ip : Origin → Option net.Addr
  remote_ip r =
      net.parse_addr (trim_space (host_of r.remote_addr (net.split_host_port r.remote_addr)))

  abbrev pub client_of : List net.Prefix → Origin → Option net.Addr → Text
  client_of trusted r none = []
  client_of trusted r (some remote) =
      if not (is_trusted_proxy trusted remote) then net.show remote else told_by_proxy r remote

  unfoldable pub request_client_ip : List net.Prefix → Origin → Text
  request_client_ip trusted r = client_of trusted r (remote_ip r)
