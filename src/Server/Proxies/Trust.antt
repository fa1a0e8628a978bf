-- ===== src/Server/Proxies/Trust.antt =====
-- Whose headers are believed.
use http_syncer.Base.{
  ◌≡◌, refl, sym, ap, ◌∙◌, ◌↔◌, ◌⊎◌, Bool, true, false, ◌||◌, Bool-cases, Option-cases, inl, inr,
  List, [], ◌∷◌, Option, none, some, Text, ◌==◌, trim_space, is_blank, In, split, arith,
}
use http_syncer.Server.Proxies.{
  Netip, Origin, comma, parse_proxy, proxy_onto, parse_trusted_proxies, is_trusted_proxy,
  first_address, told_by_proxy, real_or_remote, remote_ip, client_of, request_client_ip,
}

module _ (net : Netip) where
  -- A configured proxy that is not blank, and whose addresses hold one.
  pub record Covers (raw : Text) (ip : net.Addr) : Type 0 where
    pub prefix : net.Prefix
    pub given : is_blank raw ≡ false
    pub parsed : parse_proxy net (trim_space raw) ≡ some prefix
    pub holds : net.contains prefix ip ≡ true

  onto_inv :
      (o : Option net.Prefix) (rest : Option (List net.Prefix)) (out : List net.Prefix)
      → proxy_onto net o rest ≡ some out
      → (p : net.Prefix) × (ps : List net.Prefix) × (o ≡ some p) × (rest ≡ some ps) × (out ≡ p ∷ ps)
  onto_inv none rest out h = absurd (cc)
  onto_inv (some p) none out h = absurd (cc)
  onto_inv (some p) (some ps) out h = (p, ps, refl, refl, cc)

  -- With a list of proxies that parses, an address is trusted exactly if one of them covers it.
  pub is_trusted_proxy-Covers :
      (entries : List Text) (trusted : List net.Prefix) (ip : net.Addr)
      → parse_trusted_proxies net entries ≡ some trusted
      → (is_trusted_proxy net trusted ip ≡ true) ↔ ((raw : Text) × In raw entries × Covers raw ip)
  unfolding parse_trusted_proxies is_trusted_proxy
  is_trusted_proxy-Covers [] trusted ip h =
      let none_left : [] ≡ trusted = cc in
      (
        λ t. absurd (cc (t, ap (λ l. is_trusted_proxy net l ip) none_left)),
        λ (raw, member, c). absurd member,
      )
  is_trusted_proxy-Covers (raw ∷ entries) trusted ip h = elim (Bool-cases (is_blank raw)) [
    | inl blank ↦
        let ih = is_trusted_proxy-Covers entries trusted ip (rw blank at h) in
        (
          λ t. let (x, member, c) = ih.0 t in (x, inr member, c),
          λ (x, member, c). elim member [
            | inl here ↦ absurd (cc (blank, c.given, ap is_blank here))
            | inr later ↦ ih.1 (x, later, c)
          ],
        )
    | inr given ↦
        let (p, ps, parsed, rest, is_out) =
          onto_inv (parse_proxy net (trim_space raw)) (parse_trusted_proxies net entries) trusted
            (rw given at h) in
        let ih = is_trusted_proxy-Covers entries ps ip rest in
        let opened : is_trusted_proxy net trusted ip
            ≡ (net.contains p ip || is_trusted_proxy net ps ip) =
          ap (λ l. is_trusted_proxy net l ip) is_out in
        (
          λ t. elim (Bool-cases (net.contains p ip)) [
            | inl holds ↦ (
              raw,
              inl refl,
              record { prefix = p; given = given; parsed = parsed; holds = holds },
            )
            | inr outside ↦
                let (x, member, c) = ih.0 (rw outside at (sym opened ∙ t)) in (x, inr member, c)
          ],
          λ (x, member, c). opened ∙ elim member [
            | inl here ↦
                let same : some p ≡ some c.prefix =
                  sym parsed ∙ ap (λ y. parse_proxy net (trim_space y)) (sym here) ∙ c.parsed in
                let holds : net.contains p ip ≡ true = cc (same, c.holds) in rw holds refl
            | inr later ↦
                or_later (net.contains p ip) (is_trusted_proxy net ps ip) (ih.1 (x, later, c))
          ],
        )
  ]
    where
      or_later : (a b : Bool) → b ≡ true → (a || b) ≡ true
      or_later a b e = ground arith

  first_address_source :
      (parts : List Text) (ip : net.Addr)
      → first_address net parts ≡ some ip
      → (p : Text) × In p parts × (net.parse_addr (trim_space p) ≡ some ip)
  unfolding first_address
  first_address_source [] ip h = absurd (cc)
  first_address_source (p ∷ parts) ip h = elim (Option-cases (net.parse_addr (trim_space p))) [
    | inr (a, parsed) ↦ let same : some a ≡ some ip = rw parsed at h in (p, inl refl, parsed ∙ same)
    | inl bad ↦
        let (q, member, e) = first_address_source parts ip (rw bad at h) in (q, inr member, e)
  ]

  -- The address comes from a header.
  abbrev pub InHeaders : Origin → net.Addr → Type 0
  InHeaders r ip =
      ((p : Text) × In p (split comma r.forwarded_for) × (net.parse_addr (trim_space p) ≡ some ip))
      ⊎ (net.parse_addr (trim_space r.real_ip) ≡ some ip)

  real_source :
      (r : Origin) (remote : net.Addr)
      → (ip : net.Addr) × (real_or_remote net r remote ≡ net.show ip)
        × ((ip ≡ remote) ⊎ InHeaders r ip)
  real_source r remote = elim (Bool-cases (trim_space r.real_ip == [])) [
    | inl missing ↦ (remote, rw missing refl, inl refl)
    | inr given ↦ elim (Option-cases (net.parse_addr (trim_space r.real_ip))) [
      | inl bad ↦ (remote, rw (given, bad) refl, inl refl)
      | inr (ip, parsed) ↦ (ip, rw (given, parsed) refl, inr (inr parsed))
    ]
  ]

  -- The client's address, if there is one, is an address of the request: that of the other end, or
  -- one that a header holds.
  pub told_by_proxy_source :
      (r : Origin) (remote : net.Addr)
      → (ip : net.Addr) × (told_by_proxy net r remote ≡ net.show ip)
        × ((ip ≡ remote) ⊎ InHeaders r ip)
  unfolding told_by_proxy
  told_by_proxy_source r remote = elim (Bool-cases (r.forwarded_for == [])) [
    | inl missing ↦ rw missing (real_source r remote)
    | inr given ↦ elim (Option-cases (first_address net (split comma r.forwarded_for))) [
      | inl bad ↦ rw (given, bad) (real_source r remote)
      | inr (ip, found) ↦ (
        ip,
        rw (given, found) refl,
        inr (inl (first_address_source (split comma r.forwarded_for) ip found)),
      )
    ]
  ]

  -- With proxies that parse, the client's address is empty if the other end's address is not one.
  -- Otherwise it is that of the other end, or an address that a header of the request holds, and then
  -- one of the configured proxies covers the other end.
  pub request_client_ip-Covers :
      (entries : List Text) (trusted : List net.Prefix) (r : Origin)
      → parse_trusted_proxies net entries ≡ some trusted
      → ((remote_ip net r ≡ none) × (request_client_ip net trusted r ≡ []))
        ⊎ ((remote : net.Addr) × (remote_ip net r ≡ some remote)
            × (ip : net.Addr) × (request_client_ip net trusted r ≡ net.show ip)
            × ((ip ≡ remote)
                ⊎ (InHeaders r ip × ((raw : Text) × In raw entries × Covers raw remote))))
  unfolding request_client_ip
  request_client_ip-Covers entries trusted r h = elim (Option-cases (remote_ip net r)) [
    | inl unknown ↦ inl (unknown, ap (client_of net trusted r) unknown)
    | inr (remote, known) ↦ inr (elim (Bool-cases (is_trusted_proxy net trusted remote)) [
      | inr doubted ↦
          (remote, known, remote, ap (client_of net trusted r) known ∙ rw doubted refl, inl refl)
      | inl believed ↦
          let (ip, told, source) = told_by_proxy_source r remote in
          (
            remote,
            known,
            ip,
            ap (client_of net trusted r) known ∙ rw believed told,
            elim source [
              | inl same ↦ inl same
              | inr headers ↦
                  inr (headers, (is_trusted_proxy-Covers entries trusted remote h).0 believed)
            ],
          )
    ])
  ]
