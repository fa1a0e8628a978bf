-- ===== src/Server/Loading/Modules.antt =====
-- The modules that are loaded are those of the file.
use http_syncer.Base.{
  ◌≡◌, ◌≢◌, refl, sym, ap, ◌∙◌, ◌↔◌, ◌⊎◌, false, Bool-cases, Option-cases, inl, inr, List, [], ◌∷◌,
  Option, none, some, Text, is_blank, ◌==◌, ==→≡, ==_refl, Dict, lookup, insert, lookup-insert, In,
}
use http_syncer.Path.{rel}
use http_syncer.Server.{Module}
use http_syncer.Server.SessionApi.{stays_inside}
use http_syncer.Server.Admission.{Below, stays_inside-Below}
use http_syncer.Server.Loading.{
  ModuleYaml, add_tokens, no_keys, module_root, load_module, with_module, load_modules,
}

-- A token is kept exactly if it was there, or is listed and not blank.
pub lookup-add_tokens :
    (tok : Text) (toks : List Text) (tokens : Dict (Unit {0}))
    → (lookup tok (add_tokens toks tokens) ≢ none)
      ↔ ((lookup tok tokens ≢ none) ⊎ (In tok toks × (is_blank tok ≡ false)))
unfolding add_tokens
lookup-add_tokens tok [] tokens = (λ h. inl h, λ h. elim h [ inl k ↦ k | inr (m, b) ↦ absurd m ])
lookup-add_tokens tok (t ∷ toks) tokens = elim (Bool-cases (is_blank t)) [
  | inl blank ↦ rw blank (
    λ h. elim ((lookup-add_tokens tok toks tokens).0 h) [
      | inl k ↦ inl k
      | inr (m, b) ↦ inr (inr m, b)
    ],
    λ h. (lookup-add_tokens tok toks tokens).1 (elim h [
      | inl k ↦ inl k
      | inr (inl e, b) ↦ absurd (cc (b, blank, ap is_blank e))
      | inr (inr m, b) ↦ inr (m, b)
    ]),
  )
  | inr given ↦ rw given (
    λ h. elim ((lookup-add_tokens tok toks (insert t tt tokens)).0 h) [
      | inr (m, b) ↦ inr (inr m, b)
      | inl k ↦ elim (Bool-cases (t == tok)) [
        | inl same ↦ inr (inl (sym (==→≡ t tok same)), ap is_blank (sym (==→≡ t tok same)) ∙ given)
        | inr other ↦ inl (λ missing. k (lookup-insert t tok tt tokens ∙ rw other missing))
      ]
    ],
    λ h. (lookup-add_tokens tok toks (insert t tt tokens)).1 (elim h [
      | inr (inr m, b) ↦ inr (m, b)
      | inr (inl e, b) ↦ inl (λ missing.
          let there : lookup tok (insert t tt tokens) ≡ some tt =
            lookup-insert t tok tt tokens ∙ rw (ap (λ k. k == tok) (sym e) ∙ ==_refl tok) refl in
          absurd (cc (there, missing)))
      | inl k ↦ inl (λ missing. elim (Bool-cases (t == tok)) [
        | inl same ↦ absurd (cc (missing, lookup-insert t tok tt tokens, same))
        | inr other ↦ k (sym (lookup-insert t tok tt tokens ∙ rw other refl) ∙ missing)
      ])
    ]),
  )
]

module _ (cwd root_dir : Text) where
  abbrev pub conf_of : ModuleYaml → Module
  conf_of m = record {
    name = m.name;
    root_dir = module_root cwd root_dir m.root;
    tokens = add_tokens m.tokens [];
  }

  -- What is checked of a module of the file.
  pub record IsProper (m : ModuleYaml) : Type 0 where
    pub named : is_blank m.name ≡ false
    pub rooted : is_blank m.root ≡ false
    pub inside : Below root_dir (module_root cwd root_dir m.root)
    pub guarded : no_keys (add_tokens m.tokens []) ≡ false

  load_module_inv :
      (m : ModuleYaml) (mods : Dict Module) (conf : Module)
      → load_module cwd root_dir m mods ≡ some conf
      → (conf ≡ conf_of m) × (lookup m.name mods ≡ none) × IsProper m
  unfolding load_module
  load_module_inv m mods conf h = elim (Bool-cases (is_blank m.name)) [
    | inl blank ↦ absurd (cc (rw blank at h))
    | inr named ↦ elim (Option-cases (lookup m.name mods)) [
      | inr (x, taken) ↦ absurd (cc (rw (named, taken) at h))
      | inl free ↦ elim (Bool-cases (is_blank m.root)) [
        | inl blank ↦ absurd (cc (rw (named, free, blank) at h))
        | inr rooted ↦
            elim (Bool-cases
              (stays_inside root_dir (rel root_dir (module_root cwd root_dir m.root)))) [
                | inr outside ↦ absurd (cc (rw (named, free, rooted, outside) at h))
                | inl inside ↦ elim (Bool-cases (no_keys (add_tokens m.tokens []))) [
                  | inl bare ↦ absurd (cc (rw (named, free, rooted, inside, bare) at h))
                  | inr guarded ↦
                      let loaded : some (conf_of m) ≡ some conf =
                        rw (named, free, rooted, inside, guarded) at h in
                      (
                        cc (loaded),
                        free,
                        record {
                          named = named;
                          rooted = rooted;
                          inside =
                              stays_inside-Below root_dir (module_root cwd root_dir m.root) inside;
                          guarded = guarded;
                        },
                      )
                ]
              ]
      ]
    ]
  ]

  with_module_inv :
      (rest : Dict Module → Option (Dict Module)) (name : Text) (mods mods' : Dict Module)
      (o : Option Module)
      → with_module cwd rest name mods o ≡ some mods'
      → (conf : Module) × (o ≡ some conf) × (rest (insert name conf mods) ≡ some mods')
  with_module_inv rest name mods mods' none h = absurd (cc)
  with_module_inv rest name mods mods' (some conf) h = (conf, refl, h)

  -- A module of the file, read under its name.
  pub record Loads (ms : List ModuleYaml) (name : Text) (conf : Module) : Type 0 where
    pub m : ModuleYaml
    pub member : In m ms
    pub same_name : m.name ≡ name
    pub conf_eq : conf ≡ conf_of m
    pub proper : IsProper m

  kept_modules :
      (ms : List ModuleYaml) (mods mods' : Dict Module) (name : Text) (conf : Module)
      → load_modules cwd root_dir ms mods ≡ some mods'
      → lookup name mods ≡ some conf
      → lookup name mods' ≡ some conf
  unfolding load_modules
  kept_modules [] mods mods' name conf h found = cc
  kept_modules (m ∷ ms) mods mods' name conf h found =
      let (first, loaded, rest) =
        with_module_inv (load_modules cwd root_dir ms) m.name mods mods' _ h in
      let (is_conf, free, proper) = load_module_inv m mods first loaded in
      kept_modules ms (insert m.name first mods) mods' name conf rest (
        lookup-insert m.name name first mods ∙ elim (Bool-cases (m.name == name)) [
          | inl same ↦ absurd (cc (free, found, ==→≡ m.name name same))
          | inr other ↦ rw other found
        ])

  -- Every module of the file is found under its name.
  pub listed_modules :
      (ms : List ModuleYaml) (mods mods' : Dict Module) (m : ModuleYaml)
      → load_modules cwd root_dir ms mods ≡ some mods'
      → In m ms
      → lookup m.name mods' ≡ some (conf_of m)
  unfolding load_modules
  listed_modules [] mods mods' m h member = absurd member
  listed_modules (m' ∷ ms) mods mods' m h member =
      let (first, loaded, rest) =
        with_module_inv (load_modules cwd root_dir ms) m'.name mods mods' _ h in
      let (is_conf, free, proper) = load_module_inv m' mods first loaded in
      elim member [
        | inr later ↦ listed_modules ms (insert m'.name first mods) mods' m rest later
        | inl here ↦ kept_modules ms (insert m'.name first mods) mods' m.name (conf_of m) rest (
            lookup-insert m'.name m.name first mods
            ∙ rw (ap (λ (x : ModuleYaml). m'.name == x.name) here ∙ ==_refl m'.name)
                (ap some (is_conf ∙ ap conf_of (sym here))))
      ]

  -- Every module that is found is one of the file, and passed the checks.
  pub found_modules :
      (ms : List ModuleYaml) (mods mods' : Dict Module) (name : Text) (conf : Module)
      → load_modules cwd root_dir ms mods ≡ some mods'
      → lookup name mods' ≡ some conf
      → (lookup name mods ≡ some conf) ⊎ Loads ms name conf
  unfolding load_modules
  found_modules [] mods mods' name conf h found = inl (cc)
  found_modules (m ∷ ms) mods mods' name conf h found =
      let (first, loaded, rest) =
        with_module_inv (load_modules cwd root_dir ms) m.name mods mods' _ h in
      let (is_conf, free, proper) = load_module_inv m mods first loaded in
      elim (found_modules ms (insert m.name first mods) mods' name conf rest found) [
        | inr l ↦ inr (record {
          m = l.m;
          member = inr l.member;
          same_name = l.same_name;
          conf_eq = l.conf_eq;
          proper = l.proper;
        })
        | inl before ↦ elim (Bool-cases (m.name == name)) [
          | inr other ↦ inl (sym (lookup-insert m.name name first mods ∙ rw other refl) ∙ before)
          | inl same ↦
              let is_first : some first ≡ some conf =
                sym (lookup-insert m.name name first mods ∙ rw same refl) ∙ before in
              inr (record {
                m = m;
                member = inl refl;
                same_name = ==→≡ m.name name same;
                conf_eq = cc (is_first, is_conf);
                proper = proper;
              })
        ]
      ]
