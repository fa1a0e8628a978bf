-- ===== src/Snapshot/Contents.antt =====
-- Which entries a snapshot holds, and in which order.
use mathlib.Core.List.{append_assoc}
use http_syncer.Base.{
  ◌≡◌, refl, sym, ap, ◌∙◌, subst, ◌≢◌, ◌↔◌, ◌⊎◌, inl, inr, true, Bool-cases, Option-cases, List, [],
  ◌∷◌, ◌++◌, Option, none, some, Text, ◌==◌, ==→≡, ==_iff, In, In-append, In-append_left,
  In-append_right, has_prefix, has_prefix_iff, has_prefix-append, trim_prefix, trim_prefix-append,
  length, length-append, arith,
}
use http_syncer.Base.Int.{ℤ}
use http_syncer.Path.{dot, slash}
use http_syncer.Filter.{Engine, Excluder, match_path}
use http_syncer.Snapshot.{
  ManifestEntry, IndexedData, Built, no_tables, add_entry, add_option, below_prefix, pick_below,
  pick, fill, snapshot_of, source_prefix,
}
use http_syncer.Snapshot.Sort.{In-sort_by, sort_by-In}

-- `path` is `rel` below the prefix; without a prefix they are the same.
abbrev pub Lies : Text → Text → Text → Type 0
Lies [] path rel = path ≡ rel
Lies (c ∷ prefix) path rel = path ≡ (c ∷ prefix) ++ slash ∷ rel

below_prefix-Lies :
    (prefix path rel : Text)
    → below_prefix prefix path ≡ some rel
    → rel ≢ dot
    → Lies prefix path rel
unfolding below_prefix
below_prefix-Lies [] path rel h proper = cc
below_prefix-Lies (c ∷ prefix) path rel h proper = elim (Bool-cases (path == (c ∷ prefix))) [
  | inl whole ↦ absurd (proper (cc (rw whole at h)))
  | inr other ↦ elim (Bool-cases (has_prefix path ((c ∷ prefix) ++ slash ∷ []))) [
    | inr elsewhere ↦ cc (rw (other, elsewhere) at h)
    | inl below ↦
        let (r, e) = has_prefix_iff path ((c ∷ prefix) ++ slash ∷ []) below in
        let trimmed : trim_prefix path ((c ∷ prefix) ++ slash ∷ []) ≡ r =
          ap (λ p. trim_prefix p ((c ∷ prefix) ++ slash ∷ [])) e
          ∙ trim_prefix-append ((c ∷ prefix) ++ slash ∷ []) r in
        let found : some (trim_prefix path ((c ∷ prefix) ++ slash ∷ [])) ≡ some rel =
          rw (other, below) at h in
        let is_rel : r ≡ rel = cc (trimmed, found) in
        e ∙ append_assoc (c ∷ prefix) (slash ∷ []) r ∙ ap (λ t. (c ∷ prefix) ++ slash ∷ t) is_rel
  ]
]

-- A path below the prefix is not the prefix.
longer : (prefix rel : Text) → prefix ++ slash ∷ rel ≢ prefix
longer prefix rel e = absurd (omega (arith, ap length e, length-append prefix (slash ∷ rel)))

Lies-below_prefix :
    (prefix path rel : Text) → Lies prefix path rel → below_prefix prefix path ≡ some rel
unfolding below_prefix
Lies-below_prefix [] path rel h = ap some h
Lies-below_prefix (c ∷ prefix) path rel h = elim (Bool-cases (path == (c ∷ prefix))) [
  | inl whole ↦ absurd (longer (c ∷ prefix) rel (sym h ∙ ==→≡ path (c ∷ prefix) whole))
  | inr other ↦
      let at_slash : path ≡ ((c ∷ prefix) ++ slash ∷ []) ++ rel =
        h ∙ sym (append_assoc (c ∷ prefix) (slash ∷ []) rel) in
      let below : has_prefix path ((c ∷ prefix) ++ slash ∷ []) ≡ true =
        ap (λ p. has_prefix p ((c ∷ prefix) ++ slash ∷ [])) at_slash
        ∙ has_prefix-append ((c ∷ prefix) ++ slash ∷ []) rel in
      let trimmed : trim_prefix path ((c ∷ prefix) ++ slash ∷ []) ≡ rel =
        ap (λ p. trim_prefix p ((c ∷ prefix) ++ slash ∷ [])) at_slash
        ∙ trim_prefix-append ((c ∷ prefix) ++ slash ∷ []) rel in
      rw (other, below) (ap some trimmed)
]

module _ (engine : Engine) (ex : Excluder engine) where
  -- The exported form of an indexed entry: its path is taken from below the prefix, its other
  -- fields stay, and it is neither the prefix itself nor excluded.
  pub record Exports (prefix : Text) (item e : ManifestEntry) : Type 0 where
    pub lies : Lies prefix item.path e.path
    pub same : e ≡ record item { path = e.path }
    pub proper : e.path ≢ dot
    pub kept : match_path engine ex e.path ≡ none

  pick_below→parts :
      (item e : ManifestEntry) (rel : Text)
      → pick_below engine ex item (some rel) ≡ some e
      → (rel ≢ dot) × (match_path engine ex rel ≡ none) × (record item { path = rel } ≡ e)
  pick_below→parts item e rel h = elim (Bool-cases (rel == dot)) [
    | inl whole ↦ absurd (cc (rw whole at h))
    | inr proper ↦ elim (Option-cases (match_path engine ex rel)) [
      | inr (reason, excluded) ↦ absurd (cc (rw (proper, excluded) at h))
      | inl kept ↦ (λ e'. cc (proper, (==_iff rel dot).1 e'), kept, cc (rw (proper, kept) at h))
    ]
  ]

  Exports-at :
      (prefix : Text) (item e : ManifestEntry) (rel : Text)
      → below_prefix prefix item.path ≡ some rel
      → pick_below engine ex item (some rel) ≡ some e
      → Exports prefix item e
  Exports-at prefix item e rel below h =
      let (proper, kept, is_e) = pick_below→parts item e rel h in
      let at_rel : rel ≡ e.path = ap (λ (x : ManifestEntry). x.path) is_e in
      record {
        lies =
            subst (Lies prefix item.path) at_rel
              (below_prefix-Lies prefix item.path rel below proper);
        same = sym is_e ∙ ap (λ p. record item { path = p }) at_rel;
        proper = λ e'. proper (at_rel ∙ e');
        kept = ap (match_path engine ex) (sym at_rel) ∙ kept;
      }

  pick→Exports :
      (prefix : Text) (item e : ManifestEntry)
      → pick engine ex prefix item ≡ some e
      → Exports prefix item e
  unfolding pick
  pick→Exports prefix item e h = elim (Option-cases (below_prefix prefix item.path)) [
    | inl elsewhere ↦ absurd (cc (rw elsewhere at h))
    | inr (rel, below) ↦ Exports-at prefix item e rel below (rw below at h)
  ]

  Exports→pick :
      (prefix : Text) (item e : ManifestEntry)
      → Exports prefix item e
      → pick engine ex prefix item ≡ some e
  unfolding pick
  Exports→pick prefix item e x = elim (Bool-cases (e.path == dot)) [
    | inl whole ↦ absurd (x.proper (==→≡ e.path dot whole))
    | inr proper ↦
        rw (Lies-below_prefix prefix item.path e.path x.lies, proper, x.kept) (ap some (sym x.same))
  ]

  -- An entry of the list comes from the index.
  abbrev pub FromIndex : Text → List ManifestEntry → ManifestEntry → Type 0
  FromIndex prefix items e = (item : ManifestEntry) × In item items × Exports prefix item e

  add_option-In :
      (t : Built) (o : Option ManifestEntry) (e : ManifestEntry)
      → In e (add_option t o).entries
      → In e t.entries ⊎ (o ≡ some e)
  unfolding add_option add_entry
  add_option-In t none e m = inl m
  add_option-In t (some new) e m = elim (In-append e t.entries (new ∷ []) m) [
    | inl old ↦ inl old
    | inr (inl is_new) ↦ inr (ap some (sym is_new))
    | inr (inr none_such) ↦ absurd none_such
  ]

  In-add_option :
      (t : Built) (o : Option ManifestEntry) (e : ManifestEntry)
      → In e t.entries ⊎ (o ≡ some e)
      → In e (add_option t o).entries
  unfolding add_option add_entry
  In-add_option t none e (inl m) = m
  In-add_option t none e (inr h) = absurd (cc)
  In-add_option t (some new) e (inl m) = In-append_left e t.entries (new ∷ []) m
  In-add_option t (some new) e (inr h) = In-append_right e t.entries (new ∷ []) (inl (cc))

  fill-In :
      (prefix : Text) (items : List ManifestEntry) (t : Built) (e : ManifestEntry)
      → In e (fill engine ex prefix items t).entries
      → In e t.entries ⊎ FromIndex prefix items e
  unfolding fill
  fill-In prefix [] t e m = inl m
  fill-In prefix (item ∷ items) t e m =
      elim (fill-In prefix items (add_option t (pick engine ex prefix item)) e m) [
        | inr (item', m', x) ↦ inr (item', inr m', x)
        | inl here ↦ elim (add_option-In t (pick engine ex prefix item) e here) [
          | inl old ↦ inl old
          | inr picked ↦ inr (item, inl refl, pick→Exports prefix item e picked)
        ]
      ]

  In-fill :
      (prefix : Text) (items : List ManifestEntry) (t : Built) (e : ManifestEntry)
      → In e t.entries ⊎ FromIndex prefix items e
      → In e (fill engine ex prefix items t).entries
  unfolding fill
  In-fill prefix [] t e (inl m) = m
  In-fill prefix [] t e (inr (item, m, x)) = absurd m
  In-fill prefix (item ∷ items) t e (inl m) =
      In-fill prefix items _ e (inl (In-add_option t (pick engine ex prefix item) e (inl m)))
  In-fill prefix (item ∷ items) t e (inr (item', inr m, x)) =
      In-fill prefix items _ e (inr (item', m, x))
  In-fill prefix (item ∷ items) t e (inr (item', inl is_item, x)) = In-fill prefix items _ e (
      inl (
        In-add_option t (pick engine ex prefix item) e
          (inr (ap (pick engine ex prefix) (sym is_item) ∙ Exports→pick prefix item' e x))))

  -- A snapshot lists an entry exactly if it is the exported form of an entry of the index: from
  -- below the source path, neither the source path itself nor excluded, and with its path alone
  -- changed.
  pub snapshot_of-entries :
      (snapshot_id root_dir source_path : Text) (now : ℤ) (index : IndexedData) (e : ManifestEntry)
      → In e (snapshot_of engine ex snapshot_id root_dir source_path now index).entries
        ↔ FromIndex (source_prefix source_path) index.entries e
  unfolding snapshot_of
  snapshot_of-entries snapshot_id root_dir source_path now index e = (
    λ m.
        elim (fill-In prefix index.entries no_tables e
          (sort_by-In (λ (x : ManifestEntry). x.path) e _ m)) [
            | inl nothing ↦ absurd nothing
            | inr found ↦ found
          ],
    λ found.
        In-sort_by (λ (x : ManifestEntry). x.path) e _
          (In-fill prefix index.entries no_tables e (inr found)),
  )
    where
      prefix : Text
      prefix = source_prefix source_path
