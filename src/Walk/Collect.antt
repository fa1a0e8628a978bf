-- ===== src/Walk/Collect.antt =====
-- What a walk that collects entries collects.
use http_syncer.Base.{
  ◌≡◌, ◌≢◌, refl, sym, ap, ◌∙◌, Bool, true, false, inl, inr, ◌⊎◌, List, [], ◌++◌, Option, none,
  some, Text, if◌then◌else◌,
}
use http_syncer.Walk.{
  ok, walk_root, Meta, Faults, folder_meta, Node, leaf, folder, Forest, nil, cons, into_folder,
  after_entry, Visit, walked, skipping, failed, below, walk_node, walk_forest,
}
use mathlib.Core.List.{append_assoc, append-nil}

module _ {S : Type 0} where
  entry_inv :
      (rest : S → Visit S) (v : Visit S) {s : S}
      → after_entry rest v ≡ walked s
      → (v ≡ skipping s) ⊎ ((t : S) × (v ≡ walked t) × (rest t ≡ walked s))
  entry_inv rest (failed x t) e = absurd (cc)
  entry_inv rest (skipping t) e = inl (cc)
  entry_inv rest (walked t) e = inr (t, refl, e)

  pub folder_inv :
      (broken : Option Text) (kids : S → Visit S) (v : Visit S) {s : S}
      → into_folder broken kids v ≡ walked s
      → (v ≡ skipping s) ⊎ ((t : S) × (v ≡ walked t) × (kids t ≡ walked s))
  folder_inv broken kids (failed x t) e = absurd (cc)
  folder_inv broken kids (skipping t) e = inl (cc)
  folder_inv (some x) kids (walked t) e = absurd (cc)
  folder_inv none kids (walked t) e = inr (t, refl, e)

  entry_skips :
      (rest : S → Visit S)
      → ((s s' : S) → rest s ≢ skipping s')
      → (v : Visit S) {s : S} → after_entry rest v ≢ skipping s
  entry_skips rest h (failed x t) e = cc
  entry_skips rest h (skipping t) e = cc
  entry_skips rest h (walked t) {s} e = h t s e

  folder_skips :
      (kids : S → Visit S)
      → ((s s' : S) → kids s ≢ skipping s')
      → (broken : Option Text) (v : Visit S) {s : S} → into_folder broken kids v ≢ skipping s
  folder_skips kids h broken (failed x t) e = cc
  folder_skips kids h broken (skipping t) e = cc
  folder_skips kids h (some x) (walked t) e = cc
  folder_skips kids h none (walked t) {s} e = h t s e

module _ {E : Type 0} (enter : Text → Bool) (pick : Text → Meta → List E) where
  -- The entries of the leaves, in the order of the walk, less the folders that are not entered.
  unfoldable mutual
    pub collect_node : Text → Node → List E
    collect_node path (leaf m) = pick path m
    collect_node path (folder f kids) = if enter path then collect path kids else []

    pub collect : Text → Forest → List E
    collect path nil = []
    collect path (cons name node rest) = collect_node (below path name) node ++ collect path rest

  -- A callback that appends to a list what `pick` makes of a leaf, and skips the folders that
  -- `enter` refuses.
  pub record Collects {S : Type 0} (list : S → List E) (visit : Text → Bool → Meta → S → Visit S)
      : Type 0 where
    pub entering :
        (path : Text) (f : Faults) (s s' : S)
        → visit path true (folder_meta f) s ≡ walked s'
        → (enter path ≡ true) × (list s' ≡ list s)
    pub passing :
        (path : Text) (f : Faults) (s s' : S)
        → visit path true (folder_meta f) s ≡ skipping s'
        → (enter path ≡ false) × (list s' ≡ list s)
    pub adding :
        (path : Text) (m : Meta) (s s' : S)
        → visit path false m s ≡ walked s'
        → list s' ≡ list s ++ pick path m
    pub staying : (path : Text) (m : Meta) (s s' : S) → visit path false m s ≢ skipping s'

  module _ {S : Type 0} (list : S → List E) (visit : Text → Bool → Meta → S → Visit S)
      (h : Collects list visit) where
    pub forest_skips :
        (path : Text) (kids : Forest) (s s' : S) → walk_forest visit path kids s ≢ skipping s'
    unfolding walk_forest
    forest_skips path nil s s' e = cc
    forest_skips path (cons name node rest) s s' e =
        entry_skips (walk_forest visit path rest) (forest_skips path rest) _ e

    node_skips : (path : Text) (node : Node) (s s' : S) → walk_node visit path node s ≢ skipping s'
    unfolding walk_node
    node_skips path (leaf m) s s' e = h.staying path m s s' e
    node_skips path (folder f kids) s s' e =
        folder_skips (walk_forest visit path kids) (forest_skips path kids) f.read _ e

    mutual
      unfolding walk_node collect_node

      node_collects :
          (path : Text) (node : Node) (s s' : S)
          → walk_node visit path node s ≡ walked s'
          → list s' ≡ list s ++ collect_node path node
      node_collects path (leaf m) s s' e = h.adding path m s s' e
      node_collects path (folder f kids) s s' e =
          elim (folder_inv f.read (walk_forest visit path kids) (visit path true (folder_meta f) s)
            e) [
              | inl skipped ↦
                  let (shut, same) = h.passing path f s s' skipped in
                  rw shut (same ∙ sym (append-nil (list s)))
              | inr (t, went, rest) ↦
                  let (entered, same) = h.entering path f s t went in
                  rw entered
                    (forest_collects path kids t s' rest ∙ ap (λ l. l ++ collect path kids) same)
            ]

      forest_collects :
          (path : Text) (kids : Forest) (s s' : S)
          → walk_forest visit path kids s ≡ walked s'
          → list s' ≡ list s ++ collect path kids
      forest_collects path nil s s' e = cc (append-nil (list s))
      forest_collects path (cons name node rest) s s' e =
          elim (entry_inv (walk_forest visit path rest) (walk_node visit (below path name) node s)
            e) [
              | inl skipped ↦ absurd (node_skips (below path name) node s s' skipped)
              | inr (t, went, more) ↦
                  forest_collects path rest t s' more
                  ∙ ap (λ l. l ++ collect path rest) (node_collects (below path name) node s t went)
                  ∙ append_assoc (list s) _ _
            ]

    -- A walk that succeeds adds the collected entries to the list.
    pub walk_forest-collect :
        (path : Text) (kids : Forest) (s s' : S)
        → walk_forest visit path kids s ≡ walked s'
        → list s' ≡ list s ++ collect path kids
    walk_forest-collect = forest_collects

    -- So does the walk of a root.
    pub walk_root-collect :
        (f : Faults) (kids : Forest) (s s' : S)
        → walk_root visit (ok (folder f kids)) s ≡ walked s'
        → list s' ≡ list s ++ collect [] kids
    unfolding walk_root
    walk_root-collect f kids s s' e =
        elim (folder_inv f.read (walk_forest visit [] kids) (walked s) e) [
          | inl skipped ↦ absurd (cc)
          | inr (t, went, rest) ↦
              let same : s ≡ t = cc in
              forest_collects [] kids t s' rest ∙ ap (λ x. list x ++ collect [] kids) (sym same)
        ]

    pub root_skips :
        (f : Faults) (kids : Forest) (s s' : S)
        → walk_root visit (ok (folder f kids)) s ≢ skipping s'
    unfolding walk_root
    root_skips f kids s s' e =
        folder_skips (walk_forest visit [] kids) (forest_skips [] kids) f.read (walked s) e
