-- ===== src/Server/Audit/Retained.antt =====
-- What a cleanup leaves of the audit log.
use http_syncer.Base.{
  ◌≡◌, refl, sym, ap, ◌∙◌, Bool, true, false, not, ◌&&◌, ◌||◌, Bool-cases, inl, inr, [], ◌∷◌, ◌++◌,
  Option, none, some, Text, text, ◌==◌, ==→≡, has_prefix, has_prefix-append, has_suffix,
  trim_prefix, trim_prefix-append, trim_suffix, Dict, lookup, insert, erase, lookup-insert,
  lookup-insert_self, lookup-erase, Distinct, insert-Distinct, if◌then◌else◌,
}
use http_syncer.Base.Int.{ℤ, ltb_ℤ}
use http_syncer.Filter.Laws.{has_suffix-append, trim_suffix-append}
use http_syncer.Server.Expiry.{erase_tests}
use http_syncer.Server.Audit.{
  Calendar, AuditEntry, file, AuditWriter, audit_name, content_before, newline, is_before,
  write_event, is_stale, remove_stale, cleanup,
}

module _ (cal : Calendar) (removes : Text → Bool) (cutoff : ℤ) where
  abbrev goes : Text → AuditEntry → Bool
  goes name ent = is_stale cal cutoff name ent && removes name

  -- What is left of an entry
  abbrev pub unless_stale : Text → Option AuditEntry → Option AuditEntry
  unless_stale name none = none
  unless_stale name (some ent) = if goes name ent then none else some ent

  abbrev met : Text → Dict AuditEntry → Bool
  met at [] = false
  met at ((name, ent) ∷ ents) = (name == at) && goes name ent || met at ents

  choice :
      (b : Bool) (at : Text) (x y : Dict AuditEntry)
      → lookup at (if b then x else y) ≡ (if b then lookup at x else lookup at y)
  choice true at x y = refl
  choice false at x y = refl

  lookup-remove_stale :
      (at : Text) (ents entries : Dict AuditEntry)
      → lookup at (remove_stale cal removes cutoff ents entries)
        ≡ (if met at ents then none else lookup at entries)
  unfolding remove_stale
  lookup-remove_stale at [] entries = refl
  lookup-remove_stale at ((name, ent) ∷ ents) entries =
      lookup-remove_stale at ents _
      ∙ ap (λ o. if met at ents then none else o)
          (choice (goes name ent) at (erase name entries) entries
            ∙ ap (λ o. if goes name ent then o else lookup at entries)
                (lookup-erase name at entries))
      ∙ erase_tests (name == at) (goes name ent) (met at ents) (lookup at entries)

  met-missing : (at : Text) (ents : Dict AuditEntry) → lookup at ents ≡ none → met at ents ≡ false
  unfolding lookup
  met-missing at [] h = refl
  met-missing at (slot ∷ ents) h = elim (Bool-cases (slot.0 == at)) [
    | inl same ↦ absurd (cc (rw same at h))
    | inr other ↦ rw other (met-missing at ents (rw other at h))
  ]

  met-unless_stale :
      (at : Text) (ents : Dict AuditEntry)
      → Distinct ents
      → (if met at ents then none else lookup at ents) ≡ unless_stale at (lookup at ents)
  unfolding lookup
  met-unless_stale at [] d = refl
  met-unless_stale at (slot ∷ ents) d = elim (Bool-cases (slot.0 == at)) [
    | inr other ↦ rw other (met-unless_stale at ents d.1)
    | inl same ↦
        let q = ==→≡ slot.0 at same in
        let later : met at ents ≡ false =
          met-missing at ents (ap (λ k. lookup k ents) (sym q) ∙ d.0) in
        rw (same, later)
          (ap (λ n. if goes n slot.1 || false then none else some slot.1) q
            ∙ or_false (goes at slot.1))
  ]
    where
      or_false :
          (b : Bool)
          → (if b || false then none else some slot.1) ≡ (if b then none else some slot.1)
      or_false true = refl
      or_false false = refl

fresh_stays :
    (cal : Calendar) (cutoff d : ℤ) (day content : Text)
    → cal.parse_day day ≡ some d
    → ltb_ℤ d cutoff ≡ false
    → is_stale cal cutoff (audit_name day) (file content) ≡ false
unfolding is_stale
fresh_stays cal cutoff d day content parsed young =
    let starts : has_prefix (audit_name day) (text "audit-") ≡ true =
      has_prefix-append (text "audit-") (day ++ text ".jsonl") in
    let ends : has_suffix (audit_name day) (text ".jsonl") ≡ true =
      has_suffix-append (text "audit-" ++ day) (text ".jsonl") in
    let inner : trim_suffix (trim_prefix (audit_name day) (text "audit-")) (text ".jsonl") ≡ day =
      ap (λ t. trim_suffix t (text ".jsonl"))
        (trim_prefix-append (text "audit-") (day ++ text ".jsonl"))
      ∙ trim_suffix-append day (text ".jsonl") in
    ap
      (λ b.
        if not (b && has_suffix (audit_name day) (text ".jsonl"))
        then false
        else is_before
            (cal.parse_day
              (trim_suffix (trim_prefix (audit_name day) (text "audit-")) (text ".jsonl")))
            cutoff)
      starts
    ∙ ap
        (λ b.
          if not (true && b)
          then false
          else is_before
              (cal.parse_day
                (trim_suffix (trim_prefix (audit_name day) (text "audit-")) (text ".jsonl")))
              cutoff)
        ends
    ∙ ap (λ t. is_before (cal.parse_day t) cutoff) inner
    ∙ ap (λ o. is_before o cutoff) parsed
    ∙ young

-- In a directory where no name comes twice: an event that is written, on a day whose text is parsed to a
-- moment not before the cutoff of a later cleanup, ends its file after that cleanup, behind what the file
-- held before. Of any other entry the cleanup leaves all, unless it is a log of a day before the cutoff
-- that can be removed: then nothing.
pub cleanup-write_event :
    (cal : Calendar) (removes : Text → Bool) (written later d : ℤ) (line : Text) (a : AuditWriter)
    → Distinct a.entries
    → cal.parse_day (cal.format_day written) ≡ some d
    → ltb_ℤ d (cal.days_before a.retention_days later) ≡ false
    → let name = audit_name (cal.format_day written) in
      let after =
        (cleanup cal true removes later (write_event cal written (some line) true a)).entries in
      (lookup name after
        ≡ some (file (content_before (lookup name a.entries) ++ (line ++ newline ∷ []))))
      × ((other : Text)
          → (name == other) ≡ false
          → lookup other after
            ≡ unless_stale cal removes
                (cal.days_before a.retention_days later)
                other
                (lookup other a.entries))
unfolding cleanup write_event
cleanup-write_event cal removes written later d line a distinct parsed young =
    let name = audit_name (cal.format_day written) in
    let content = content_before (lookup name a.entries) ++ (line ++ newline ∷ []) in
    let cutoff = cal.days_before a.retention_days later in
    let entries = insert name (file content) a.entries in
    let cleaned : (at : Text)
        → lookup at (remove_stale cal removes cutoff entries entries)
          ≡ unless_stale cal removes cutoff at (lookup at entries) =
      λ at.
        lookup-remove_stale cal removes cutoff at entries entries
        ∙ met-unless_stale cal removes cutoff at entries
            (insert-Distinct name (file content) a.entries distinct) in
    (
      cleaned name
          ∙ ap (unless_stale cal removes cutoff name)
              (lookup-insert_self name (file content) a.entries)
          ∙ ap (λ b. if b && removes name then none else some (file content))
              (fresh_stays cal cutoff d (cal.format_day written) content parsed young),
      λ other apart.
          let same : lookup other entries ≡ lookup other a.entries =
            lookup-insert name other (file content) a.entries
            ∙ ap (λ b. if b then some (file content) else lookup other a.entries) apart in
          cleaned other ∙ ap (unless_stale cal removes cutoff other) same,
    )
