-- ===== src/Tests/Audits.antt =====
-- An event of a concrete day, and a cleanup.
use http_syncer.Base.{
  ◌≡◌, refl, true, false, [], ◌∷◌, ◌++◌, Option, some, none, Text, text, ◌==◌, Dict, lookup, insert,
  erase, has_prefix, has_suffix, trim_prefix, trim_suffix, Distinct,
}
use http_syncer.Base.Int.{ℤ, pos, negsuc, ◌-ℤ◌}
use http_syncer.Server.Loading.{positive_or}
use http_syncer.Server.Audit.{
  Calendar, AuditEntry, file, directory, AuditWriter, audit_name, content_before, write_event,
  is_stale, remove_stale, cleanup, new_audit_writer,
}
use http_syncer.Server.Audit.Retained.{unless_stale, cleanup-write_event}

-- A day is one letter, and its number.
abbrev day_of : Text → Option ℤ
day_of (c ∷ []) = some (pos c)
day_of _ = none

abbrev shown : ℤ → Text
shown (pos n) = n ∷ []
shown (negsuc n) = []

abbrev letters : Calendar
letters = record { format_day = shown; parse_day = day_of; days_before = λ n now. now -ℤ n }

abbrev logs : Dict AuditEntry
logs =
    (text "audit-a.jsonl", file (text "old"))
    ∷ (text "audit-z.jsonl", file (text "x"))
    ∷ (text "audit-b.jsonl", directory)
    ∷ []

abbrev writer : AuditWriter
writer = record { retention_days = pos 10; entries = logs }

abbrev kept : AuditWriter
kept = record writer {
  entries = (text "audit-z.jsonl", file (text "xe\n")) ∷ (text "audit-b.jsonl", directory) ∷ [];
}

cleaned :
    cleanup letters true
      (λ name. true)
      (pos 125)
      (write_event letters (pos 122) (some (text "e")) true writer)
    ≡ kept
unfolding cleanup write_event remove_stale is_stale lookup insert erase ◌==◌ has_prefix has_suffix
    trim_prefix trim_suffix ◌-ℤ◌
cleaned = refl

started :
    new_audit_writer letters true true (λ name. true) (pos 125) (pos 0) logs
    ≡ some (record {
      retention_days = pos 30;
      entries =
          (text "audit-a.jsonl", file (text "old"))
          ∷ (text "audit-z.jsonl", file (text "x"))
          ∷ (text "audit-b.jsonl", directory)
          ∷ [];
    })
unfolding new_audit_writer cleanup remove_stale is_stale lookup erase ◌==◌ has_prefix has_suffix
    trim_prefix trim_suffix positive_or ◌-ℤ◌
started = refl

logs-Distinct : Distinct logs
unfolding lookup ◌==◌
logs-Distinct = (refl, (refl, (refl, tt)))

cleanup-write_event_example :
    let after =
      (cleanup letters true
        (λ name. true)
        (pos 125)
        (write_event letters (pos 122) (some (text "e")) true writer)).entries in
    (lookup (audit_name (text "z")) after
      ≡ some (file (content_before (lookup (audit_name (text "z")) logs) ++ text "e\n")))
    × ((other : Text)
        → (audit_name (text "z") == other) ≡ false
        → lookup other after
          ≡ unless_stale letters (λ name. true) (pos 115) other (lookup other logs))
unfolding ◌-ℤ◌
cleanup-write_event_example =
    cleanup-write_event letters (λ name. true) (pos 122) (pos 125) (pos 122) (text "e") writer
      logs-Distinct refl refl
