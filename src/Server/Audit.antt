-- ===== src/Server/Audit.antt =====
-- internal/server/audit.go: the files of the audit log. The handlers' events are in Server.
pub mod Retained
use http_syncer.Base.{
  ℕ, Bool, true, false, not, ◌&&◌, List, [], ◌∷◌, ◌++◌, Option, none, some, Text, text, has_prefix,
  has_suffix, trim_prefix, trim_suffix, Dict, lookup, insert, erase, if◌then◌else◌,
}
use http_syncer.Base.Int.{ℤ, ltb_ℤ}
use http_syncer.Server.Loading.{positive_or}

-- What the code calls of package time: a day as text, its parsing to the day's first moment, and the
-- moment a number of days before another.
pub record Calendar : Type 0 where
  pub format_day : ℤ → Text
  pub parse_day : Text → Option ℤ
  pub days_before : ℤ → ℤ → ℤ

-- An entry of the audit directory: a file with its content, or a directory.
pub data AuditEntry : Type 0 where
  file : Text → AuditEntry
  directory : AuditEntry

pub record AuditWriter : Type 0 where
  pub retention_days : ℤ
  pub entries : Dict AuditEntry

abbrev pub audit_name : Text → Text
audit_name day = text "audit-" ++ (day ++ text ".jsonl")

abbrev pub content_before : Option AuditEntry → Text
content_before (some (file old)) = old
content_before _ = []

abbrev newline : ℕ
newline = 10

abbrev pub is_before : Option ℤ → ℤ → Bool
is_before none cutoff = false
is_before (some d) cutoff = ltb_ℤ d cutoff

module _ (cal : Calendar) where
  -- `AuditWriter.Write`: `encoded` is the event as JSON, `none` if it cannot be encoded; `opens` tells
  -- whether the day's file is opened, which a directory of that name is not.
  unfoldable pub write_event : ℤ → Option Text → Bool → AuditWriter → AuditWriter
  write_event now none opens a = a
  write_event now (some line) opens a =
      let name = audit_name (cal.format_day now) in
      if not opens then a else record a {
        entries =
            insert name (file (content_before (lookup name a.entries) ++ (line ++ newline ∷ [])))
              a.entries;
      }

  -- Whether the cleanup takes an entry for a log of a day before the cutoff.
  unfoldable pub is_stale : ℤ → Text → AuditEntry → Bool
  is_stale cutoff name directory = false
  is_stale cutoff name (file content) =
      if not (has_prefix name (text "audit-") && has_suffix name (text ".jsonl"))
      then false
      else is_before
          (cal.parse_day (trim_suffix (trim_prefix name (text "audit-")) (text ".jsonl"))) cutoff

  -- The loop over the entries; `removes` tells what can be removed.
  unfoldable pub remove_stale :
      (Text → Bool) → ℤ → Dict AuditEntry → Dict AuditEntry → Dict AuditEntry
  remove_stale removes cutoff [] entries = entries
  remove_stale removes cutoff ((name, ent) ∷ ents) entries =
      remove_stale removes cutoff ents
        (if is_stale cutoff name ent && removes name then erase name entries else entries)

  -- `AuditWriter.cleanup`, with its reading of the directory.
  unfoldable pub cleanup : Bool → (Text → Bool) → ℤ → AuditWriter → AuditWriter
  cleanup reads removes now a = if not reads then a else record a {
    entries = remove_stale removes (cal.days_before a.retention_days now) a.entries a.entries;
  }

  -- `NewAuditWriter`, over what the directory holds; `none` is its error.
  unfoldable pub new_audit_writer :
      Bool → Bool → (Text → Bool) → ℤ → ℤ → Dict AuditEntry → Option AuditWriter
  new_audit_writer makes reads removes now retention_days entries =
      if not makes
      then none
      else some (
          cleanup reads removes now
            (record { retention_days = positive_or 30 retention_days; entries = entries }))
