-- ===== src/Client/Plan.antt =====
-- The plan of `Run` in internal/client/client.go, and its guard on deletions.
pub mod Keyed
pub mod Applied
pub mod Converges
use http_syncer.Base.{
  ℕ, Bool, true, false, not, ◌||◌, ◌&&◌, List, [], ◌∷◌, Option, none, some, Text, Dict, lookup,
  erase, length, nat_eq, if◌then◌else◌,
}
use http_syncer.Base.Int.{ℤ, pos, negsuc, ltb_ℤ}
use http_syncer.Snapshot.{ManifestEntry, sort_by}

-- What the plan reads of `Config`. The threshold on the ratio of two counts is a comparison of
-- floating-point numbers: `over` tells whether planned / total is above it.
pub record GuardConfig : Type 0 where
  pub force : Bool
  pub min_files : ℤ
  pub over : ℕ → ℕ → Bool

abbrev pub eq_ℤ : ℤ → ℤ → Bool
eq_ℤ (pos m) (pos n) = nat_eq m n
eq_ℤ (negsuc m) (negsuc n) = nat_eq m n
eq_ℤ _ _ = false

-- Whether the size, the time or the mode of a remote file differs from the local one's, if any.
unfoldable pub outdated : Option ManifestEntry → ManifestEntry → Bool
outdated none re = true
outdated (some le) re =
    not (nat_eq le.size re.size) || not (eq_ℤ le.mtime re.mtime) || not (nat_eq le.mode re.mode)

-- The loop over the remote files.
unfoldable pub missing_from : Dict ManifestEntry → Dict ManifestEntry → List ManifestEntry
missing_from local [] = []
missing_from local ((p, re) ∷ remote) =
    let more = missing_from local remote in if outdated (lookup p local) re then re ∷ more else more

abbrev absent : Option ManifestEntry → Bool
absent none = true
absent (some e) = false

-- The loop over the local files.
unfoldable pub left_over : Dict ManifestEntry → Dict ManifestEntry → List Text
left_over remote [] = []
left_over remote ((p, le) ∷ local) =
    let more = left_over remote local in if absent (lookup p remote) then p ∷ more else more

unfoldable pub to_download : Dict ManifestEntry → Dict ManifestEntry → List ManifestEntry
to_download remote local = sort_by (λ e. e.path) (missing_from local remote)

unfoldable pub to_delete : Dict ManifestEntry → Dict ManifestEntry → List Text
to_delete remote local = sort_by (λ p. p) (left_over remote local)

-- `enforceDeleteGuard`: whether it returns no error.
unfoldable pub delete_guard : GuardConfig → ℕ → ℕ → Bool
delete_guard cfg total planned =
    if cfg.force || nat_eq planned 0
    then true
    else if ltb_ℤ (pos total) cfg.min_files
    then true
    else not (cfg.over planned total)

-- From the two maps to the guard; `none` is its error.
unfoldable pub make_plan :
    GuardConfig → Dict ManifestEntry → Dict ManifestEntry → Option (List ManifestEntry × List Text)
make_plan cfg remote local =
    let removed = to_delete remote local in
    if delete_guard cfg (length local) (length removed)
    then some (to_download remote local, removed)
    else none
