-- ===== src/Client/Fetch.antt =====
-- Fetching the manifest page by page gives the whole manifest.
use http_syncer.Base.{
  ℕ, zero, suc, ◌+◌, ◌-◌, ◌≤◌, ◌<◌, ◌≡◌, refl, sym, ap, ◌∙◌, true, false, Bool-cases, inl, inr,
  List, [], ◌∷◌, ◌++◌, some, Text, ◌==◌, ==→≡, ==_refl, Dict, insert, length, length-drop, take,
  drop, take-append-drop, drop-drop, take_all, ltb, ltb→lt, arith, if◌then◌else◌,
}
use http_syncer.Base.Numbers.{itoa, atoi-itoa, itoa-ne-nil, max_int}
use http_syncer.Snapshot.{ManifestEntry}
use http_syncer.Server.ManifestApi.{page_at, slice_page, clip, cursor_of}
use http_syncer.Client.{add_all, Respond, after_page, fetch_manifest}

pub add_all-append :
    (xs ys : List ManifestEntry) (out : Dict ManifestEntry)
    → add_all (xs ++ ys) out ≡ add_all ys (add_all xs out)
unfolding add_all
add_all-append [] ys out = refl
add_all-append (e ∷ xs) ys out = add_all-append xs ys (insert e.path e out)

cursor_of-itoa : (n : ℕ) → n < max_int → cursor_of (itoa n) ≡ n
unfolding cursor_of
cursor_of-itoa n h = elim (Bool-cases (itoa n == [])) [
  | inl blank ↦ absurd (itoa-ne-nil n (==→≡ (itoa n) [] blank))
  | inr digits ↦ rw (digits, atoi-itoa n h)
]

clip_low : (total n : ℕ) → n ≤ total → clip total n ≡ n
unfolding clip
clip_low total n h = ground arith

clip_high : (total n : ℕ) → total ≤ n → clip total n ≡ total
unfolding clip
clip_high total n h = ground arith

module _ (entries : List ManifestEntry) (size : ℕ) where
  page_at_low :
      (c end : ℕ)
      → c ≤ length entries
      → clip (length entries) (c + size) ≡ end
      → page_at entries size c ≡ slice_page entries c end
  unfolding page_at
  page_at_low c end low e =
      ap (λ k. slice_page entries k (clip (length entries) (k + size)))
        (clip_low (length entries) c low)
      ∙ ap (slice_page entries c) e

  more_pages :
      (c : ℕ)
      → c + size < length entries
      → page_at entries size c ≡ (take size (drop c entries), itoa (c + size))
  more_pages c h =
      page_at_low c (c + size) (omega arith) (clip_low (length entries) (c + size) (omega arith))
      ∙ sliced
    where
      open_end : ltb (c + size) (length entries) ≡ true
      open_end = ground arith

      width : c + size - c ≡ size
      width = omega arith

      sliced : slice_page entries c (c + size) ≡ (take size (drop c entries), itoa (c + size))
      sliced =
          unfold slice_page in
          rw open_end (ap (λ k. (take k (drop c entries), itoa (c + size))) width)

  last_page :
      (c : ℕ)
      → c ≤ length entries
      → length entries ≤ c + size
      → page_at entries size c ≡ (drop c entries, [])
  last_page c low h =
      page_at_low c (length entries) low (clip_high (length entries) (c + size) h) ∙ sliced
    where
      closed_end : ltb (length entries) (length entries) ≡ false
      closed_end = ground arith

      whole : take (length entries - c) (drop c entries) ≡ drop c entries
      whole = take_all (length entries - c) (drop c entries) (omega (arith, length-drop c entries))

      sliced : slice_page entries c (length entries) ≡ (drop c entries, [])
      sliced = unfold slice_page in rw closed_end (ap (λ (l : List ManifestEntry). (l, [])) whole)

  module _ (respond : Respond)
      (serves : (cursor : Text) → respond cursor ≡ some (page_at entries size (cursor_of cursor)))
      (positive : 0 < size) (small : length entries < max_int) where
    fetch_step :
        (f : ℕ) (cursor : Text) (out : Dict ManifestEntry) (shown : List ManifestEntry)
        (next : Text)
        → page_at entries size (cursor_of cursor) ≡ (shown, next)
        → fetch_manifest (suc f) respond cursor out ≡ (
            if next == []
            then some (add_all shown out)
            else fetch_manifest f respond next (add_all shown out))
    unfolding fetch_manifest after_page
    fetch_step f cursor out shown next e =
        ap (after_page (fetch_manifest f respond) out) (serves cursor ∙ ap some e)

    fetch_rest :
        (f c : ℕ) (cursor : Text) (out : Dict ManifestEntry)
        → cursor_of cursor ≡ c
        → c ≤ length entries
        → length entries < c + f
        → fetch_manifest f respond cursor out ≡ some (add_all (drop c entries) out)
    fetch_rest zero c cursor out at low fuel = absurd (omega arith)
    fetch_rest (suc f) c cursor out at low fuel =
        elim (Bool-cases (ltb (c + size) (length entries))) [
          | inr last ↦
              fetch_step f cursor out (drop c entries) []
                (ap (page_at entries size) at ∙ last_page c low (ground arith))
              ∙ rw (==_refl [])
          | inl more ↦
              let room : c + size < length entries = ltb→lt (c + size) (length entries) more in
              fetch_step f cursor out (take size (drop c entries)) (itoa (c + size))
                (ap (page_at entries size) at ∙ more_pages c room)
              ∙ rw (not_last (c + size)) (
                  fetch_rest f (c + size) (itoa (c + size))
                    (add_all (take size (drop c entries)) out)
                    (cursor_of-itoa (c + size) (omega arith)) (omega arith) (omega arith)
                  ∙ regrouped c)
        ]
      where
        not_last : (n : ℕ) → (itoa n == []) ≡ false
        not_last n = elim (Bool-cases (itoa n == [])) [
          | inl blank ↦ absurd (itoa-ne-nil n (==→≡ (itoa n) [] blank))
          | inr digits ↦ digits
        ]

        regrouped :
            (c : ℕ)
            → some (add_all (drop (c + size) entries) (add_all (take size (drop c entries)) out))
              ≡ some (add_all (drop c entries) out)
        regrouped c = ap some (
            sym (add_all-append (take size (drop c entries)) (drop (c + size) entries) out)
            ∙ ap (λ l. add_all l out)
                (ap (λ l. take size (drop c entries) ++ l) (sym (drop-drop size c entries))
                  ∙ take-append-drop size (drop c entries)))

    -- Against a server that answers every cursor with its page of the list, of a positive size,
    -- `fetchManifest` ends within one round more than there are entries, and gives the map of the
    -- whole list, as if the list had come in one page.
    pub fetch_manifest_complete :
        fetch_manifest (suc (length entries)) respond [] [] ≡ some (add_all entries [])
    unfolding ◌==◌
    fetch_manifest_complete =
        fetch_rest (suc (length entries)) 0 [] [] (unfold cursor_of in refl) (omega arith)
          (omega arith)
