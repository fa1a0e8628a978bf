-- ===== src/Client/Paths.antt =====
-- The paths that the client asks for, as the server takes them apart.
use http_syncer.Base.{
  ◌≡◌, refl, ap, ◌∙◌, false, [], ◌∷◌, ◌++◌, some, Text, text, has_char, split, split-append,
  split_single,
}
use http_syncer.Path.{slash}
use http_syncer.Server.SessionApi.{fourth_part}

pub fourth_part-split :
    (kind id last : Text)
    → has_char slash kind ≡ false
    → has_char slash id ≡ false
    → has_char slash last ≡ false
    → fourth_part (split slash (text "/v1/" ++ (kind ++ slash ∷ (id ++ slash ∷ last)))) ≡ some id
unfolding fourth_part has_char
fourth_part-split kind id last k i l =
    ap fourth_part (
      split-append slash [] (text "v1/" ++ (kind ++ slash ∷ (id ++ slash ∷ last))) refl
      ∙ ap (λ parts. [] ∷ parts)
          (split-append slash (text "v1") (kind ++ slash ∷ (id ++ slash ∷ last)) refl
            ∙ ap (λ parts. text "v1" ∷ parts)
                (split-append slash kind (id ++ slash ∷ last) k
                  ∙ ap (λ parts. kind ∷ parts) (split-append slash id last i))))
    ∙ ap (λ parts. fourth_part ([] ∷ text "v1" ∷ kind ∷ id ∷ parts)) (split_single slash last l)
