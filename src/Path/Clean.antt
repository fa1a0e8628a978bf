-- ===== src/Path/Clean.antt =====
-- What cleaned paths look like.
use http_syncer.Base.{◌≡◌, refl, text}
use http_syncer.Path.{clean, rel}
use http_syncer.Base.{some, none}

clean_samples :
    (clean (text "") ≡ text ".")
    × (clean (text "a//b/./c/..") ≡ text "a/b")
    × (clean (text "/../a") ≡ text "/a")
    × (clean (text "../a/../..") ≡ text "../..")
unfolding clean
clean_samples = (refl, refl, refl, refl)

rel_samples :
    (rel (text "/up/mod") (text "/up/mod/x/y") ≡ some (text "x/y"))
    × (rel (text "/up/mod") (text "/up") ≡ some (text ".."))
    × (rel (text "/up/mod") (text "/up/modules") ≡ some (text "../modules"))
    × (rel (text "/up") (text "/up") ≡ some (text "."))
    × (rel (text "/up") (text "up") ≡ none)
unfolding rel
rel_samples = (refl, refl, refl, refl, refl)
