-- ===== src/Lock/Files.antt =====
-- The lock files: what a file says is read back after a restart, and what destroys it.
use mathlib.Core.List.{reverse, reverse-append, reverse-reverse, append_assoc}
use http_syncer.Base.{
  ℕ, ◌≡◌, sym, ap, ◌∙◌, false, [], ◌∷◌, ◌++◌, some, Text, has_char, split, split-append,
  split_single, trim_space, trim_left, is_space,
}
use http_syncer.Base.Int.{ℤ}
use http_syncer.Lock.{TimeText, bar, clean_path, lock_content, parse_parts, parse_lock_file}

trim_left_solid : (a : ℕ) (s : Text) → is_space a ≡ false → trim_left (a ∷ s) ≡ a ∷ s
unfolding trim_left
trim_left_solid a s h = rw h

-- Trimming leaves a text alone whose ends are no white space.
trim_space_solid :
    (a : ℕ) (s : Text) (z : ℕ)
    → is_space a ≡ false
    → is_space z ≡ false
    → trim_space ((a ∷ s) ++ z ∷ []) ≡ (a ∷ s) ++ z ∷ []
unfolding trim_space
trim_space_solid a s z ha hz =
    ap (λ t. reverse (trim_left (reverse t))) (trim_left_solid a (s ++ z ∷ []) ha)
    ∙ ap (λ t. reverse (trim_left t)) (reverse-append (a ∷ s) (z ∷ []))
    ∙ ap reverse (trim_left_solid z (reverse (a ∷ s)) hz)
    ∙ ap reverse (sym (reverse-append (a ∷ s) (z ∷ [])))
    ∙ reverse-reverse ((a ∷ s) ++ z ∷ [])

three_parts :
    (owner exp path : Text)
    → has_char bar owner ≡ false
    → has_char bar exp ≡ false
    → has_char bar path ≡ false
    → split bar (owner ++ (bar ∷ (exp ++ (bar ∷ path)))) ≡ owner ∷ exp ∷ path ∷ []
three_parts owner exp path ho he hp =
    split-append bar owner (exp ++ (bar ∷ path)) ho
    ∙ ap (λ parts. owner ∷ parts) (split-append bar exp path he)
    ∙ ap (λ parts. owner ∷ exp ∷ parts) (split_single bar path hp)

regroup :
    (owner exp path : Text) (z : ℕ)
    → owner ++ (bar ∷ (exp ++ (bar ∷ (path ++ z ∷ []))))
      ≡ (owner ++ (bar ∷ (exp ++ (bar ∷ path)))) ++ z ∷ []
regroup owner exp path z = simp append_assoc

-- What `TryAcquire` writes is read back as the owner, the time and the cleaned path, if the owner
-- begins with no white space, the path does not end in it, the layout of times is read back, and
-- no part holds a bar.
pub parse_lock_file-lock_content :
    (tf : TimeText) (a : ℕ) (owner : Text) (exp : ℤ) (path : Text) (z : ℕ)
    → is_space a ≡ false
    → is_space z ≡ false
    → has_char bar (a ∷ owner) ≡ false
    → has_char bar (tf.format exp) ≡ false
    → has_char bar (path ++ z ∷ []) ≡ false
    → tf.parse (tf.format exp) ≡ some exp
    → parse_lock_file tf (some (lock_content tf (a ∷ owner) exp (path ++ z ∷ [])))
      ≡ some (a ∷ owner, exp, clean_path (path ++ z ∷ []))
unfolding parse_lock_file lock_content
parse_lock_file-lock_content tf a owner exp path z ha hz ho ht hp back =
    ap (λ t. parse_parts tf (split bar (trim_space t))) (regroup (a ∷ owner) (tf.format exp) path z)
    ∙ ap (λ t. parse_parts tf (split bar t))
        (trim_space_solid a (owner ++ (bar ∷ (tf.format exp ++ (bar ∷ path)))) z ha hz)
    ∙ ap (λ t. parse_parts tf (split bar t)) (sym (regroup (a ∷ owner) (tf.format exp) path z))
    ∙ ap (parse_parts tf) (three_parts (a ∷ owner) (tf.format exp) (path ++ z ∷ []) ho ht hp)
    ∙ (unfold parse_parts in rw back)
