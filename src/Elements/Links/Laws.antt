-- ===== src/Elements/Links/Laws.antt =====
-- What `clear_parameters` leaves of a link.
use genesis_core.Common.{
  ℕ, ◌≡◌, refl, ap, ◌∙◌, ◌&&◌, not, Bool, true, false, List, [], ◌∷◌, ◌++◌, arith, any,
}
use genesis_core.Common.Text.{
  Text, Parts, occurs, add_char, split, join, map_last, join-split, split_without, split-append,
}
use genesis_core.Elements.Links.{dot, colon, before_colon, clear_parameters}

-- The last part has the text behind it, the others stay.
append_last : Text → Parts → Parts
append_last rest = map_last (λ part. part ++ rest)

add_char-append_last :
    (c : ℕ) (rest : Text) (p : Parts)
    → add_char dot c (append_last rest p) ≡ append_last rest (add_char dot c p)
unfolding append_last map_last
add_char-append_last c rest (part, []) = ground arith
add_char-append_last c rest (part, next ∷ parts) = ground arith

split-append_last :
    (t rest : Text)
    → occurs dot rest ≡ false
    → split dot (t ++ rest) ≡ append_last rest (split dot t)
split-append_last [] rest h = split_without dot rest h ∙ unfold split append_last map_last in refl
split-append_last (c ∷ t) rest h =
    let here : split dot ((c ∷ t) ++ rest) ≡ add_char dot c (split dot (t ++ rest)) =
      unfold split in refl in
    let there : add_char dot c (split dot t) ≡ split dot (c ∷ t) = unfold split in refl in
    here
    ∙ ap (add_char dot c) (split-append_last t rest h)
    ∙ add_char-append_last c rest (split dot t)
    ∙ ap (append_last rest) there

no_colon : Parts → Bool
no_colon (part, parts) = not (occurs colon part) && not (any (occurs colon) parts)

split-no_colon : (t : Text) → occurs colon t ≡ false → no_colon (split dot t) ≡ true
unfolding split no_colon
split-no_colon [] h = refl
split-no_colon (c ∷ t) h = ground (arith, split-no_colon t)

before_colon-append :
    (part rest : Text) → occurs colon part ≡ false → before_colon (part ++ colon ∷ rest) ≡ part
unfolding before_colon
before_colon-append part rest h = split-append colon part rest h

map_last-append_last :
    (part rest : Text) (parts : List Text)
    → no_colon (part, parts) ≡ true
    → map_last before_colon (append_last (colon ∷ rest) (part, parts)) ≡ (part, parts)
unfolding map_last append_last no_colon
map_last-append_last part rest [] h = ground (arith, before_colon-append part rest)
map_last-append_last part rest (next ∷ parts) h =
    let later = map_last-append_last next rest parts (ground arith) in
    ap (λ (p : Parts). let r : Parts = (part, p.0 ∷ p.1) in r) later

-- A link without a colon is what is left of it behind a parameter, if that has no dot.
pub clear_parameters_parameter :
    (link rest : Text)
    → occurs colon link ≡ false
    → occurs dot rest ≡ false
    → clear_parameters (link ++ colon ∷ rest) ≡ link
unfolding clear_parameters
clear_parameters_parameter link rest clear undotted =
    ap (λ (p : Parts). join dot (map_last before_colon p))
      (split-append_last link (colon ∷ rest) (ground (arith, undotted)))
    ∙ ap (join dot) (
        map_last-append_last (split dot link).0 rest (split dot link).1 (split-no_colon link clear))
    ∙ join-split dot link

map_last_clear :
    (part : Text) (parts : List Text)
    → no_colon (part, parts) ≡ true
    → map_last before_colon (part, parts) ≡ (part, parts)
unfolding map_last before_colon no_colon
map_last_clear part [] h = ground (arith, split_without colon part)
map_last_clear part (next ∷ parts) h =
    let later = map_last_clear next parts (ground arith) in
    ap (λ (p : Parts). let r : Parts = (part, p.0 ∷ p.1) in r) later

-- A link without a colon is left as it is.
pub clear_parameters_clear :
    (link : Text) → occurs colon link ≡ false → clear_parameters link ≡ link
unfolding clear_parameters
clear_parameters_clear link clear =
    ap (join dot) (map_last_clear (split dot link).0 (split dot link).1 (split-no_colon link clear))
    ∙ join-split dot link
