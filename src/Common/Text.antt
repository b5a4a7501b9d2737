-- ===== src/Common/Text.antt =====
-- Python strings as lists of code points, with `split` and `join`.
use Prim.Native.Char.{code}
use Prim.Native.String.{String}
use genesis_core.Common.{
  ℕ, ◌==◌, ◌≡◌, ◌↔◌, refl, ap, ◌∙◌, ◌&&◌, Bool, true, false, List, [], ◌∷◌, ◌++◌, arith, any,
  if◌then◌else◌,
}
use genesis_core.Common.Dict.{KeyType}

abbrev pub Text : Type 0
Text = List ℕ

abbrev pub codes : String → Text
codes String.[] = []
codes (String.◌∷◌ c s) = code c ∷ codes s

abbrev pub text_beq : Text → Text → Bool
text_beq [] [] = true
text_beq (a ∷ s) (b ∷ t) = a == b && text_beq s t
text_beq _ _ = false

text_beq-eq : (s t : Text) → text_beq s t ≡ true → s ≡ t
text_beq-eq [] [] h = refl
text_beq-eq [] (b ∷ t) h = cc
text_beq-eq (a ∷ s) [] h = cc
text_beq-eq (a ∷ s) (b ∷ t) h = ground (arith, text_beq-eq s t)

pub text_beq_refl : (s : Text) → text_beq s s ≡ true
text_beq_refl [] = refl
text_beq_refl (a ∷ s) = ground (arith, text_beq_refl s)

pub text_beq_iff : (s t : Text) → (text_beq s t ≡ true) ↔ (s ≡ t)
text_beq_iff s t = (text_beq-eq s t, λ e. rw e (text_beq_refl t))

instance abbrev pub text_key : KeyType Text
text_key = record { same = text_beq; same_iff = text_beq_iff }

abbrev pub occurs : ℕ → Text → Bool
occurs sep = any (λ c. c == sep)

-- What `split` returns is never empty: the first part, and the others.
abbrev pub Parts : Type 0
Parts = Text × List Text

abbrev pub add_char : ℕ → ℕ → Parts → Parts
add_char sep c (part, parts) = if c == sep then ([], part ∷ parts) else (c ∷ part, parts)

-- `text.split(sep)`
unfoldable pub split : ℕ → Text → Parts
split sep [] = ([], [])
split sep (c ∷ cs) = add_char sep c (split sep cs)

-- `sep.join(parts)`
unfoldable pub join_from : ℕ → Text → List Text → Text
join_from sep part [] = part
join_from sep part (next ∷ parts) = part ++ sep ∷ join_from sep next parts

unfoldable pub join : ℕ → Parts → Text
unfolding join_from
join sep (part, parts) = join_from sep part parts

-- `parts[-1]`
unfoldable pub last_from : Text → List Text → Text
last_from part [] = part
last_from part (next ∷ parts) = last_from next parts

-- `parts[:-1] + [f(parts[-1])]`
unfoldable pub map_last_from : (Text → Text) → Text → List Text → Parts
map_last_from f part [] = (f part, [])
map_last_from f part (next ∷ parts) =
    let rest = map_last_from f next parts in (part, rest.0 ∷ rest.1)

unfoldable pub map_last : (Text → Text) → Parts → Parts
unfolding map_last_from
map_last f (part, parts) = map_last_from f part parts

join-add_char : (sep c : ℕ) (p : Parts) → join sep (add_char sep c p) ≡ c ∷ join sep p
unfolding join
join-add_char sep c (part, []) = ground arith
join-add_char sep c (part, next ∷ parts) = ground arith

-- Joining the parts of a split gives the text back.
pub join-split : (sep : ℕ) (t : Text) → join sep (split sep t) ≡ t
unfolding split
join-split sep [] = unfold join in refl
join-split sep (c ∷ cs) =
    join-add_char sep c (split sep cs) ∙ ap (λ (t : Text). c ∷ t) (join-split sep cs)

-- A text without the separator is its only part.
pub split_without : (sep : ℕ) (t : Text) → occurs sep t ≡ false → split sep t ≡ (t, [])
unfolding split
split_without sep [] h = refl
split_without sep (c ∷ cs) h = ground (arith, split_without sep cs)

-- The part before the separator, where that is present.
pub split-append :
    (sep : ℕ) (t rest : Text) → occurs sep t ≡ false → (split sep (t ++ sep ∷ rest)).0 ≡ t
unfolding split
split-append sep [] rest h = ground arith
split-append sep (c ∷ cs) rest h = ground (arith, split-append sep cs rest)
