-- ===== src/Prelude/Text.antt =====
-- Python strings as lists of code points. A literal is written `codes "..."`.
use Prim.Native.Char.{code}
use Prim.Native.String.{String}
use mathlib.Core.Logic.{◌↔◌}
use hightower_pos.Prelude.{
  ℕ, ◌≡◌, refl, Bool, true, false, ◌&&◌, ◌||◌, List, [], ◌∷◌, ap, arith, ◌==◌, sym, ◌∙◌, ◌≢◌, ltb,
  if◌then◌else◌,
}
use mathlib.Core.Bool.{false≢true}

abbrev pub Text : Type 0
Text = List ℕ

abbrev pub codes : String → Text
codes String.[] = []
codes (String.◌∷◌ c s) = code c ∷ codes s

-- `s == t` on strings.
abbrev pub text_eq : Text → Text → Bool
text_eq [] [] = true
text_eq [] (d ∷ t) = false
text_eq (c ∷ s) [] = false
text_eq (c ∷ s) (d ∷ t) = (c == d) && text_eq s t

pub text_eq→eq : (s t : Text) → text_eq s t ≡ true → s ≡ t
text_eq→eq [] [] h = refl
text_eq→eq [] (d ∷ t) h = cc
text_eq→eq (c ∷ s) [] h = cc
text_eq→eq (c ∷ s) (d ∷ t) h = ground (arith, text_eq→eq s t)

pub text_eq_refl : (s : Text) → text_eq s s ≡ true
text_eq_refl [] = refl
text_eq_refl (c ∷ s) = ground (arith, text_eq_refl s)

pub text_eq-sym : (s t : Text) → text_eq s t ≡ text_eq t s
text_eq-sym [] [] = refl
text_eq-sym [] (d ∷ t) = refl
text_eq-sym (c ∷ s) [] = refl
text_eq-sym (c ∷ s) (d ∷ t) = ground (arith, text_eq-sym s t)

pub text_eq_iff : (s t : Text) → (text_eq s t ≡ true) ↔ (s ≡ t)
text_eq_iff s t = (text_eq→eq s t, λ e. subst_refl s t e)
  where
    subst_refl : (a b : Text) → a ≡ b → text_eq a b ≡ true
    subst_refl a b e = cc (text_eq_refl a, ap (text_eq a) e)

pub ne_of_text_eq : (s t : Text) → text_eq s t ≡ false → t ≢ s
ne_of_text_eq s t h e = false≢true (sym h ∙ ap (text_eq s) e ∙ text_eq_refl s)

-- `s <= t` on strings, by code points.
abbrev pub text_leb : Text → Text → Bool
text_leb [] t = true
text_leb (c ∷ s) [] = false
text_leb (c ∷ s) (d ∷ t) =
    let rest = text_leb s t in if ltb c d then true else if c == d then rest else false

-- `str.isspace` of one code point, and `str.strip()`.
abbrev pub is_space : ℕ → Bool
is_space c =
    ltb 8 c && ltb c 14
    || ltb 27 c && ltb c 33
    || c == 133
    || c == 160
    || c == 5760
    || ltb 8191 c && ltb c 8203
    || c == 8232
    || c == 8233
    || c == 8239
    || c == 8287
    || c == 12288

abbrev pub lstrip : Text → Text
lstrip [] = []
lstrip (c ∷ s) = let rest = lstrip s in if is_space c then rest else c ∷ s

-- The text without the white space at its end.
abbrev pub rstrip : Text → Text
rstrip [] = []
rstrip (c ∷ s) =
    let rest = rstrip s in elim rest [ [] ↦ if is_space c then [] else c ∷ [] | d ∷ t ↦ c ∷ d ∷ t ]

abbrev pub strip : Text → Text
strip s = rstrip (lstrip s)
