-- ===== src/Text.antt =====
-- Texts as lists of code points, with the operations of `str` that the crates call.
use aether_mesh.Base.{
  ℕ, ◌==◌, leb, if◌then◌else◌, Bool, true, false, ◌&&◌, ◌||◌, List, [], ◌∷◌, Option, none, some,
  ◌≡◌, ◌↔◌, refl, arith,
}
use aether_mesh.Base.Assoc.{Eq}

abbrev pub Text : Type 0
Text = List ℕ

unfoldable pub text_eq : Text → Text → Bool
text_eq [] [] = true
text_eq [] (d ∷ ds) = false
text_eq (c ∷ cs) [] = false
text_eq (c ∷ cs) (d ∷ ds) = c == d && text_eq cs ds

text_eq_sound : (s t : Text) → text_eq s t ≡ true → s ≡ t
unfolding text_eq
text_eq_sound [] [] h = refl
text_eq_sound [] (d ∷ ds) h = cc
text_eq_sound (c ∷ cs) [] h = cc
text_eq_sound (c ∷ cs) (d ∷ ds) h = ground (arith, text_eq_sound cs ds)

text_eq_refl : (s : Text) → text_eq s s ≡ true
unfolding text_eq
text_eq_refl [] = refl
text_eq_refl (c ∷ cs) = ground (arith, text_eq_refl cs)

pub text_eq_iff : (s t : Text) → (text_eq s t ≡ true) ↔ (s ≡ t)
text_eq_iff s t = (text_eq_sound s t, λ e. rw e (text_eq_refl t))

instance abbrev pub text_key : Eq Text
text_key = record { beq = text_eq; beq_iff = text_eq_iff }

-- `char::is_whitespace`: the code points with the White_Space property.
unfoldable pub is_whitespace : ℕ → Bool
is_whitespace c =
    (leb 9 c && leb c 13)
    || c == 32
    || c == 0x85
    || c == 0xa0
    || c == 0x1680
    || (leb 0x2000 c && leb c 0x200a)
    || c == 0x2028
    || c == 0x2029
    || c == 0x202f
    || c == 0x205f
    || c == 0x3000

unfoldable pub trim_start : Text → Text
trim_start [] = []
trim_start (c ∷ cs) = if is_whitespace c then trim_start cs else c ∷ cs

-- A character goes only if all that follows goes too.
abbrev keep_front : ℕ → Text → Text
keep_front c [] = if is_whitespace c then [] else c ∷ []
keep_front c (d ∷ ds) = c ∷ d ∷ ds

unfoldable pub trim_end : Text → Text
trim_end [] = []
trim_end (c ∷ cs) = keep_front c (trim_end cs)

unfoldable pub trim : Text → Text
trim t = trim_end (trim_start t)

abbrev put_front : ℕ → Option (Text × Text) → Option (Text × Text)
put_front c none = none
put_front c (some (before, after)) = some (c ∷ before, after)

-- `split_once` at a one-character separator.
unfoldable pub split_char : ℕ → Text → Option (Text × Text)
split_char s [] = none
split_char s (c ∷ cs) = if c == s then some ([], cs) else put_front c (split_char s cs)

-- `split_once` at a two-character separator.
unfoldable pub split_pair : ℕ → ℕ → Text → Option (Text × Text)
split_pair s t [] = none
split_pair s t (c ∷ []) = none
split_pair s t (c ∷ d ∷ cs) =
    if c == s && d == t then some ([], cs) else put_front c (split_pair s t (d ∷ cs))
