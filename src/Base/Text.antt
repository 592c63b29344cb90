-- ===== src/Base/Text.antt =====
-- Text operations of the language that the services use.
use Prim.Native.Nat.{ℕ, suc, ◌-◌}
use Prim.Native.Char.{Char, code}
use Prim.Native.String.{String, [], ◌∷◌, char_at}
use text.Mathlib.Text.{◌==◌ as str_eq, starts_with}
use text.Mathlib.TextEquality.{eq_iff}
use mathlib.Core.Path.{◌≡◌}
use mathlib.Core.Bool.{Bool, ◌&&◌, ◌||◌, true, false, not}
use mathlib.Core.List.{List}
use finguard.Base.Tests.{leb, ◌==◌, if◌then◌else◌}

lower_char : Char → Char
lower_char c =
    if leb 65 (code c) && leb (code c) 90
    then char_at "abcdefghijklmnopqrstuvwxyz" (code c - 65)
    else c

-- `str.lower`, on the ASCII letters.
unfoldable pub lower : String → String
unfolding lower_char
lower [] = []
lower (c ∷ s) = lower_char c ∷ lower s

-- `str.isspace`, on the ASCII characters.
abbrev is_space : Char → Bool
is_space c =
    code c == 32 || (leb 9 (code c) && leb (code c) 13) || (leb 28 (code c) && leb (code c) 31)

unfoldable pub is_empty : String → Bool
is_empty [] = true
is_empty (c ∷ s) = false

lstrip : String → String
lstrip [] = []
lstrip (c ∷ s) = let rest = lstrip s in if is_space c then rest else c ∷ s

rstrip : String → String
unfolding is_empty
rstrip [] = []
rstrip (c ∷ s) = let rest = rstrip s in if is_space c && is_empty rest then [] else c ∷ rest

-- `str.strip`
unfoldable pub strip : String → String
unfolding lstrip rstrip
strip s = rstrip (lstrip s)

-- `t in s`
unfoldable pub contains : String → String → Bool
contains t [] = starts_with [] t
contains t (c ∷ s) = starts_with (c ∷ s) t || contains t s

-- A character before the tokens of a text: it starts a token, or adds to the first one.
push_char : Char → Bool → List String → List String
push_char c true List.[] = List.◌∷◌ (c ∷ []) List.[]
push_char c true (List.◌∷◌ t ts) = List.◌∷◌ (c ∷ t) ts
push_char c false ts = List.◌∷◌ (c ∷ []) ts

starts_token : String → Bool
starts_token [] = false
starts_token (c ∷ s) = not (is_space c)

-- `str.split`
unfoldable pub split : String → List String
unfolding push_char starts_token
split [] = List.[]
split (c ∷ s) = let ts = split s in if is_space c then ts else push_char c (starts_token s) ts

-- `len`, in characters.
unfoldable pub str_length : String → ℕ
str_length [] = 0
str_length (c ∷ s) = suc (str_length s)

pub str_eq→eq : (a b : String) → str_eq a b ≡ true → a ≡ b
str_eq→eq a b h = (eq_iff a b).0 h
