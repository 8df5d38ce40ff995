-- ===== src/Tenancy/Slug.antt =====
-- app/tenancy.py: _slug, over ASCII names (`str.lower` is that of ASCII here; any other character is
-- one that the pattern replaces).
use Prim.Native.Char.{Char, code}
use Prim.Native.String.{String, [], ◌∷◌}
use neo_cloud_control_plane.Prelude.{Bool, false, not, ◌||◌, ◌&&◌, eqb, leb, if◌then◌else◌}

-- a character of `[a-z0-9]`
abbrev pub is_word : Char → Bool
is_word c = (leb b'a' (code c) && leb (code c) b'z') || (leb b'0' (code c) && leb (code c) b'9')

abbrev pub is_dash : Char → Bool
is_dash c = eqb (code c) b'-'

-- `c.lower()`
unfoldable pub lower : Char → Char
lower c =
    if eqb (code c) b'A'
    then "a"
    else if eqb (code c) b'B'
    then "b"
    else if eqb (code c) b'C'
    then "c"
    else if eqb (code c) b'D'
    then "d"
    else if eqb (code c) b'E'
    then "e"
    else if eqb (code c) b'F'
    then "f"
    else if eqb (code c) b'G'
    then "g"
    else if eqb (code c) b'H'
    then "h"
    else if eqb (code c) b'I'
    then "i"
    else if eqb (code c) b'J'
    then "j"
    else if eqb (code c) b'K'
    then "k"
    else if eqb (code c) b'L'
    then "l"
    else if eqb (code c) b'M'
    then "m"
    else if eqb (code c) b'N'
    then "n"
    else if eqb (code c) b'O'
    then "o"
    else if eqb (code c) b'P'
    then "p"
    else if eqb (code c) b'Q'
    then "q"
    else if eqb (code c) b'R'
    then "r"
    else if eqb (code c) b'S'
    then "s"
    else if eqb (code c) b'T'
    then "t"
    else if eqb (code c) b'U'
    then "u"
    else if eqb (code c) b'V'
    then "v"
    else if eqb (code c) b'W'
    then "w"
    else if eqb (code c) b'X'
    then "x"
    else if eqb (code c) b'Y'
    then "y"
    else if eqb (code c) b'Z'
    then "z"
    else c

-- `re.sub(r"[^a-z0-9]+", "-", …)`; the flag says that the character before was replaced
substitute : Bool → String → String
substitute run [] = ""
substitute run (c ∷ s) =
    let word = is_word (lower c) in
    let rest = substitute (not word) s in
    if word then lower c ∷ rest else if run then rest else "-" ∷ rest

strip_left : String → String
strip_left [] = ""
strip_left (c ∷ s) = let rest = strip_left s in if is_dash c then rest else c ∷ s

drop_dash : Char → String → String
drop_dash c [] = if is_dash c then "" else c ∷ ""
drop_dash c (d ∷ s) = c ∷ d ∷ s

strip_right : String → String
strip_right [] = ""
strip_right (c ∷ s) = drop_dash c (strip_right s)

unfoldable pub slug : String → String
unfolding lower substitute strip_left strip_right drop_dash
slug name = strip_right (strip_left (substitute false name))
