-- ===== src/Prelude/Text.antt =====
-- Text operations of Python's `str` that the program uses.
use Prim.Native.Nat.{ℕ, zero, suc, ◌-◌, Ordering}
use Prim.Native.Char.{Char, code}
use Prim.Native.String.{String, ◌++◌, compare}
use mathlib.Core.Bool.{Bool, true, false, ◌&&◌, ◌||◌}
use mathlib.Core.List.{List, [], ◌∷◌}
use text.Mathlib.Text.{◌==◌ as str_eq}
use aads.Prelude.Tests.{◌==◌, leb, if◌then◌else◌}

-- `x in xs`, for a list or set of texts
abbrev pub str_mem : String → List String → Bool
str_mem x [] = false
str_mem x (y ∷ ys) = str_eq x y || str_mem x ys

-- `s < t`, for texts
abbrev pub str_lt : String → String → Bool
str_lt s t = elim (compare s t) [ Ordering.lt ↦ true | _ ↦ false ]

-- `xs == ys`, for lists of texts
abbrev pub strs_eq : List String → List String → Bool
strs_eq [] [] = true
strs_eq [] (y ∷ ys) = false
strs_eq (x ∷ xs) [] = false
strs_eq (x ∷ xs) (y ∷ ys) = str_eq x y && strs_eq xs ys

abbrev push_char : Char → List String → List String
push_char c [] = String.◌∷◌ c String.[] ∷ []
push_char c (w ∷ ws) = String.◌∷◌ c w ∷ ws

-- `s.split(c)`, for a separator of one character
unfoldable pub split : ℕ → String → List String
split sep String.[] = "" ∷ []
split sep (String.◌∷◌ c s) =
    let rest = split sep s in if code c == sep then "" ∷ rest else push_char c rest

-- `sep.join(ws)`
unfoldable pub join : String → List String → String
join sep [] = ""
join sep (w ∷ []) = w
join sep (w ∷ v ∷ ws) = w ++ (sep ++ join sep (v ∷ ws))

-- `s.rstrip(c)`
unfoldable pub rstrip : ℕ → String → String
rstrip sep String.[] = ""
rstrip sep (String.◌∷◌ c s) =
    let rest = rstrip sep s in if str_eq rest "" && code c == sep then "" else String.◌∷◌ c rest

-- `s.startswith(p)`
unfoldable pub begins_with : String → String → Bool
begins_with s String.[] = true
begins_with String.[] (String.◌∷◌ d p) = false
begins_with (String.◌∷◌ c s) (String.◌∷◌ d p) = code c == code d && begins_with s p

-- `p in s`, for texts
unfoldable pub contains : String → String → Bool
unfolding begins_with
contains p String.[] = begins_with String.[] p
contains p (String.◌∷◌ c s) = begins_with (String.◌∷◌ c s) p || contains p s

-- the number of characters
unfoldable pub text_len : String → ℕ
text_len String.[] = 0
text_len (String.◌∷◌ c s) = suc (text_len s)

-- `s[n:]`
unfoldable pub text_drop : ℕ → String → String
text_drop zero s = s
text_drop (suc n) String.[] = ""
text_drop (suc n) (String.◌∷◌ c s) = text_drop n s

-- `s[:n]`
unfoldable pub text_take : ℕ → String → String
text_take zero s = ""
text_take (suc n) String.[] = ""
text_take (suc n) (String.◌∷◌ c s) = String.◌∷◌ c (text_take n s)

-- `s[-n:]`, for a positive `n`
unfoldable pub last_chars : ℕ → String → String
unfolding text_len text_drop
last_chars n s = text_drop (text_len s - n) s

-- `s[0]`, for a text that is not empty
abbrev pub first_char : String → String
first_char String.[] = ""
first_char (String.◌∷◌ c s) = String.◌∷◌ c String.[]

abbrev is_wide_space : ℕ → Bool
is_wide_space c =
    c == 0x1680
    || ((leb 0x2000 c && leb c 0x200a)
        || (c == 0x2028 || (c == 0x2029 || (c == 0x202f || (c == 0x205f || c == 0x3000)))))

abbrev is_space : ℕ → Bool
is_space c =
    (leb 9 c && leb c 13)
    || ((leb 28 c && leb c 32) || (c == 0x85 || (c == 0xa0 || is_wide_space c)))

-- `s.strip()`: the white space of Unicode, at both ends
lstrip : String → String
lstrip String.[] = ""
lstrip (String.◌∷◌ c s) = let rest = lstrip s in if is_space (code c) then rest else String.◌∷◌ c s

rstrip_spaces : String → String
rstrip_spaces String.[] = ""
rstrip_spaces (String.◌∷◌ c s) =
    let rest = rstrip_spaces s in
    if str_eq rest "" && is_space (code c) then "" else String.◌∷◌ c rest

unfoldable pub strip : String → String
unfolding lstrip rstrip_spaces
strip s = rstrip_spaces (lstrip s)
