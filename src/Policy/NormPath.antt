-- ===== src/Policy/NormPath.antt =====
-- `os.path.normpath` of the language's standard library on POSIX, which the path check calls.
use aads.Prelude.{
  String, ◌<>◌, Bool, not, ◌&&◌, ◌||◌, List, [], ◌∷◌, str_eq, split, join, begins_with,
  if◌then◌else◌,
}
use mathlib.Core.List.{reverse}

-- the components kept so far, the last one first
push_component : Bool → List String → String → List String
push_component rooted [] comp =
    if str_eq comp "" || str_eq comp "."
    then []
    else if not (str_eq comp "..") || not rooted
    then comp ∷ []
    else []
push_component rooted (last ∷ kept) comp =
    if str_eq comp "" || str_eq comp "."
    then last ∷ kept
    else if not (str_eq comp "..") || str_eq last ".."
    then comp ∷ last ∷ kept
    else kept

unfoldable pub components : Bool → List String → List String → List String
unfolding push_component
components rooted kept [] = reverse kept
components rooted kept (comp ∷ comps) = components rooted (push_component rooted kept comp) comps

-- one initial slash, or two where the path begins with exactly two
unfoldable pub root_of : String → String
root_of path =
    if begins_with path "/"
    then (if begins_with path "//" && not (begins_with path "///") then "//" else "/")
    else ""

unfoldable pub normpath : String → String
unfolding components root_of begins_with join split
normpath path =
    if str_eq path ""
    then "."
    else let root = root_of path in
      let joined = root <> join "/" (components (not (str_eq root "")) [] (split b'/' path)) in
      if str_eq joined "" then "." else joined
