-- ===== src/Paths.antt =====
-- Paths of URLs: `strings.Split` and `strings.Join` at slashes, `path.Clean` and `path.Join`.
pub mod Laws
pub mod Clean
pub mod Elements
pub mod NoUp
pub mod Up
use selenoid.Base.{
  ℕ, Bool, true, false, Option, none, some, List, [], ◌∷◌, ◌++◌, Text, text_eq, codes, ◌==◌,
  if◌then◌else◌,
}
use mathlib.Core.List.{reverse}

abbrev pub slash : ℕ
slash = b'/'

-- `strings.Split(p, "/")`: the first fragment and those behind it. There is always one.
abbrev start_fragment : ℕ → List Text → List Text
start_fragment c [] = (c ∷ []) ∷ []
start_fragment c (f ∷ fs) = (c ∷ f) ∷ fs

unfoldable pub split : Text → List Text
split [] = [] ∷ []
split (c ∷ p) = let rest = split p in if c == slash then [] ∷ rest else start_fragment c rest

-- `strings.Join(fragments, "/")`
unfoldable pub join : List Text → Text
join [] = []
join (f ∷ []) = f
join (f ∷ g ∷ fs) = f ++ (slash ∷ join (g ∷ fs))

-- `..` in `path.Clean`; the stack of the elements has its top at the head.
unfoldable pub go_up : Bool → List Text → List Text
go_up rooted [] = if rooted then [] else codes ".." ∷ []
go_up rooted (top ∷ below) = if text_eq top (codes "..") then codes ".." ∷ top ∷ below else below

unfoldable pub clean_element : Bool → List Text → Text → List Text
clean_element rooted stack [] = stack
clean_element rooted stack (c ∷ f) =
    if text_eq (c ∷ f) (codes ".")
    then stack
    else if text_eq (c ∷ f) (codes "..")
    then go_up rooted stack
    else (c ∷ f) ∷ stack

unfoldable pub clean_elements : Bool → List Text → List Text → List Text
clean_elements rooted stack [] = reverse stack
clean_elements rooted stack (f ∷ fs) = clean_elements rooted (clean_element rooted stack f) fs

unfoldable pub is_rooted : Text → Bool
is_rooted [] = false
is_rooted (c ∷ p) = c == slash

unfoldable pub or_dot : Text → Text
or_dot [] = codes "."
or_dot (c ∷ p) = c ∷ p

-- `path.Clean`
unfoldable pub clean : Text → Text
unfolding go_up clean_element clean_elements is_rooted or_dot split join
clean p =
    let elements = clean_elements (is_rooted p) [] (split p) in
    if is_rooted p then slash ∷ join elements else or_dot (join elements)

-- `path.Join` of two elements: empty ones are left out.
unfoldable pub path_join : Text → Text → Text
path_join [] [] = []
path_join [] (d ∷ q) = clean (d ∷ q)
path_join (c ∷ p) [] = clean (c ∷ p)
path_join (c ∷ p) (d ∷ q) = clean ((c ∷ p) ++ (slash ∷ d ∷ q))
