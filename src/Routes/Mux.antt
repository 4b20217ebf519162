-- ===== src/Routes/Mux.antt =====
-- `http.ServeMux` on patterns that are paths: the longest pattern wins, a pattern with a slash at its end
-- stands for the tree below it, and a path that is not clean is redirected.
pub mod Laws
use selenoid.Base.{
  Bool, true, false, not, ◌&&◌, ◌||◌, Option, none, some, List, [], ◌∷◌, ◌++◌, Text, text_eq,
  has_prefix, has_suffix, length, ltb, if◌then◌else◌,
}
use selenoid.Paths.{slash, clean, is_rooted}

pub data Routed (R : Type 0) : Type 0 where
  handled : R → Routed R
  redirected : Text → Routed R
  not_found : Routed R

pub ends_in_slash : Text → Bool
ends_in_slash p = has_suffix p (slash ∷ [])

-- `cleanPath`: `path.Clean`, with the slash at the end put back.
root_it : Text → Text
unfolding is_rooted
root_it [] = slash ∷ []
root_it (c ∷ p) = if is_rooted (c ∷ p) then c ∷ p else slash ∷ c ∷ p

pub clean_path : Text → Text
unfolding root_it
clean_path p =
    let r = root_it p in
    if ends_in_slash r && not (text_eq (clean r) (slash ∷ []))
    then clean r ++ (slash ∷ [])
    else clean r

-- The pattern is the path, or a tree that holds it.
fits : Text → Text → Bool
unfolding ends_in_slash
fits pattern p = text_eq pattern p || (ends_in_slash pattern && has_prefix p pattern)

module _ {R : Type 0} where
  longer : Text × R → Option (Text × R) → Option (Text × R)
  longer e none = some e
  longer (pattern, r) (some (other, s)) =
      if ltb (length pattern) (length other) then some (other, s) else some (pattern, r)

  -- The longest pattern that fits.
  unfoldable pub best : List (Text × R) → Text → Option (Text × R)
  unfolding fits longer
  best [] p = none
  best ((pattern, r) ∷ ps) p =
      let rest = best ps p in if fits pattern p then longer (pattern, r) rest else rest

  is_exact : Text → Option (Text × R) → Bool
  is_exact p none = false
  is_exact p (some (pattern, r)) = text_eq pattern p

  route_of : Option (Text × R) → Routed R
  route_of none = not_found
  route_of (some (pattern, r)) = handled r

  -- A path without a slash at its end is moved to a tree of this name.
  unfoldable pub moves_to_tree : List (Text × R) → Text → Bool
  unfolding best is_exact ends_in_slash
  moves_to_tree ps p =
      not (is_exact p (best ps p))
      && (is_exact (p ++ (slash ∷ [])) (best ps (p ++ (slash ∷ []))) && not (ends_in_slash p))

  -- `ServeMux.ServeHTTP`
  unfoldable pub serve_mux : List (Text × R) → Text → Routed R
  unfolding moves_to_tree route_of clean_path ends_in_slash
  serve_mux ps p =
      let q = clean_path p in
      if moves_to_tree ps q
      then redirected (q ++ (slash ∷ []))
      else if text_eq q p
      then route_of (best ps q)
      else redirected q
