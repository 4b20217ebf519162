-- ===== src/Files/Inside.antt =====
-- Where the files lie that main.go removes, whatever the client asks for.
use selenoid.Base.{
  ◌≡◌, refl, sym, Bool, true, false, Option, none, some, List, [], ◌∷◌, ◌++◌, Text, text_eq, codes,
  All, inl, inr, ◌⊎◌, trim_prefix, not, ◌&&◌, ◌||◌, has_suffix, if◌then◌else◌,
}
use mathlib.Core.Path.{subst}
use selenoid.Paths.{path_join}
use selenoid.Paths.Clean.{NoUp, path_join_inside, path_join_root}
use selenoid.Paths.Elements.{IsNormal, rooted}
use selenoid.Paths.NoUp.{trim-NoUp}
use selenoid.Routes.{Route, video, logs, Target, to_route, dispatch}
use selenoid.Routes.Clean.{routed-NoUp}
use selenoid.Files.{
  Asked, Disk, Handled, Directories, removing, delete_file_if_exists, serve_directory,
  list_files_as_json, serve_video, serve_logs, names_log, serve_route, serve_target, serve_request,
}

-- The file lies in the directory of these elements, or is it.
abbrev pub Below : List Text → Text → Type 0
Below ds f = (es : List Text) × All IsNormal es × (f ≡ rooted (ds ++ es))

module _ (P : Text → Type 0) where
  either : (b : Bool) (x y : Handled) → All P x.0 → All P y.0 → All P (if b then x else y).0
  either true x y hx hy = hx
  either false x y hx hy = hy

  removing_only : (file : Text) (answer : Option Text) → P file → All P (removing file answer).0
  unfolding removing
  removing_only file none h = (h, tt)
  removing_only file (some err) h = tt

  lists_only : (l : Option (List Text)) → All P (list_files_as_json l).0
  unfolding list_files_as_json
  lists_only none = tt
  lists_only (some names) = tt

  -- Only the file that is named is removed.
  serve_directory_only :
      (d : Disk) (a : Asked) (dir prefix : Text)
      → P (path_join dir (trim_prefix a.path prefix))
      → All P (serve_directory d a dir prefix).0
  unfolding serve_directory delete_file_if_exists
  serve_directory_only d a dir prefix h =
      either a.is_delete _ _
        (either (d.exists (path_join dir (trim_prefix a.path prefix))) _ _
          (removing_only _ (d.remove (path_join dir (trim_prefix a.path prefix))) h) tt)
        (either a.has_json _ _ (lists_only (d.read_dir dir)) tt)

-- The name below a tree, joined to a directory.
join-Below :
    (ds : List Text) (name : Text)
    → All IsNormal ds
    → NoUp name
    → Below ds (path_join (rooted ds) name)
join-Below [] name h up = path_join_root name
join-Below (x ∷ ds) name h up = path_join_inside x ds name h up

name-Below :
    (ds : List Text) (dir tree p : Text)
    → All IsNormal ds
    → dir ≡ rooted ds
    → NoUp p
    → Below ds (path_join dir (trim_prefix p (tree ++ codes "/")))
name-Below ds dir tree p h e up =
    subst (λ dir. Below ds (path_join dir (trim_prefix p (tree ++ codes "/")))) (sym e)
      (join-Below ds (trim_prefix p (tree ++ codes "/")) h (trim-NoUp p tree up))

module _ (c : Directories) (d : Disk) (vs ls : List Text) (normal_video : All IsNormal vs)
    (normal_logs : All IsNormal ls) (videos : c.video_output_dir ≡ rooted vs)
    (logs_or_none : (c.log_output_dir ≡ []) ⊎ (c.log_output_dir ≡ rooted ls)) where
  abbrev Inside : Text → Type 0
  Inside f = Below vs f ⊎ Below ls f

  logs-Inside : (a : Asked) → NoUp a.path → All Inside (serve_logs c d a).0
  unfolding serve_logs names_log text_eq
  logs-Inside a up = elim logs_or_none [
    | inl none_kept ↦ rw none_kept tt
    | inr dir ↦
        either Inside
          (not (text_eq c.log_output_dir [])
            && (text_eq (trim_prefix a.path (codes "/logs/")) []
                || has_suffix (trim_prefix a.path (codes "/logs/")) (codes ".log")))
          _ _
          (serve_directory_only Inside d a c.log_output_dir (codes "/logs/")
            (inr (name-Below ls c.log_output_dir (codes "/logs") a.path normal_logs dir up)))
          tt
  ]

  route-Inside : (a : Asked) (r : Route) → NoUp a.path → All Inside (serve_route c d a r).0
  unfolding serve_route serve_video
  route-Inside a video up =
      serve_directory_only Inside d a c.video_output_dir (codes "/video/")
        (inl (name-Below vs c.video_output_dir (codes "/video") a.path normal_video videos up))
  route-Inside a logs up = logs-Inside a up
  route-Inside a _ up = tt

  target-Inside :
      (up is_post : Bool) (a : Asked) (t : Target)
      → dispatch up is_post a.path ≡ t
      → All Inside (serve_target c d a t).0
  unfolding serve_target
  target-Inside up is_post a (to_route r p) e =
      route-Inside (record a { path = p }) r (routed-NoUp up is_post a.path r p e).1
  target-Inside up is_post a _ e = tt

-- Whatever the path of a request is, what it removes lies in the directory of the videos or in that of
-- the logs, if these are absolute and clean, as `filepath.Abs` makes them.
pub serve_request_inside :
    (c : Directories) (d : Disk) (vs ls : List Text)
    → All IsNormal vs
    → All IsNormal ls
    → c.video_output_dir ≡ rooted vs
    → (c.log_output_dir ≡ []) ⊎ (c.log_output_dir ≡ rooted ls)
    → (enable_file_upload is_post : Bool) (a : Asked)
    → All (λ f. Below vs f ⊎ Below ls f) (serve_request enable_file_upload is_post c d a).0
unfolding serve_request
serve_request_inside c d vs ls hv hl videos logs_or_none up is_post a =
    target-Inside c d vs ls hv hl videos logs_or_none up is_post a (dispatch up is_post a.path) refl
