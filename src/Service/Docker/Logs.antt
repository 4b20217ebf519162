-- ===== src/Service/Docker/Logs.antt =====
-- service/docker.go: `getLogConfig`, which writes into a map that all containers share.
pub mod Sticky
mod Examples
use selenoid.Base.{
  Bool, true, false, not, ◌&&◌, Option, none, some, List, [], ◌∷◌, ◌++◌, Text, text_eq, codes, Dict,
  lookup, insert, if◌then◌else◌, is_some,
}
use selenoid.Session.Caps.{CapsFields}

-- `container.LogConfig`; its map is shared by all containers, and may be nil.
pub record LogConfig : Type 0 where
  pub driver : Text
  pub config : Option (Dict Text)

joined_labels : Dict Text → Text
joined_labels [] = []
joined_labels ((k, v) ∷ []) = k ++ (b'=' ∷ v)
joined_labels ((k, v) ∷ l ∷ ls) = k ++ (b'=' ∷ (v ++ (b',' ∷ joined_labels (l ∷ ls))))

is_empty : Dict Text → Bool
is_empty [] = true
is_empty (l ∷ ls) = false

with_tag : CapsFields → Dict Text → Dict Text
with_tag caps m =
    if not (text_eq caps.test_name []) && not (is_some (lookup (codes "tag") m))
    then insert (codes "tag") caps.test_name m
    else m

with_labels : CapsFields → Dict Text → Dict Text
unfolding joined_labels is_empty
with_labels caps m =
    if not (is_empty caps.labels) && not (is_some (lookup (codes "labels") m))
    then insert (codes "labels") (joined_labels caps.labels) m
    else m

write_map : LogConfig → CapsFields → Option (Dict Text) → LogConfig
unfolding with_tag with_labels
write_map l caps none = l
write_map l caps (some m) = record l { config = some (with_labels caps (with_tag caps m)) }

-- `getLogConfig`, which writes into the shared map: the result is also what the next container starts from.
pub get_log_config : LogConfig → CapsFields → LogConfig
unfolding write_map
get_log_config l caps = write_map l caps l.config
