-- ===== src/Service/Docker/Logs/Sticky.antt =====
-- What `getLogConfig` of service/docker.go leaves in the log configuration that all containers share.
use selenoid.Base.{
  ◌≡◌, refl, ◌≢◌, ap, ◌∙◌, Bool, true, false, not, ◌&&◌, Option, none, some, List, [], ◌∷◌, Text,
  text_eq, text_eq_iff, codes, Dict, lookup, insert, lookup-insert, lookup-insert_self, Bool-cases,
  inl, inr, is_some, if◌then◌else◌,
}
use selenoid.Session.Caps.{CapsFields}
use selenoid.Config.{Browser}
use selenoid.Service.Docker.Settings.{Environment, Answers}
use selenoid.Service.Docker.Logs.{
  LogConfig, get_log_config, write_map, with_tag, with_labels, joined_labels, is_empty,
}
use selenoid.Service.Docker.Requests.{Prepared, prepare, browser_spec}
use selenoid.Service.Docker.{logs_after, written}

-- The tag with which the logs of a container are marked.
abbrev pub tag_in : Option (Dict Text) → Option Text
tag_in none = none
tag_in (some m) = lookup (codes "tag") m

abbrev pub tag_of : LogConfig → Option Text
tag_of l = tag_in l.config

-- One start of a container.
pub record Start : Type 0 where
  pub environment : Environment
  pub caps : CapsFields
  pub browser : Browser
  pub answers : Answers

-- The log configuration behind some starts, one after the other.
abbrev pub after : LogConfig → List Start → LogConfig
after logs [] = logs
after logs (s ∷ ss) = after (logs_after s.environment s.caps s.browser logs s.answers) ss

labels_keep_tag :
    (caps : CapsFields) (m : Dict Text)
    → lookup (codes "tag") (with_labels caps m) ≡ lookup (codes "tag") m
unfolding with_labels text_eq
labels_keep_tag caps m =
    by_test (not (is_empty caps.labels) && not (is_some (lookup (codes "labels") m)))
      (insert (codes "labels") (joined_labels caps.labels) m)
      (lookup-insert (codes "labels") (codes "tag") (joined_labels caps.labels) m)
  where
    by_test :
        (b : Bool) (x : Dict Text)
        → lookup (codes "tag") x ≡ lookup (codes "tag") m
        → lookup (codes "tag") (if b then x else m) ≡ lookup (codes "tag") m
    by_test true x h = h
    by_test false x h = refl

tag_stays :
    (name : Text) (caps : CapsFields) (m : Dict Text)
    → lookup (codes "tag") m ≡ some name
    → lookup (codes "tag") (with_tag caps m) ≡ some name
unfolding with_tag
tag_stays name caps m h = elim (Bool-cases (text_eq caps.test_name [])) [
  | inl unnamed ↦ rw unnamed h
  | inr named ↦ rw (named, h) h
]

tag_set :
    (caps : CapsFields) (m : Dict Text)
    → lookup (codes "tag") m ≡ none
    → caps.test_name ≢ []
    → lookup (codes "tag") (with_tag caps m) ≡ some caps.test_name
unfolding with_tag
tag_set caps m h ne = elim (Bool-cases (text_eq caps.test_name [])) [
  | inl unnamed ↦ absurd (ne ((text_eq_iff caps.test_name []).0 unnamed))
  | inr named ↦ rw (named, h) (lookup-insert_self (codes "tag") caps.test_name m)
]

write_map-tag :
    (l : LogConfig) (caps : CapsFields) (name : Text) (config : Option (Dict Text))
    → tag_of l ≡ some name
    → tag_in config ≡ some name
    → tag_of (write_map l caps config) ≡ some name
unfolding write_map
write_map-tag l caps name none whole e = whole
write_map-tag l caps name (some m) whole e =
    labels_keep_tag caps (with_tag caps m) ∙ tag_stays name caps m e

get_log_config-tag :
    (l : LogConfig) (caps : CapsFields) (name : Text)
    → tag_of l ≡ some name
    → tag_of (get_log_config l caps) ≡ some name
unfolding get_log_config
get_log_config-tag l caps name h = write_map-tag l caps name l.config h h

logs_after-tag :
    (l : LogConfig) (s : Start) (name : Text)
    → tag_of l ≡ some name
    → tag_of (logs_after s.environment s.caps s.browser l s.answers) ≡ some name
unfolding logs_after written
logs_after-tag l s name h = written-tag (prepare s.environment s.caps s.browser s.answers)
  where
    written-tag : (p : Option Prepared) → tag_of (written l s.caps p) ≡ some name
    written-tag none = h
    written-tag (some p) = get_log_config-tag l s.caps name h

after-tag :
    (ss : List Start) (l : LogConfig) (name : Text)
    → tag_of l ≡ some name
    → tag_of (after l ss) ≡ some name
after-tag [] l name h = h
after-tag (s ∷ ss) l name h = after-tag ss _ name (logs_after-tag l s name h)

first_tag :
    (l : LogConfig) (m : Dict Text) (s : Start) (p : Prepared)
    → l.config ≡ some m
    → lookup (codes "tag") m ≡ none
    → s.caps.test_name ≢ []
    → prepare s.environment s.caps s.browser s.answers ≡ some p
    → tag_of (logs_after s.environment s.caps s.browser l s.answers) ≡ some s.caps.test_name
unfolding logs_after written get_log_config write_map
first_tag l m s p config untagged named good =
    ap (λ r. tag_of (written l s.caps r)) good
    ∙ (ap (λ c. tag_of (write_map l s.caps c)) config
        ∙ (labels_keep_tag s.caps (with_tag s.caps m) ∙ tag_set s.caps m untagged named))

-- The name of the first test that is started with one marks the logs of all later containers, whatever the
-- names of their own tests are, where the configuration of the logs has a map with no tag.
pub log_tag_sticks :
    (l : LogConfig) (m : Dict Text) (first : Start) (p : Prepared) (ss : List Start) (last : Start)
    (q : Prepared)
    → l.config ≡ some m
    → lookup (codes "tag") m ≡ none
    → first.caps.test_name ≢ []
    → prepare first.environment first.caps first.browser first.answers ≡ some p
    → tag_of
        (browser_spec last.environment last.caps last.browser last.answers
          (after l (first ∷ ss))
          q).host_config.log_config
      ≡ some first.caps.test_name
unfolding browser_spec
log_tag_sticks l m first p ss last q config untagged named good =
    get_log_config-tag (after l (first ∷ ss)) last.caps first.caps.test_name
      (after-tag ss _ first.caps.test_name (first_tag l m first p config untagged named good))
