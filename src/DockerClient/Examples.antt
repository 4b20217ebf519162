-- ===== src/DockerClient/Examples.antt =====
-- A daemon that speaks one version only.
use selenoid.Base.{◌≡◌, refl, true, some, [], ◌∷◌, Text, text_eq, codes, decimal}
use selenoid.DockerClient.{
  Library, opened, closed, is_correct, make, try_all, after_attempt, candidates, parse_version,
  by_versions, create_compatible_docker_client,
}

abbrev daemon : Text → Library
daemon version = record {
  new_client = λ v. true;
  server_version = λ v. some version;
  client_version = λ v. v;
  default_version = codes "1.26";
}

-- A daemon that is older than 1.24 is asked in 1.24 in the end, not in the version of the library.
old_daemon :
    create_compatible_docker_client (daemon (codes "1.20")) []
    ≡ some (
      opened (codes "1.26")
          ∷ closed (codes "1.26")
          ∷ opened (codes "1.25")
          ∷ closed (codes "1.25")
          ∷ opened (codes "1.24")
          ∷ closed (codes "1.24")
          ∷ opened (codes "1.24")
          ∷ [],
      some (codes "1.24"),
    )
unfolding create_compatible_docker_client by_versions try_all is_correct parse_version candidates
    make after_attempt text_eq selenoid.DockerClient.countdown decimal
old_daemon = refl
