-- ===== src/Service/Driver/Processes.antt =====
-- The processes that the starter of service/driver.go leaves.
use selenoid.Base.{
  by_test, ℕ, ◌≡◌, refl, not, ◌&&◌, Option, none, some, List, [], ◌∷◌, Text, total, total-append,
  arith, Bool-cases, inl, inr,
}
use selenoid.Session.Caps.{CapsFields}
use selenoid.Config.{Browser}
use selenoid.Service.Driver.{
  Answers, Environment, Action, listened, closed_listener, opened_log, process_started,
  process_stopped, Started, failed, started, stop_process, launched, with_log, with_listener,
  with_words, command_line, start_with_cancel, logs_to_file, is_set,
}

abbrev pub starts : Action → ℕ
starts (process_started words env) = 1
starts _ = 0

abbrev pub stops : Action → ℕ
stops process_stopped = 1
stops _ = 0

-- One process runs where the starter has succeeded, and none where it has failed.
abbrev pub LeavesOne : List Action × Started → Type 0
LeavesOne (acts, failed) = total starts acts ≡ total stops acts
LeavesOne (acts, started u hp origin) = (total starts acts ≡ 1) × (total stops acts ≡ 0)

stop_counts :
    (env : Environment) (caps : CapsFields) (o : Answers)
    → (total stops (stop_process env caps o) ≡ 1) × (total starts (stop_process env caps o) ≡ 0)
unfolding stop_process
stop_counts env caps o =
    elim (Bool-cases (o.signalled && (logs_to_file env caps && is_set env.log_output_dir))) [
      | inl closes ↦ rw closes (refl, refl)
      | inr keeps ↦ rw keeps (refl, refl)
    ]

launched-LeavesOne :
    (env : Environment) (caps : CapsFields) (b : Browser) (o : Answers) (host port : Text)
    (words : List Text) (before : List Action)
    → total starts before ≡ 0
    → total stops before ≡ 0
    → LeavesOne (launched env caps b o host port words before)
unfolding launched
launched-LeavesOne env caps b o host port words before h g =
    let (s, t) = stop_counts env caps o in
    by_test LeavesOne (not o.starts) _ _
      (omega (
        arith,
        h,
        g,
        total-append starts before (closed_listener ∷ []),
        total-append stops before (closed_listener ∷ []),
      ))
      (by_test LeavesOne o.responds _ _
        (
          omega (arith, h, total-append starts before _),
          omega (arith, g, total-append stops before _),
        )
        (omega (arith, h, g, s, t, total-append starts before _, total-append stops before _)))

log-LeavesOne :
    (env : Environment) (caps : CapsFields) (b : Browser) (o : Answers) (host port : Text)
    (words : List Text)
    → LeavesOne (with_log env caps b o host port words)
unfolding with_log
log-LeavesOne env caps b o host port words =
    by_test LeavesOne (logs_to_file env caps) _ _
      (by_test LeavesOne o.log_file _ _
        (launched-LeavesOne env caps b o host port words (listened ∷ opened_log ∷ []) refl refl)
        refl)
      (launched-LeavesOne env caps b o host port words (listened ∷ []) refl refl)

listener-LeavesOne :
    (env : Environment) (caps : CapsFields) (b : Browser) (o : Answers) (words : List Text)
    (l : Option (Text × Text))
    → LeavesOne (with_listener env caps b o words l)
unfolding with_listener
listener-LeavesOne env caps b o words none = refl
listener-LeavesOne env caps b o words (some (host, port)) =
    log-LeavesOne env caps b o host port words

words-LeavesOne :
    (env : Environment) (caps : CapsFields) (b : Browser) (o : Answers) (words : Option (List Text))
    → LeavesOne (with_words env caps b o words)
unfolding with_words
words-LeavesOne env caps b o none = refl
words-LeavesOne env caps b o (some words) = listener-LeavesOne env caps b o words o.listen

-- The starter of drivers leaves exactly one process behind where it succeeds, and stops what it has
-- started on every path on which it fails.
pub start_with_cancel-LeavesOne :
    (env : Environment) (caps : CapsFields) (b : Browser) (o : Answers)
    → LeavesOne (start_with_cancel env caps b o)
unfolding start_with_cancel
start_with_cancel-LeavesOne env caps b o = words-LeavesOne env caps b o (command_line b.image)
