-- ===== src/Service/Driver.antt =====
-- service/driver.go: `StartWithCancel` and `stopProcess`.
pub mod Processes
mod Examples
use selenoid.Base.{
  ℕ, Bool, true, false, not, ◌&&◌, ◌||◌, Option, none, some, List, [], ◌∷◌, ◌++◌, Text, codes,
  if◌then◌else◌,
}
use selenoid.Session.Caps.{CapsFields}
use selenoid.Session.Store.{Url, HostPort}
use selenoid.Config.{Browser, Image, image, command, other}

-- What the operating system answers: the host and the port of the listener, whether the log file can be
-- created and the process started, and whether it responds before the time-out.
pub record Answers : Type 0 where
  pub listen : Option (Text × Text)
  pub log_file : Bool
  pub starts : Bool
  pub responds : Bool
  pub signalled : Bool

-- The parts of `Environment` that are read.
pub record Environment : Type 0 where
  pub capture_driver_logs : Bool
  pub log_output_dir : Text
  pub save_all_logs : Bool

-- What is done: the listener on a free port, the log file, and the process, with its command line and its
-- environment.
pub data Action : Type 0 where
  listened closed_listener : Action
  opened_log closed_log : Action
  process_started : List Text → List Text → Action
  process_stopped : Action

pub data Started : Type 0 where
  failed : Started
  started : Url → HostPort → Text → Started

-- The words of the command line, if there are any and all are strings.
strings : List (Option Text) → Option (List Text)
strings [] = some []
strings (w ∷ ws) = elim w [
  | none ↦ none
  | some t ↦ elim (strings ws) [ none ↦ none | some ts ↦ some (t ∷ ts) ]
]

non_empty : Option (List Text) → Option (List Text)
non_empty (some (w ∷ ws)) = some (w ∷ ws)
non_empty _ = none

command_line : Image → Option (List Text)
unfolding strings non_empty
command_line (command words) = non_empty (strings words)
command_line _ = none

is_set : Text → Bool
is_set [] = false
is_set (c ∷ t) = true

logs_to_file : Environment → CapsFields → Bool
unfolding is_set
logs_to_file env caps =
    not env.capture_driver_logs && (is_set env.log_output_dir && (env.save_all_logs || caps.log))

-- `stopProcess`: the process is signalled and waited for; where the signal fails, the log stays open.
pub stop_process : Environment → CapsFields → Answers → List Action
unfolding logs_to_file is_set
stop_process env caps o =
    process_stopped
    ∷ (if o.signalled && (logs_to_file env caps && is_set env.log_output_dir)
        then closed_log ∷ []
        else [])

host_port : CapsFields → HostPort
host_port caps = record {
  selenium = [];
  fileserver = [];
  clipboard = [];
  vnc = if caps.vnc then codes "127.0.0.1:5900" else [];
  devtools = [];
  bidi = [];
}

launched :
    Environment
    → CapsFields
    → Browser
    → Answers
    → Text
    → Text
    → List Text
    → List Action
    → List Action × Started
unfolding stop_process host_port
launched env caps b o host port words before =
    let run = process_started (words ++ ((codes "--port=" ++ port) ∷ [])) (b.env ++ caps.env) in
    if not o.starts
    then (before ++ (closed_listener ∷ []), failed)
    else if o.responds
    then (
      before ++ (closed_listener ∷ run ∷ []),
      started (record { host = host; path = b.path }) (host_port caps) (codes "localhost:" ++ port),
    )
    else (before ++ (closed_listener ∷ run ∷ stop_process env caps o), failed)

with_log :
    Environment → CapsFields → Browser → Answers → Text → Text → List Text → List Action × Started
unfolding launched logs_to_file
with_log env caps b o host port words =
    if logs_to_file env caps
    then if o.log_file
      then launched env caps b o host port words (listened ∷ opened_log ∷ [])
      else (listened ∷ [], failed)
    else launched env caps b o host port words (listened ∷ [])

with_listener :
    Environment
    → CapsFields
    → Browser
    → Answers
    → List Text
    → Option (Text × Text)
    → List Action × Started
unfolding with_log
with_listener env caps b o words none = ([], failed)
with_listener env caps b o words (some (host, port)) = with_log env caps b o host port words

with_words :
    Environment → CapsFields → Browser → Answers → Option (List Text) → List Action × Started
unfolding with_listener
with_words env caps b o none = ([], failed)
with_words env caps b o (some words) = with_listener env caps b o words o.listen

pub start_with_cancel : Environment → CapsFields → Browser → Answers → List Action × Started
unfolding with_words command_line
start_with_cancel env caps b o = with_words env caps b o (command_line b.image)
