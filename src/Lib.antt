-- ===== src/Lib.antt =====
-- A verification library for Selenoid, the hub that runs each browser in a container of its own and
-- proxies WebDriver sessions to it.
--
-- The program and how its parts interact. `main.go` routes a request for a new session through the queue
-- of `protect/queue.go` to `create` of `selenoid.go`. `create` reads the capabilities (`session/session.go`),
-- looks the browser up in the configuration (`config/config.go`), starts it (`service`), asks it for a
-- session, and puts the session into the map, with a timer that deletes it when nothing is asked of it for
-- some time. All later requests of the session find it in the map: `proxy` sends commands to its browser,
-- `reverseProxy` forwards downloads, the clipboard and the developer tools, and `wsdriverRoute` serves the
-- binary protocol of `wsdriver`, by which commands arrive over one WebSocket. A DELETE takes the session
-- from the map, stops the browser, and gives its place in the queue to the next request. When a session ends,
-- its video and its log get their names, and the listeners of `event` upload them and write the metadata.
--
-- The files, and the code that each models:
--   Queue         protect/queue.go. `enter` and `advance` are the channel operations of `Protect`, `Drop`,
--                 `Create` and `Release`, one by one; `run` interleaves them for any number of requests.
--                 A channel of empty structs is the number of its tokens. Queue.Refinement has the queue as
--                 its clients see it.
--   Routes        main.go: `selenium`, `post` and `handler`, as the route that answers a request. Routes.Mux is
--                 http.ServeMux as it is documented, for paths without escaped bytes and methods other than
--                 CONNECT.
--   Start         main.go: `init` behind the parsing of the flags, whose result says whether the program goes on.
--   DockerClient  main.go: `createCompatibleDockerClient`, `parseVersion` and `isDockerAPIVersionCorrect`.
--   Files         main.go: `video` and `deleteFileIfExists`; selenoid.go: `logs`, `listFilesAsJson` and
--                 `fileUpload`. The file system is a parameter that says what it answers.
--   Jsonerror     jsonerror/jsonerror.go.
--   Proxy         selenoid.go: `direct` is the Director of `proxy` for a session that was found, `end_session`
--                 its branch for a DELETE, `renew` the renewal of a timeout, `on_timeout` the timer, and
--                 `store_session` the end of `create`. Proxy.Run has the steps: a request looks its session up in
--                 one step and uses it in another, so that requests and timers interleave in between;
--                 Proxy.Run.Shutdown is `main` of main.go, which stops the sessions that are left.
--   Create        selenoid.go: Create.Handler is the handler `create`, whose result is the list of what it does
--                 to the queue, the browser, the client and the map; Create.Choice the loop over `firstMatch`;
--                 Create.Attempts the loop that asks the browser for a session; Create.Body
--                 `removeSelenoidOptions` and `processBody`.
--   Capabilities  selenoid.go: `getScreenResolution`, `getVideoScreenSize`, `getSessionTimeout` and the two
--                 regular expressions.
--   Session       session/session.go: Session.Caps the capabilities, Session.Store the session and the map. A
--                 pointer to a session is its number.
--   Config        config/config.go: `load`, `find` and `state`.
--   Service       service/service.go: `manager_find`, and Service.Wait the two goroutines of `wait`;
--                 service/driver.go and service/docker.go: `StartWithCancel` with all error paths, as
--                 `start_with_cancel` of Service.Driver and of Service.Docker, whose result is what is done to
--                 processes and containers. Of service/docker.go, Settings has limits, environment, labels and
--                 addresses, Ports the ports, Logs `getLogConfig`, and Requests what the daemon is asked for.
--   Events        event/event.go, upload/uploader.go and metadata.go, the listeners; upload/s3.go: `Init`.
--                 Events.Closing is `cancelAndRenameFiles`, the closure in `create`.
--   Upload        upload/s3.go: `file_matches`, `get_s3_key` and `upload`.
--   Wsdriver      wsdriver/ws_req.go (Request), ws_res.go (Response), wsdriver_errors.go (ErrorReply),
--                 http_req.go (HttpRequest) and the loop of wsdriver.go (Connection).
--   Base, Int, Json, Paths   bytes, lists, dictionaries, signed numbers, JSON values, and the functions of
--                 the packages `strings` and `path` that the code calls.
--
-- Bounds and fuel. Numbers are unbounded but for the count of requests, which wraps at 2^64, and the
-- channels, whose capacity is math.MaxInt32 where the code says so. The loop of the attempts runs on the fuel
-- `retry_count + 2`: a time-out is repeated less than `retry_count` times, and an answer 404 moves the path to
-- `/wd/hub` once. The other loops recur on their lists.
--
-- Parameters, since their code is not in the repository or is the system: the JSON codec, of which the code
-- relies on that what was written is read back (Json.Prefix has one), the compressors, `mergo.Merge`,
-- `time.ParseDuration`, `url.Parse`, the answers of browsers, the starter of a service, files and the clock.
-- The order in which a range visits a map is the order of the list that stands for it.
--
-- Not modelled: the declarations of flags and the loops on signals of main.go; `vnc`, `streamLogs`, `status` and
-- `welcome`, which copy between connections or print; info/info.go; the compressor; logging.
-- What is under the lock of a session is one step, and so is a renewal of its timeout outside that lock;
-- data races inside such a renewal are out of the model. The values of capabilities are copied where
-- the code copies a struct with a pointer to shared extension capabilities. Listeners that run in goroutines
-- of their own are listed in the order in which they are registered. `filepath.Join` is that of Unix.
pub mod Base
pub mod Capabilities
pub mod Config
pub mod Create
pub mod DockerClient
pub mod Events
pub mod Files
pub mod Int
pub mod Json
pub mod Jsonerror
pub mod Paths
pub mod Proxy
pub mod Queue
pub mod Routes
pub mod Service
pub mod Session
pub mod Start
pub mod Upload
pub mod Wsdriver
