-- ===== src/Lib.antt =====
-- TinySwarm: the scripts of its documentation pages, and the core of its manager.
--
-- The repository holds a small cluster manager (manager/, worker/ and Common/, in C++) and its
-- documentation (docs/), whose pages carry JavaScript. This library models that JavaScript: the
-- search of the pages (docs/search/search.js), the folding rows of their tables
-- (docs/dynsections.js) and their menu (docs/menu.js). Of the manager it models the pods and the
-- workers (manager/Manager.cpp, manager/PodDescriptor.cpp, manager/WorkerDescriptor.h), their lines in
-- the snapshot and the log, the services of the users (manager/ServiceDescriptor.h,
-- manager/ServiceManager.h and .cpp), the scheduler (manager/Scheduler) and the proxy for nginx
-- (manager/Proxy/NginxProxy.h); of the worker its queue (worker/util/LockFreeQueue.h) and the
-- start of a pod (`fork` of worker/RPCInterface.cpp).
--
-- How the parts interact. A page has a search panel: a field, a menu of sections, and a popup with a
-- frame. `SearchBox` waits half a second behind a key, looks up the first letter of the text in the
-- table of the chosen section (docs/search/searchdata.js), and sends the frame to the results file
-- of that letter with the text as query. That file calls `createResults` on its table, which builds
-- one row for each entry, and then `SearchResults.Search`, which reads the query from the URL, shows
-- the rows whose ids begin with the encoded text, and hides the others. The keys of the results page
-- go to `Nav` and `NavChild`, which move the focus over the shown rows and their children; the escape
-- key goes back to the panel by `CloseResultsWindow`. `initMenu` writes the menu and the panel's
-- markup into the page and moves the panel as the window is resized; `init_search` fills the panel's
-- menu.
-- A user's request reaches `ServiceManager`, which has `Manager` make the pods of the service and
-- tells its proxy their addresses. `Manager` asks its scheduler for a worker for each new pod, calls
-- the worker, writes the call and its end into the log, and publishes a message. It checks its workers
-- from time to time, keeps a list of the pods that are down, and starts these again or moves them.
-- When it starts anew it reads the snapshot and the log.
--
-- Files.
--   Prelude       names of the library, Boolean tests, lists over native numbers (Prelude/Lists) and
--                 integers (Prelude/Int), and the lemmas on them
--   Text          strings as lists of UTF-16 code units, with the string functions the scripts use;
--                 Text/Digits is `toString` of a number in a base, Text/Escape is `escape` and
--                 `unescape`, Text/Escape/RoundTrip what these do to each other
--   Page          display styles, offsets (`getXPos`, `getYPos`) and timers
--   SearchId      `convertToId`; SearchId/Prefix its effect on prefixes
--   SearchBox     the panel: State is its variables, elements and timers, Handlers the activation, the
--                 section menu and the close button, Init `init_search`, Search the search, Events
--                 the key handlers and the step function of all events; Query, Panel, Placement,
--                 Timers, Menu and Focusing are about these
--   Results       the results page: Tree is `FindChildElement` and `Toggle`, Filter is `Search`, Keys
--                 is `ProcessKeys`, `NavNext`, `NavPrev`, `Nav` and `NavChild`, Create is
--                 `createResults`; Walk, Shown, Moves, Arrows, Press, Inside and Created are about
--                 these
--   Dynsections   the folding of docs/dynsections.js: Section is `toggleVisibility` and
--                 `toggleInherit`, Directory is `updateStripes`, `toggleLevel` and `toggleFolder`;
--                 Stripes, Levels, Folders and Reopen are about these
--   Menu          docs/menu.js: Tree is `makeTree`, Layout the search box's markup and `resetState`;
--                 Markup is a reader of markup, by which Nesting and SearchMarkup judge what the
--                 scripts write; Resizing is about `resetState`
--   Text/Stream   the C++ streams by which the manager reads its records; Words and Integers are about
--                 what they read back
--   Manager       Pod is pods, workers and their lines (`toSnapshotMessage`, `snapshotToServiceInfo`),
--                 Core the state with its map and its pointers (`bindWorker`, `~PodDescriptor`, the
--                 answer "Manager Down"), Calls `createService` and `selectWorkerToCreatePod`, Log
--                 `parseLogLine`, SnapshotFile the file of `snapshot`, Recover `recover` and
--                 `checkPodsOnAllWorker`, Stops `stopPod` and `shutdownPod`, Checks
--                 `checkServices`, Transfers `transferPod` and `transferDownPod`, Service
--                 `ServiceDescriptor`, Registry `ServiceManager`, Scheduler `RoundRobin`, and
--                 NginxProxy the proxy's pools and its file.
--                 About these: Pod/Snapshot the lines; Asking, Creation, Rebinding and TakenName the
--                 creation of pods; Loss and GivenUp a worker that has given the manager up; Replay,
--                 Steps, Logged, Rerun and Recovery the log; Forgotten
--                 what one `recover` leaves for the next; Saved, Restored and Reading the file
--                 of the snapshot; Starting, Startable and Starts the pods that are started again;
--                 Nodes, Telling and Stopping the stops; Checking and Exits the checks; Moving the
--                 transfers; Restarts, Collision, Naming,
--                 Hung and Deletion the services; RoundRobin, NginxConf and
--                 Ports the scheduler and the proxy
--   Worker        LockFreeQueue is the queue, Chains its nodes from head to tail, Fifo what holds between
--                 the steps of its threads, which Pushing and Popping keep, and Order what comes out;
--                 Fork is `fork` with the parts of worker/WorkerNode.cpp that it calls, and Refusal is
--                 about what the manager meets there
-- The Tests modules, Manager/Runs, Manager/PodRuns and Manager/RecoverRuns run the definitions on
-- concrete states.
--
-- How code becomes definitions. A function of the scripts is a function of the same name in snake
-- case; `search_` is `SearchBox.Search`, `search_results` is `SearchResults.Search`, and
-- `close_selection_window_` is `CloseSelectionWindow`, whose plain name is its timer's callback. The
-- variables of an object and the attributes of its elements that the code writes are the fields of a
-- record that is passed on; what the code only reads (the layout, the tables, the constructor's
-- arguments) is a record `Config` or an argument. A handler that can throw returns an `Outcome`, which
-- keeps the state at the throw. Timers are a list of those that wait; a step of the panel is an event
-- of the user or a timer that fires. The focus is a part of the state, and a field that loses it or
-- gains it calls its handler, as the page does.
-- The manager's state is a record that its functions pass on. Its map of pods is a list of nodes with
-- addresses, so that pointers are addresses: what the code does with a pointer to an erased node is the
-- outcome `undefined`. The loop that tries a call again is a recursion on the answers of the workers
-- that are still to come, and a run that needs more of them than there are is `waiting`. A function
-- that reads a stream is cut at its extractions, each of which is given what has been read.
-- The log is the list of the lines that the queue has been given since `recover` last removed its file,
-- with the queue's own count beside it, which is that of all lines of the run; `recover` takes the lines
-- of the two files as arguments, and its result is the snapshot that it writes.
-- The worker's queue is a list of events: a call, or one step of the thread that pushes or of the one
-- that pops, each of which is one access to shared memory. Its memory is a function from addresses.
--
-- Loops and bounds. A loop over a list is a structural recursion. `FindChildElement`, which walks by
-- `firstChild`, `nextSibling` and `parentNode`, has one round more than there are nodes; `NavNext` has
-- one round more than there are rows; the digits of n have n rounds. The scheduler's loop can run for
-- ever, so it is a run of a given number of rounds, whose result may be that it still runs. The loop of
-- `restartFailedPods` has the rounds that the service's number allows, which are enough;
-- `transferDownPod` has one round more than there are answers, and each round takes one. Code units
-- lie below 65536 (`IsUnit`) where it matters; pixel positions are integers, since the panel's clamps
-- can go below 0. The scheduler's counter wraps around at 32 bits.
--
-- Parameters. `toLowerCase` is written out for ASCII and an argument (`wide_lower`) past it, one unit
-- at a time. The layout and the tables of searchdata.js are fields of the configuration. The jQuery
-- calls of docs/dynsections.js are written as what they do to the list of rows. What workers answer is
-- a list in the manager's state, or an argument of a check, as is whether a session is connected; the
-- scheduler's choice is the argument `choose`; a service and the registry use the manager through the arguments `create` and `stop`; a
-- token that is drawn at random is an argument, and so are, to a worker, its services, the ports of its
-- machine and what the system answers to `fork`. The manager has a publisher, which takes each message.
--
-- Not modelled: the data files of the documentation, jQuery itself and the sliding of the menu, which
-- is its work; the start and stop of nginx; the thread that writes the log, and
-- whether its file is the one that is removed; of the manager `createPod`, which only main.cpp calls, the
-- lookup of a worker by a text, the connections, the errors of pods, which are only written, and its
-- network interfaces; and the rest of the workers, whose processes and files are the system's.
pub mod Prelude
pub mod Text
pub mod SearchId
pub mod Page
pub mod SearchBox
pub mod Results
pub mod Dynsections
pub mod Menu
pub mod Manager
pub mod Worker
