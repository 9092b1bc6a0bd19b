-- ===== src/Manager/Log.antt =====
-- manager/Manager.cpp, `parseLogLine` and the loop of `recover` over the lines of the log.
use tiny_swarm.Prelude.{false, ◌||◌, List, [], ◌∷◌, Option, none, some, if◌then◌else◌, drop}
use tiny_swarm.Prelude.Int.{pos}
use tiny_swarm.Text.{Str, codes, ◌==s◌}
use tiny_swarm.Text.Stream.{Stream, get_word}
use tiny_swarm.Manager.Pod.{PodDescriptor, host, snapshot_to_pod}
use tiny_swarm.Manager.Core.{Manager, erase_pod}
use tiny_swarm.Manager.Calls.{emplace_pod}

-- `PodDescriptor info;`, whose numbers have no value before they are read.
abbrev pub blank_pod : PodDescriptor
blank_pod = record {
  service = [];
  alias = [];
  type = host;
  alive = false;
  worker = none;
  exe_params = [];
  docker_params = [];
  ip = [];
  port = pos 0;
  restart = pos 0;
}

-- `std::getline(stream, word, '\n')` in a single line: what is left of it.
abbrev rest_of : Stream → Str
rest_of none = []
rest_of (some s) = s

-- `DSE alias result`
abbrev pub parse_stop : Str × Stream → Manager → Manager
parse_stop (alias, s) m =
    let (result, s₁) = get_word s [] in if result ==s codes "Success" then erase_pod alias m else m

abbrev pub keep_pod : Option PodDescriptor → Manager → Option Manager
keep_pod none m = none
keep_pod (some pod) m = some (emplace_pod pod m).0

-- `CSE alias Fail`, or `CSE` and the line of a pod; it throws what `snapshotToServiceInfo` throws.
abbrev pub parse_create : Str × Stream → Str → Manager → Option Manager
parse_create (alias, s) line m =
    let (result, s₁) = get_word s [] in
    if result ==s codes "Fail"
    then some m
    else keep_pod (snapshot_to_pod m.workers line blank_pod) m

abbrev pub parse_rest : Str × Stream → Manager → Option Manager
parse_rest (word, s) m =
    if (word ==s codes "CSS") || (word ==s codes "DSS")
    then some m
    else if word ==s codes "DSE"
    then some (parse_stop (get_word s []) m)
    else if word ==s codes "CSE"
    then parse_create (get_word (some (rest_of s)) []) (rest_of s) m
    else some m

unfoldable pub parse_log_line : Str → Manager → Option Manager
unfolding get_word emplace_pod erase_pod snapshot_to_pod ◌==s◌
parse_log_line line m = parse_rest (get_word (some line) []) m

abbrev pub and_then : Option Manager → (Manager → Option Manager) → Option Manager
and_then none f = none
and_then (some m) f = f m

unfoldable pub replay : List Str → Manager → Option Manager
unfolding parse_log_line
replay [] m = some m
replay (line ∷ lines) m = and_then (parse_log_line line m) (λ m'. replay lines m')

-- The loop of `recover` over manager.log: the lines that the snapshot covers are skipped.
unfoldable pub replay_log : List Str → Manager → Option Manager
unfolding replay
replay_log log m = replay (drop m.cur_line log) m
