-- ===== src/Manager/RecoverRuns.antt =====
-- Runs of a manager that recovers, and the theorems about it at concrete states.
use tiny_swarm.Prelude.{◌≡◌, refl, Bool, true, false, map, List, [], ◌∷◌, ◌++◌, some, arith}
use tiny_swarm.Text.{Str, codes, ◌==s◌}
use tiny_swarm.Manager.Pod.{WorkerDescriptor}
use tiny_swarm.Manager.Core.{
  Node, Manager, done, find_node, find_alias, append_line, update_pod, update_node,
}
use tiny_swarm.Manager.Runs.{worker, fresh}
use tiny_swarm.Text.Stream.{is_space, skip_space, get_word, get_int}
use tiny_swarm.Manager.Pod.{find_worker, get_flag, snapshot_to_pod}
use tiny_swarm.Manager.SnapshotFile.{
  write_snapshot, read_snapshot, read_workers, read_pods, parse_worker,
}
use tiny_swarm.Manager.Restored.{IsSaved}
use tiny_swarm.Manager.Reading.{pod_under, saved_found, read_snapshot-write_snapshot}
use tiny_swarm.Manager.Forgotten.{new_lines_skipped}
use tiny_swarm.Manager.Recover.{
  start_all, connect_all, node_address, logged_from, snapshot_from, recover,
}
use tiny_swarm.Manager.Log.{replay, replay_log}
use tiny_swarm.Manager.Calls.{create_service, create_rounds, emplace_pod}
use tiny_swarm.Manager.Startable.{IsStartable}
use tiny_swarm.Manager.Starts.{failed_starts, start_all_lem}
use tiny_swarm.Manager.Runs.{hello-IsPrintable}
use tiny_swarm.Manager.PodRuns.{node, busy, running, refuses}

node-IsSaved : IsSaved (busy ∷ []) node
unfolding find_worker is_space ◌==s◌
node-IsSaved = record {
  w = 0;
  wd = busy;
  bound = refl;
  there = refl;
  printable = record {
    service_word = hello-IsPrintable.service_word;
    alias_word = record { solid = (refl, (refl, (refl, (refl, tt)))); filled = λ e. cc };
    ip_word = hello-IsPrintable.ip_word;
    port_int = hello-IsPrintable.port_int;
    worker_port_int = hello-IsPrintable.worker_port_int;
    restart_int = hello-IsPrintable.restart_int;
    params = hello-IsPrintable.params;
  };
  known = refl;
}

abbrev noon : WorkerDescriptor → Str
noon wd = codes "43200"

read_snapshot-write_snapshot_example :
    (lines : List Str) × (r : Manager) × (write_snapshot noon (running []) ≡ some lines)
    × (read_snapshot lines (record (fresh []) { workers = [] }) ≡ some r)
    × (r.cur_line ≡ 0)
    × (r.workers ≡ worker ∷ [])
    × (pod_under (codes "my_0") r.pods ≡ saved_found (pod_under (codes "my_0") (node ∷ [])))
read_snapshot-write_snapshot_example =
    read_snapshot-write_snapshot noon (running []) (record (fresh []) { workers = [] })
      (codes "my_0") (omega arith)
      (
        record {
          ip_word = hello-IsPrintable.ip_word;
          port_int = hello-IsPrintable.worker_port_int;
        },
        tt,
      )
      (node-IsSaved, tt) refl refl

node-IsStartable : IsStartable (node ∷ []) (busy ∷ []) 1
unfolding find_node
node-IsStartable = record {
  node = node;
  w = 0;
  wd = busy;
  stored = refl;
  bound = refl;
  there = refl;
}

start_all_lem_example :
    (m' : Manager) × (start_all (1 ∷ []) (running refuses) ≡ done m' tt)
    × (m'.down_services ≡ [] ++ failed_starts (1 ∷ []) refuses)
    × (m'.workers ≡ busy ∷ [])
    × (m'.replies ≡ [])
unfolding ◌==s◌
start_all_lem_example =
    start_all_lem (1 ∷ []) refuses [] (running refuses) (node-IsStartable, tt) (refl, tt) refl

one_is_down : failed_starts (1 ∷ []) refuses ≡ 1 ∷ []
unfolding failed_starts ◌==s◌
one_is_down = refl

-- The files of a manager that has had the pod, and the state behind them.
abbrev left_file : List Str
left_file =
    codes "0"
    ∷ codes "h1 8989 1 43200"
    ∷ codes "WorkerDescriptorEND"
    ∷ codes "hi my_0 host 80 1 h1 8989 {-p} {-p} 0"
    ∷ codes "ServiceDescriptorEND"
    ∷ []

abbrev loaded_node : Node
loaded_node = record node { pod = record node.pod { ip = []; docker_params = codes "-p" ∷ [] } }

abbrev empty : Manager
empty = record (fresh refuses) { workers = [] }

abbrev loaded : Manager
loaded = record (fresh refuses) { pods = loaded_node ∷ []; next_address = 2 }

loaded_lem : logged_from [] (snapshot_from (some left_file) empty) ≡ some loaded
unfolding replay_log replay read_snapshot read_workers read_pods parse_worker get_word get_int
    get_flag snapshot_to_pod emplace_pod find_alias find_worker skip_space is_space ◌==s◌
loaded_lem = refl

abbrev connects : WorkerDescriptor → Bool
connects wd = true

abbrev counted_node : Node
counted_node = record loaded_node { pod = record loaded_node.pod { alive = false } }

-- The worker refuses the pod, which adds two lines to the log.
abbrev counted : Manager
counted = record loaded {
  pods = counted_node ∷ [];
  down_services = 1 ∷ [];
  log = codes "CSS my_0" ∷ codes "CSE my_0 Fail" ∷ [];
  log_count = 2;
  cur_line = 2;
  replies = [];
}

counted_lem :
    start_all (map node_address (connect_all connects loaded).pods) (connect_all connects loaded)
    ≡ done counted tt
unfolding start_all connect_all create_service create_rounds find_node append_line update_pod
    update_node ◌==s◌
counted_lem = refl

counted_node-IsSaved : IsSaved (worker ∷ []) counted_node
unfolding find_worker is_space ◌==s◌
counted_node-IsSaved = record {
  w = 0;
  wd = worker;
  bound = refl;
  there = refl;
  printable = record {
    service_word = hello-IsPrintable.service_word;
    alias_word = record { solid = (refl, (refl, (refl, (refl, tt)))); filled = λ e. cc };
    ip_word = hello-IsPrintable.ip_word;
    port_int = hello-IsPrintable.port_int;
    worker_port_int = hello-IsPrintable.worker_port_int;
    restart_int = hello-IsPrintable.restart_int;
    params = hello-IsPrintable.params;
  };
  known = refl;
}

-- The two first lines of the new log are not read.
new_lines_skipped_example :
    (left : List Str) × (r : Manager) × (recover connects noon (some left_file) [] empty
      ≡ done (record counted { log = []; cur_line = 0 }) left)
    × (read_snapshot left empty ≡ some r)
    × (r.cur_line ≡ 2)
    × (logged_from
          (codes "DSS my_0" ∷ codes "DSE my_0 Success" ∷ [])
          (snapshot_from (some left) empty)
        ≡ replay [] r)
new_lines_skipped_example =
    new_lines_skipped connects noon (some left_file) []
      (codes "DSS my_0" ∷ codes "DSE my_0 Success" ∷ []) empty loaded counted empty loaded_lem
      counted_lem (omega arith)
      (
        record {
          ip_word = hello-IsPrintable.ip_word;
          port_int = hello-IsPrintable.worker_port_int;
        },
        tt,
      )
      (counted_node-IsSaved, tt) refl refl
