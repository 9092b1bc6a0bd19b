-- ===== src/Manager/SnapshotFile.antt =====
-- manager/Manager.cpp: the file that `snapshot` writes, and the part of `recover` that reads it. A file is
-- the list of its lines.
use tiny_swarm.Prelude.{
  ℕ, Bool, false, List, [], ◌∷◌, ◌++◌, map, Option, none, some, if◌then◌else◌, get_elem?,
}
use tiny_swarm.Prelude.Int.{ℤ, pos, negsuc}
use tiny_swarm.Text.{Str, codes, ◌==s◌}
use tiny_swarm.Text.Stream.{Stream, get_word, get_int, print_int}
use tiny_swarm.Manager.Pod.{
  PodDescriptor, WorkerDescriptor, alive_int, get_flag, to_snapshot_message, snapshot_to_pod,
}
use tiny_swarm.Manager.Core.{Node, Manager}
use tiny_swarm.Manager.Calls.{emplace_pod}
use tiny_swarm.Manager.Log.{blank_pod}

abbrev pub workers_end : Str
workers_end = codes "WorkerDescriptorEND"

abbrev pub pods_end : Str
pods_end = codes "ServiceDescriptorEND"

-- The line of a worker; the time of its last call is not ours.
unfoldable pub worker_line : (WorkerDescriptor → Str) → WorkerDescriptor → Str
unfolding print_int
worker_line time wd =
    wd.ip
    ++ (b' ' ∷ (print_int wd.port ++ (b' ' ∷ (print_int (alive_int wd.alive) ++ (b' ' ∷ time wd)))))

abbrev pub bound_line : PodDescriptor → Option WorkerDescriptor → Option Str
bound_line pod none = none
bound_line pod (some wd) = some (to_snapshot_message wd pod)

abbrev pub worker_of : Option ℕ → List WorkerDescriptor → Option WorkerDescriptor
worker_of none workers = none
worker_of (some w) workers = get_elem? workers w

abbrev pub add_line : Option Str → Option (List Str) → Option (List Str)
add_line (some line) (some lines) = some (line ∷ lines)
add_line line lines = none

-- The lines of the pods; none if a pod has no worker.
unfoldable pub pod_lines : List WorkerDescriptor → List Node → Option (List Str)
unfolding to_snapshot_message
pod_lines workers [] = some []
pod_lines workers (n ∷ nodes) =
    add_line (bound_line n.pod (worker_of n.pod.worker workers)) (pod_lines workers nodes)

abbrev pub whole_file : (WorkerDescriptor → Str) → Manager → Option (List Str) → Option (List Str)
whole_file time m none = none
whole_file time m (some lines) = some (
    print_int (pos m.cur_line)
    ∷ (map (worker_line time) m.workers ++ (workers_end ∷ (lines ++ (pods_end ∷ [])))))

unfoldable pub write_snapshot : (WorkerDescriptor → Str) → Manager → Option (List Str)
unfolding print_int worker_line pod_lines
write_snapshot time m = whole_file time m (pod_lines m.workers m.pods)

-- `ss >> wd->ip >> wd->port >> wd->alive`, whose numbers have no value before they are read.
abbrev pub worker_flag : Str → ℤ → Bool × Stream → WorkerDescriptor
worker_flag ip port (alive, s) = record { ip = ip; port = port; alive = alive; pods = [] }

abbrev pub worker_port : Str → ℤ × Stream → WorkerDescriptor
worker_port ip (port, s) = worker_flag ip port (get_flag s false)

abbrev pub worker_ip : Str × Stream → WorkerDescriptor
worker_ip (ip, s) = worker_port ip (get_int s (pos 0))

unfoldable pub parse_worker : Str → WorkerDescriptor
unfolding get_word get_int get_flag
parse_worker line = worker_ip (get_word (some line) [])

-- The loop over the lines of the workers: what it leaves of the file.
unfoldable pub read_workers : List Str → Manager → Manager × List Str
unfolding parse_worker ◌==s◌
read_workers [] m = (m, [])
read_workers (line ∷ lines) m =
    let rest = read_workers lines (record m { workers = m.workers ++ (parse_worker line ∷ []) }) in
    if line ==s workers_end then (m, lines) else rest

abbrev pub with_info : Option PodDescriptor → (PodDescriptor → Option Manager) → Option Manager
with_info none f = none
with_info (some info) f = f info

-- The loop over the lines of the pods; none if it throws.
unfoldable pub read_pods : List Str → Manager → Option Manager
unfolding snapshot_to_pod emplace_pod ◌==s◌
read_pods [] m = some m
read_pods (line ∷ lines) m =
    let rest =
      with_info (snapshot_to_pod m.workers line blank_pod)
        (λ info. read_pods lines (emplace_pod info m).0) in
    if line ==s pods_end then some m else rest

abbrev pub read_rest : Manager × List Str → Option Manager
read_rest (m, lines) = read_pods lines m

-- `cur_line = std::stoi(line)`, which throws without a number; a negative one would skip no line, as 0.
abbrev pub read_from : ℤ × Stream → List Str → Manager → Option Manager
read_from (z, none) lines m = none
read_from (pos n, some s) lines m = read_rest (read_workers lines (record m { cur_line = n }))
read_from (negsuc n, some s) lines m = read_rest (read_workers lines (record m { cur_line = 0 }))

unfoldable pub read_snapshot : List Str → Manager → Option Manager
unfolding get_int read_workers read_pods
read_snapshot [] m = none
read_snapshot (line ∷ lines) m = read_from (get_int (some line) (pos 0)) lines m
