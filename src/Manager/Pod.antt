-- ===== src/Manager/Pod.antt =====
-- manager/PodDescriptor, manager/WorkerDescriptor.h, and `snapshotToServiceInfo` of manager/Manager.cpp:
-- a pod as the manager sees it, and its line in the snapshot. A worker is known by its position in the
-- manager's list, from which none is removed; its session is left out.
pub mod Snapshot
use tiny_swarm.Prelude.{
  ℕ, zero, suc, ◌+◌, ◌-◌, Bool, true, false, ◌&&◌, List, [], ◌∷◌, ◌++◌, Option, none, some, ◌==◌,
  if◌then◌else◌, length, take, drop,
}
use tiny_swarm.Prelude.Int.{ℤ, pos, negsuc, ◌==ℤ◌}
use tiny_swarm.Text.{Str, codes, ◌==s◌}
use tiny_swarm.Text.Stream.{Stream, get_word, get_int, print_int, get_items}

pub data ServiceType : Type 0 where
  host docker : ServiceType

pub record PodDescriptor : Type 0 where
  pub service : Str
  pub alias : Str
  pub type : ServiceType
  pub alive : Bool
  pub worker : Option ℕ
  pub exe_params : List Str
  pub docker_params : List Str
  pub ip : Str
  pub port : ℤ
  pub restart : ℤ

-- The pods are pointers to the nodes of the manager's map.
pub record WorkerDescriptor : Type 0 where
  pub ip : Str
  pub port : ℤ
  pub alive : Bool
  pub pods : List ℕ

abbrev pub type_text : ServiceType → Str
type_text host = codes "host"
type_text docker = codes "docker"

abbrev pub alive_int : Bool → ℤ
alive_int false = pos 0
alive_int true = pos 1

-- `for (auto &params: exe_params_) { snapshot += params; snapshot += ","; }`
unfoldable pub print_params : List Str → Str
print_params [] = []
print_params (p ∷ ps) = p ++ (b',' ∷ print_params ps)

-- The fields of a pod in its line, each behind a blank. Both lists are printed from `exe_params_`.
abbrev pub fields_behind_alias : WorkerDescriptor → PodDescriptor → Str
fields_behind_alias wd pod =
    b' '
    ∷ (type_text pod.type
        ++ (b' '
            ∷ (print_int pod.port
                ++ (b' '
                    ∷ (print_int (alive_int pod.alive)
                        ++ (b' '
                            ∷ (wd.ip
                                ++ (b' '
                                    ∷ (print_int wd.port
                                        ++ (b' '
                                            ∷ ((b'{' ∷ (print_params pod.exe_params ++ codes "}"))
                                                ++ (b' '
                                                    ∷ ((b'{'
                                                          ∷ (print_params pod.exe_params
                                                            ++ codes "}"))
                                                        ++ (b' '
                                                            ∷ (print_int pod.restart
                                                            ++ [])))))))))))))))

unfoldable pub snapshot_fields : WorkerDescriptor → PodDescriptor → Str
unfolding print_int print_params
snapshot_fields wd pod = b' ' ∷ (pod.alias ++ fields_behind_alias wd pod)

-- `toSnapshotMessage`, of a pod that is bound to this worker.
unfoldable pub to_snapshot_message : WorkerDescriptor → PodDescriptor → Str
unfolding snapshot_fields
to_snapshot_message wd pod = pod.service ++ snapshot_fields wd pod

-- `toGossipMessage`; no blank stands before the port.
unfoldable pub to_gossip_message : WorkerDescriptor → PodDescriptor → Str
unfolding print_int
to_gossip_message wd pod =
    wd.ip
    ++ (b' '
        ∷ (print_int wd.port
            ++ (b' ' ∷ (pod.service ++ (b' ' ∷ (pod.alias ++ print_int pod.port))))))

-- `findWorkerDescriptor(ip, port)`
unfoldable pub find_worker_from : ℕ → Str → ℤ → List WorkerDescriptor → Option ℕ
find_worker_from i ip port [] = none
find_worker_from i ip port (wd ∷ workers) =
    let rest = find_worker_from (i + 1) ip port workers in
    if wd.ip ==s ip && wd.port ==ℤ port then some i else rest

unfoldable pub find_worker : Str → ℤ → List WorkerDescriptor → Option ℕ
unfolding find_worker_from
find_worker ip port workers = find_worker_from 0 ip port workers

-- `stream >> flag`: 0 and 1 are read, and any other number fails and sets the flag.
abbrev pub flag_of : ℤ × Stream → Bool × Stream
flag_of (pos zero, s) = (false, s)
flag_of (pos (suc zero), s) = (true, s)
flag_of (z, s) = (true, none)

unfoldable pub get_flag : Stream → Bool → Bool × Stream
unfolding get_int
get_flag s old = flag_of (get_int s (alive_int old))

-- `params.substr(1, params.size() - 2)`, which throws at an empty text.
unfoldable pub inner_text : Str → Option Str
inner_text [] = none
inner_text (c ∷ s) = some (take (length s - 1) s)

-- `params` behind the loop over its items: empty if the text ends with a delimiter, and else the last.
unfoldable pub last_item : Str → Str → Str
last_item item [] = item
last_item item (c ∷ s) =
    let next = last_item [] s in
    let more = last_item (item ++ (c ∷ [])) s in if c == b',' then next else more

-- `snapshotToServiceInfo` from its last extraction back to its first: each function is given what has
-- been extracted, and extracts the next field. It throws if it finds no params.
abbrev pub set_docker_params : Option Str → ℤ × Stream → PodDescriptor → Option PodDescriptor
set_docker_params none (restart, s) info = none
set_docker_params (some inner) (restart, s) info = some (record info {
  docker_params = info.docker_params ++ get_items b',' [] inner;
  restart = restart;
})

abbrev pub read_restart : Str × Stream → PodDescriptor → Option PodDescriptor
read_restart (params, s) info = set_docker_params (inner_text params) (get_int s info.restart) info

abbrev pub set_exe_params : Option Str → Stream → PodDescriptor → Option PodDescriptor
set_exe_params none s info = none
set_exe_params (some inner) s info =
    read_restart (get_word s (last_item [] inner))
      (record info { exe_params = info.exe_params ++ get_items b',' [] inner })

abbrev pub read_params : Str × Stream → PodDescriptor → Option PodDescriptor
read_params (params, s) info = set_exe_params (inner_text params) s info

abbrev pub set_worker :
    Str → ℤ × Stream → List WorkerDescriptor → PodDescriptor → Option PodDescriptor
set_worker ip (port, s) workers info =
    read_params (get_word s []) (record info { worker = find_worker ip port workers })

-- `port` is a local variable without a value; it is 0 here until it is read.
abbrev pub read_address :
    Str × Stream → List WorkerDescriptor → PodDescriptor → Option PodDescriptor
read_address (ip, s) workers info = set_worker ip (get_int s (pos 0)) workers info

abbrev pub set_alive : Bool × Stream → List WorkerDescriptor → PodDescriptor → Option PodDescriptor
set_alive (alive, s) workers info =
    read_address (get_word s []) workers (record info { alive = alive })

abbrev pub set_port : ℤ × Stream → List WorkerDescriptor → PodDescriptor → Option PodDescriptor
set_port (port, s) workers info =
    set_alive (get_flag s info.alive) workers (record info { port = port })

abbrev pub set_type : Str × Stream → List WorkerDescriptor → PodDescriptor → Option PodDescriptor
set_type (type, s) workers info =
    set_port (get_int s info.port) workers
      (record info { type = if type ==s codes "host" then host else docker })

abbrev pub set_alias : Str × Stream → List WorkerDescriptor → PodDescriptor → Option PodDescriptor
set_alias (alias, s) workers info = set_type (get_word s []) workers (record info { alias = alias })

abbrev pub set_service : Str × Stream → List WorkerDescriptor → PodDescriptor → Option PodDescriptor
set_service (service, s) workers info =
    set_alias (get_word s info.alias) workers (record info { service = service })

unfoldable pub snapshot_to_pod : List WorkerDescriptor → Str → PodDescriptor → Option PodDescriptor
unfolding get_word get_int get_flag find_worker inner_text last_item get_items ◌==s◌
snapshot_to_pod workers line info = set_service (get_word (some line) info.service) workers info
