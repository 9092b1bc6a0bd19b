-- ===== src/Manager/Pod/Snapshot.antt =====
-- manager/PodDescriptor.cpp and manager/Manager.cpp: what a line of the snapshot keeps of a pod.
use tiny_swarm.Prelude.{
  ◌≡◌, ◌≢◌, refl, sym, ap, ap₂, ◌∙◌, Bool, true, false, List, [], ◌∷◌, ◌++◌, append_assoc,
  append-nil, some, if◌then◌else◌, take, All, All-append, arith, length-append, take-append,
}
use tiny_swarm.Prelude.Int.{pos}
use tiny_swarm.Text.{Str, codes, ◌==s◌}
use tiny_swarm.Text.Stream.{is_space, get_word, get_int, print_int, get_items}
use tiny_swarm.Text.Stream.Words.{IsSolid, IsWord, ends_word, get_word-append, get_word-blank}
use tiny_swarm.Text.Stream.Integers.{IsInt, get_int-print_int}
use tiny_swarm.Manager.Pod.{
  ServiceType, host, docker, PodDescriptor, WorkerDescriptor, type_text, alive_int, print_params,
  snapshot_fields, to_snapshot_message, find_worker, flag_of, get_flag, inner_text, last_item,
  set_docker_params, read_restart, set_exe_params, read_params, set_worker, read_address, set_alive,
  set_port, set_type, set_alias, set_service, snapshot_to_pod,
}

-- A parameter without white space and comma.
abbrev IsParam : Str → Type 0
IsParam p = IsSolid p × All (λ c. c ≢ b',') p

-- A pod and its worker whose texts are words and whose integers fit into an `int`.
pub record IsPrintable (wd : WorkerDescriptor) (pod : PodDescriptor) : Type 0 where
  pub service_word : IsWord pod.service
  pub alias_word : IsWord pod.alias
  pub ip_word : IsWord wd.ip
  pub port_int : IsInt pod.port
  pub worker_port_int : IsInt wd.port
  pub restart_int : IsInt pod.restart
  pub params : All IsParam pod.exe_params

-- Reading a parameter in front of a comma.
get_items-append :
    (item p rest : Str)
    → All (λ c. c ≢ b',') p
    → get_items b',' item (p ++ (b',' ∷ rest)) ≡ (item ++ p) ∷ get_items b',' [] rest
unfolding get_items
get_items-append item [] rest h = ap (λ i. i ∷ get_items b',' [] rest) (sym (append-nil item))
get_items-append item (c ∷ p) rest h =
    ground
      (arith, h.0, get_items-append (item ++ (c ∷ [])) p rest h.1, append_assoc item (c ∷ []) p)

get_items-print_params : (ps : List Str) → All IsParam ps → get_items b',' [] (print_params ps) ≡ ps
unfolding get_items print_params
get_items-print_params [] h = refl
get_items-print_params (p ∷ ps) h =
    get_items-append [] p (print_params ps) h.0.1
    ∙ ap (λ qs. p ∷ qs) (get_items-print_params ps h.1)

print_params-IsSolid : (ps : List Str) → All IsParam ps → IsSolid (print_params ps)
unfolding print_params is_space
print_params-IsSolid [] h = tt
print_params-IsSolid (p ∷ ps) h =
    All-append _ p (b',' ∷ print_params ps) h.0.0 (refl, print_params-IsSolid ps h.1)

-- The text of the parameters in its braces.
abbrev in_braces : List Str → Str
in_braces ps = b'{' ∷ (print_params ps ++ codes "}")

in_braces-IsWord : (ps : List Str) → All IsParam ps → IsWord (in_braces ps)
unfolding is_space
in_braces-IsWord ps h = record {
  solid = (refl, All-append _ (print_params ps) (codes "}") (print_params-IsSolid ps h) (refl, tt));
  filled = λ e. cc;
}

inner_text-in_braces : (ps : List Str) → inner_text (in_braces ps) ≡ some (print_params ps)
unfolding inner_text
inner_text-in_braces ps =
    ap (λ n. some (take n (print_params ps ++ codes "}")))
      (omega (arith, length-append (print_params ps) (codes "}")))
    ∙ ap some (take-append (print_params ps) (codes "}"))

type-IsWord : (t : ServiceType) → IsWord (type_text t)
unfolding is_space
type-IsWord host = record { solid = (refl, (refl, (refl, (refl, tt)))); filled = λ e. cc }
type-IsWord docker = record {
  solid = (refl, (refl, (refl, (refl, (refl, (refl, tt))))));
  filled = λ e. cc;
}

type_of-text : (t : ServiceType) → (if type_text t ==s codes "host" then host else docker) ≡ t
unfolding ◌==s◌
type_of-text host = refl
type_of-text docker = refl

pub get_flag-print :
    (b old : Bool) (rest : Str)
    → ends_word rest ≡ true
    → get_flag (some (b' ' ∷ (print_int (alive_int b) ++ rest))) old ≡ (b, some rest)
unfolding get_flag
get_flag-print false old rest e =
    ap flag_of (get_int-print_int (pos 0) (alive_int old) rest (omega arith) e)
get_flag-print true old rest e =
    ap flag_of (get_int-print_int (pos 1) (alive_int old) rest (omega arith) e)

-- What the parser makes of a printed pod.
abbrev pub restored :
    List WorkerDescriptor → WorkerDescriptor → PodDescriptor → PodDescriptor → PodDescriptor
restored workers wd pod info = record info {
  service = pod.service;
  alias = pod.alias;
  type = pod.type;
  port = pod.port;
  alive = pod.alive;
  worker = find_worker wd.ip wd.port workers;
  exe_params = info.exe_params ++ pod.exe_params;
  docker_params = info.docker_params ++ pod.exe_params;
  restart = pod.restart;
}

module _ (wd : WorkerDescriptor) (pod : PodDescriptor) (h : IsPrintable wd pod) where
  abbrev after_exe : Str
  after_exe = b' ' ∷ (in_braces pod.exe_params ++ (b' ' ∷ (print_int pod.restart ++ [])))

  read_docker-print :
      (old : Str) (info : PodDescriptor)
      → read_restart (get_word (some after_exe) old) info
        ≡ some (record info {
          docker_params = info.docker_params ++ pod.exe_params;
          restart = pod.restart;
        })
  unfolding is_space
  read_docker-print old info =
      let braces = in_braces pod.exe_params in
      ap (λ g. read_restart g info)
        (get_word-blank braces (b' ' ∷ (print_int pod.restart ++ [])) old
          (in_braces-IsWord pod.exe_params h.params) refl)
      ∙ ap₂ (λ inner g. set_docker_params inner g info) (inner_text-in_braces pod.exe_params)
          (get_int-print_int pod.restart info.restart [] h.restart_int refl)
      ∙ ap
          (λ items.
            some
              (record info { docker_params = info.docker_params ++ items; restart = pod.restart }))
          (get_items-print_params pod.exe_params h.params)

  read_params-print :
      (info : PodDescriptor)
      → read_params (get_word (some (b' ' ∷ (in_braces pod.exe_params ++ after_exe))) []) info
        ≡ some (record info {
          exe_params = info.exe_params ++ pod.exe_params;
          docker_params = info.docker_params ++ pod.exe_params;
          restart = pod.restart;
        })
  unfolding is_space
  read_params-print info =
      let printed = print_params pod.exe_params in
      ap (λ g. read_params g info)
        (get_word-blank (in_braces pod.exe_params) after_exe []
          (in_braces-IsWord pod.exe_params h.params) refl)
      ∙ ap (λ inner. set_exe_params inner (some after_exe) info)
          (inner_text-in_braces pod.exe_params)
      ∙ read_docker-print (last_item [] printed)
          (record info { exe_params = info.exe_params ++ get_items b',' [] printed })
      ∙ ap
          (λ items. some (record info {
            exe_params = info.exe_params ++ items;
            docker_params = info.docker_params ++ pod.exe_params;
            restart = pod.restart;
          }))
          (get_items-print_params pod.exe_params h.params)

  snapshot_fields-print :
      (workers : List WorkerDescriptor) (info : PodDescriptor)
      → set_alias
          (get_word (some (snapshot_fields wd pod)) info.alias)
          workers
          (record info { service = pod.service })
        ≡ some (restored workers wd pod info)
  unfolding snapshot_fields ◌==s◌ is_space
  snapshot_fields-print workers info =
      let behind_port = b' ' ∷ (in_braces pod.exe_params ++ after_exe) in
      let behind_ip = b' ' ∷ (print_int wd.port ++ behind_port) in
      let behind_alive = b' ' ∷ (wd.ip ++ behind_ip) in
      let behind_pod_port = b' ' ∷ (print_int (alive_int pod.alive) ++ behind_alive) in
      let behind_type = b' ' ∷ (print_int pod.port ++ behind_pod_port) in
      let behind_alias = b' ' ∷ (type_text pod.type ++ behind_type) in
      let named = record info { service = pod.service; alias = pod.alias } in
      let typed = record named { type = pod.type } in
      let bound = record typed { port = pod.port } in
      let flagged = record bound { alive = pod.alive } in
      ap (λ g. set_alias g workers (record info { service = pod.service }))
        (get_word-blank pod.alias behind_alias info.alias h.alias_word refl)
      ∙ ap (λ g. set_type g workers named)
          (get_word-blank (type_text pod.type) behind_type [] (type-IsWord pod.type) refl)
      ∙ ap
          (λ t. set_port (get_int (some behind_type) info.port) workers (record named { type = t }))
          (type_of-text pod.type)
      ∙ ap (λ g. set_port g workers typed)
          (get_int-print_int pod.port info.port behind_pod_port h.port_int refl)
      ∙ ap (λ g. set_alive g workers bound) (get_flag-print pod.alive info.alive behind_alive refl)
      ∙ ap (λ g. read_address g workers flagged) (get_word-blank wd.ip behind_ip [] h.ip_word refl)
      ∙ ap (λ g. set_worker wd.ip g workers flagged)
          (get_int-print_int wd.port (pos 0) behind_port h.worker_port_int refl)
      ∙ read_params-print (record flagged { worker = find_worker wd.ip wd.port workers })

  -- A pod whose texts are words and whose integers fit is read back from its line with its service,
  -- alias, type, port, state, restarts and exe params, and bound to the first worker with its worker's
  -- address. But its exe params become its docker params too, and its own address is not restored.
  pub snapshot_roundtrip :
      (workers : List WorkerDescriptor) (info : PodDescriptor)
      → snapshot_to_pod workers (to_snapshot_message wd pod) info
        ≡ some (restored workers wd pod info)
  unfolding snapshot_to_pod to_snapshot_message snapshot_fields is_space
  snapshot_roundtrip workers info =
      ap (λ g. set_service g workers info)
        (get_word-append pod.service (snapshot_fields wd pod) info.service h.service_word refl)
      ∙ snapshot_fields-print workers info

  -- The log has a blank in front of the line.
  pub snapshot_roundtrip_blank :
      (workers : List WorkerDescriptor) (info : PodDescriptor)
      → snapshot_to_pod workers (b' ' ∷ to_snapshot_message wd pod) info
        ≡ some (restored workers wd pod info)
  unfolding snapshot_to_pod to_snapshot_message snapshot_fields is_space
  snapshot_roundtrip_blank workers info =
      ap (λ g. set_service g workers info)
        (get_word-blank pod.service (snapshot_fields wd pod) info.service h.service_word refl)
      ∙ snapshot_fields-print workers info
