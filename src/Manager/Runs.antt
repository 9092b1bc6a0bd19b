-- ===== src/Manager/Runs.antt =====
-- Runs of the manager, and the theorems about it at concrete states.
use tiny_swarm.Prelude.{
  ℕ, ◌≡◌, refl, true, false, List, [], ◌∷◌, ◌++◌, map, Option, none, some, get_elem?, arith,
}
use tiny_swarm.Prelude.Int.{pos}
use tiny_swarm.Text.{codes, ◌==s◌}
use tiny_swarm.Text.Stream.{is_space}
use tiny_swarm.Manager.Pod.{
  host, PodDescriptor, WorkerDescriptor, find_worker, to_snapshot_message, snapshot_to_pod,
  to_gossip_message,
}
use tiny_swarm.Manager.Pod.Snapshot.{IsPrintable, restored, snapshot_roundtrip}
use tiny_swarm.Manager.Core.{
  Node, Reply, refused, agreed, Manager, done, created, failed, find_alias, find_node,
}
use tiny_swarm.Manager.Calls.{select_worker_to_create_pod}
use tiny_swarm.Manager.Asking.{IsNew}
use tiny_swarm.Manager.Creation.{refused_lem, with_pod, agreed_lem}
use tiny_swarm.Manager.GivenUp.{given_up_agreed, given_up_refused}
use tiny_swarm.Manager.Log.{blank_pod, replay}
use tiny_swarm.Manager.Steps.{IsOrdinary, with_worker, here, next}
use tiny_swarm.Manager.Logged.{logged}
use tiny_swarm.Manager.Recovery.{log_replays}
use tiny_swarm.Manager.Loss.{has_node}
use tiny_swarm.Text.{Str}
use tiny_swarm.Worker.Fork.{spawned, Machine, WorkerNode, fork_failed, check_if_alias_ok, fork}
use tiny_swarm.Worker.Refusal.{new_pod_refused}

abbrev pub first : List WorkerDescriptor → PodDescriptor → Option ℕ
first workers pod = some 0

abbrev pub worker : WorkerDescriptor
worker = record { ip = codes "h1"; port = pos 8989; alive = true; pods = [] }

abbrev pub hello : PodDescriptor
hello = record {
  service = codes "hi";
  alias = codes "my";
  type = host;
  alive = false;
  worker = none;
  exe_params = codes "-p" ∷ [];
  docker_params = [];
  ip = [];
  port = pos 80;
  restart = pos 0;
}

-- A manager with one worker and no pod.
abbrev pub fresh : List Reply → Manager
fresh replies = record {
  usr_info = codes "trc";
  workers = worker ∷ [];
  pods = [];
  next_address = 1;
  down_services = [];
  log = [];
  log_count = 0;
  cur_line = 0;
  published = [];
  replies = replies;
}

gossip_has_no_blank : to_gossip_message worker hello ≡ codes "h1 8989 hi my80"
unfolding to_gossip_message
gossip_has_no_blank = refl

hello-IsNew : (replies : List Reply) → IsNew hello 0 worker (fresh replies)
unfolding find_alias
hello-IsNew replies = record { new_alias = refl; chosen = refl; unknown = tt }

pub hello-IsPrintable : IsPrintable worker hello
unfolding is_space
hello-IsPrintable = record {
  service_word = record { solid = (refl, (refl, tt)); filled = λ e. cc };
  alias_word = record { solid = (refl, (refl, tt)); filled = λ e. cc };
  ip_word = record { solid = (refl, (refl, tt)); filled = λ e. cc };
  port_int = omega arith;
  worker_port_int = omega arith;
  restart_int = omega arith;
  params = (((refl, (refl, tt)), ((λ e. omega (arith, e)), ((λ e. omega (arith, e)), tt))), tt);
}

hello-IsOrdinary : (replies : List Reply) → IsOrdinary hello 0 worker (fresh replies)
unfolding ◌==s◌ find_worker
hello-IsOrdinary replies = record {
  new = hello-IsNew replies;
  printable = hello-IsPrintable;
  other = refl;
  known = refl;
}

snapshot_roundtrip_example :
    snapshot_to_pod (worker ∷ []) (to_snapshot_message worker hello) blank_pod
    ≡ some (restored (worker ∷ []) worker hello blank_pod)
snapshot_roundtrip_example =
    snapshot_roundtrip worker hello hello-IsPrintable (worker ∷ []) blank_pod

refused_lem_example :
    select_worker_to_create_pod first hello (fresh (refused (codes "no") ∷ []))
    ≡ done
        (record (fresh []) {
          next_address = 2;
          log = codes "CSS my" ∷ codes "CSE my Fail" ∷ [];
          log_count = 2;
          cur_line = 2;
        })
        (failed (codes "no"))
unfolding ◌==s◌
refused_lem_example =
    refused_lem first hello 0 worker (fresh (refused (codes "no") ∷ [])) (refused (codes "no"))
      (codes "no") [] (hello-IsNew _) refl refl refl

agreed_lem_example :
    select_worker_to_create_pod first hello (fresh (agreed ∷ []))
    ≡ done (with_pod hello 0 worker [] (fresh (agreed ∷ []))) (created 1)
agreed_lem_example =
    agreed_lem first hello 0 worker (fresh (agreed ∷ [])) [] (hello-IsNew _) refl refl

log_replays_example :
    (lines : List Str) × (r : Manager) × ((with_pod hello 0 worker [] (fresh (agreed ∷ []))).log
      ≡ [] ++ lines)
    × (replay lines (fresh []) ≡ some r)
    × (map logged r.pods ≡ map logged (with_pod hello 0 worker [] (fresh (agreed ∷ []))).pods)
    × (r.workers ≡ worker ∷ [])
log_replays_example =
    log_replays first (fresh []) (fresh (agreed ∷ []))
      (with_pod hello 0 worker [] (fresh (agreed ∷ [])))
      (next here (
        with_worker hello 0 worker agreed [] (created 1) (hello-IsOrdinary _) refl refl tt
          (agreed_lem first hello 0 worker (fresh (agreed ∷ [])) [] (hello-IsNew _) refl refl)))
      refl (λ ip port. refl)

given_up_agreed_example :
    (m' : Manager) × (n : Node) × (select_worker_to_create_pod first hello
        (fresh (refused (codes "Manager Down") ∷ agreed ∷ []))
      ≡ done m' (created 1))
    × (find_node 1 m'.pods ≡ some n)
    × (n.pod.alive ≡ true)
    × (m'.down_services ≡ 1 ∷ [])
    × (get_elem? m'.workers 0 ≡ some (record worker { pods = [] }))
given_up_agreed_example =
    given_up_agreed first hello 0 worker (fresh (refused (codes "Manager Down") ∷ agreed ∷ [])) []
      (hello-IsNew _) refl refl tt

given_up_refused_example :
    (m' : Manager) × (select_worker_to_create_pod first hello
        (fresh (refused (codes "Manager Down") ∷ refused (codes "no") ∷ []))
      ≡ done m' (failed (codes "no")))
    × (has_node 1 m'.pods ≡ false)
    × (m'.down_services ≡ 1 ∷ [])
unfolding has_node ◌==s◌
given_up_refused_example =
    given_up_refused first hello 0 worker
      (fresh (refused (codes "Manager Down") ∷ refused (codes "no") ∷ [])) (codes "no") []
      (hello-IsNew _) refl refl refl tt refl

-- A worker that has the service and no pod.
abbrev ready_machine : Machine
ready_machine = record {
  service_exists = true;
  port_free = true;
  spawn = spawned (pos 77);
  now = 0;
}

abbrev no_pods : WorkerNode
no_pods = record { pods = []; managers = []; records = [] }

new_pod_refused_example :
    (reason : Str) × (fork ready_machine (codes "trc") (codes "my") no_pods
      ≡ (no_pods, fork_failed reason))
    × (select_worker_to_create_pod first hello (fresh (refused [] ∷ []))
        ≡ done
            (record (fresh []) {
              next_address = 2;
              log = codes "CSS my" ∷ codes "CSE my Fail" ∷ [];
              log_count = 2;
              cur_line = 2;
            })
            (failed reason))
unfolding check_if_alias_ok fork
new_pod_refused_example =
    new_pod_refused first hello 0 worker (fresh (refused [] ∷ [])) ready_machine no_pods []
      (hello-IsNew _) refl refl refl
