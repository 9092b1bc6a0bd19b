-- ===== src/Manager/PodRuns.antt =====
-- Runs of a manager that has a pod, and the theorems about it at concrete states.
use tiny_swarm.Prelude.{◌+◌, ◌≡◌, refl, true, false, List, [], ◌∷◌, ◌++◌, some, length, arith}
use tiny_swarm.Prelude.Int.{pos}
use tiny_swarm.Text.{codes, ◌==s◌}
use tiny_swarm.Text.Digits.{to_string}
use tiny_swarm.Manager.Pod.{host, PodDescriptor, WorkerDescriptor}
use tiny_swarm.Manager.Core.{
  Node, Reply, refused, agreed, Manager, done, undefined, created, failed, find_alias, find_node,
  erase_node, remove_pointer,
}
use tiny_swarm.Manager.Calls.{select_worker_to_create_pod}
use tiny_swarm.Manager.Loss.{has_node}
use tiny_swarm.Manager.Stops.{kept, stop_pod}
use tiny_swarm.Manager.Telling.{IsStored}
use tiny_swarm.Manager.Stopping.{with_kept, stop_refused, stop_agreed}
use tiny_swarm.Manager.Checks.{Exit, no_answer, exits, check_services, reconnect}
use tiny_swarm.Manager.Checking.{check_lost_twice}
use tiny_swarm.Manager.Exits.{failed_pods, address_under, check_exits}
use tiny_swarm.Manager.Creation.{with_pod, agreed_lem}
use tiny_swarm.Manager.TakenName.{taken_refused}
use tiny_swarm.Manager.Transfers.{transfer_pod}
use tiny_swarm.Manager.Moving.{transfer_failed}
use tiny_swarm.Manager.Service.{
  prepare, ServiceDescriptor, pod_of, restart_alias, add_pod, restart_from, restart_failed_pods,
}
use tiny_swarm.Manager.Restarts.{Makes, none_left, one_more, restart_half, restart_ends}
use tiny_swarm.Manager.Collision.{restart_erases}
use tiny_swarm.Manager.Registry.{Registry, find_service, delete_service}
use tiny_swarm.Manager.Hung.{IsHung, shutdown_rounds}
use tiny_swarm.Manager.Deletion.{refused_hangs}
use tiny_swarm.Manager.Runs.{first, worker, hello, fresh}

-- The first pod of a service that is to have two.
abbrev pub node : Node
node = record {
  address = 1;
  pod = record hello { alias = codes "my_0"; worker = some 0; ip = codes "h1"; alive = true };
}

abbrev pub busy : WorkerDescriptor
busy = record worker { pods = 1 ∷ [] }

abbrev pub running : List Reply → Manager
running replies = record (fresh replies) { workers = busy ∷ []; pods = node ∷ []; next_address = 2 }

abbrev pub refuses : List Reply
refuses = refused (codes "no") ∷ []

abbrev pair : ServiceDescriptor
pair = record {
  token = codes "my";
  num = 2;
  proxy_address = codes "my";
  status = prepare;
  service = codes "hi";
  exe_params = codes "-p" ∷ [];
  docker_params = [];
  type = host;
  port = pos 80;
  restart = pos 0;
  pods = 1 ∷ [];
}

node-IsStored : (replies : List Reply) → IsStored node 0 busy (running replies)
unfolding find_node find_alias ◌==s◌
node-IsStored replies = record { by_address = refl; by_alias = refl; bound = refl; there = refl }

stop_refused_example :
    (m' : Manager) × (stop_pod 1 (running refuses)
      ≡ done (with_kept node 0 busy [] (running refuses)) (kept (codes "no")))
    × (stop_pod 1 (with_kept node 0 busy [] (running refuses))
        ≡ done m' (kept (codes "To shutdown a dead service")))
    × (m'.replies ≡ [])
unfolding ◌==s◌
stop_refused_example =
    stop_refused node 0 busy (running refuses) (refused (codes "no")) [] (codes "no")
      (node-IsStored refuses) refl refl refl

stop_agreed_example : stop_pod 1 (running (agreed ∷ [])) ≡ undefined
stop_agreed_example =
    stop_agreed node 0 busy (running (agreed ∷ [])) [] (node-IsStored (agreed ∷ [])) refl refl

check_lost_twice_example :
    (m₁ m₂ : Manager) × (check_services 0 no_answer (running []) ≡ some m₁)
    × (check_services 0 no_answer (reconnect 0 true m₁) ≡ some m₂)
    × (m₂.down_services ≡ 1 ∷ 1 ∷ [])
unfolding has_node
check_lost_twice_example = check_lost_twice 0 busy (running []) refl refl (refl, tt)

abbrev crash : Exit
crash = record { alias = codes "my_0"; exit_num = pos 3 }

check_exits_example :
    (m' : Manager) × (check_services 0 (exits (crash ∷ [])) (running []) ≡ some m')
    × (m'.down_services ≡ [] ++ failed_pods (crash ∷ []) (node ∷ []))
    × (m'.workers ≡ busy ∷ [])
unfolding ◌==s◌
check_exits_example = check_exits 0 busy (running []) crash [] refl refl refl

crash_is_down : failed_pods (crash ∷ []) (node ∷ []) ≡ 1 ∷ []
unfolding failed_pods address_under find_alias ◌==s◌
crash_is_down = refl

taken_refused_example :
    select_worker_to_create_pod first node.pod (running refuses)
    ≡ done
        (record (running []) {
          pods = erase_node 1 (node ∷ []);
          workers = record busy { pods = remove_pointer 1 (1 ∷ 1 ∷ []) } ∷ [];
          log = codes "CSS my_0" ∷ codes "CSE my_0 Fail" ∷ [];
          log_count = 2;
          cur_line = 2;
        })
        (failed (codes "no"))
unfolding find_node find_alias ◌==s◌
taken_refused_example =
    taken_refused first node.pod node (running refuses) refl refl 0 busy refl (refused (codes "no"))
      (codes "no") [] refl refl refl

restart_erases_example :
    (m' : Manager) × (restart_failed_pods (select_worker_to_create_pod first) pair (running refuses)
      ≡ done m' pair)
    × (m'.pods ≡ erase_node 1 (node ∷ []))
unfolding find_node find_alias ◌==s◌ to_string
restart_erases_example =
    restart_erases first pair [] node (running refuses) 0 busy (refused (codes "no")) (codes "no")
      [] refl refl refl refl refl refl refl refl refl

erased_is_gone : erase_node 1 (node ∷ []) ≡ []
unfolding erase_node
erased_is_gone = refl

transfer_failed_example :
    transfer_pod 1 (some 0) (running refuses)
    ≡ done
        (record (running []) {
          workers = record busy { pods = 1 ∷ 1 ∷ [] } ∷ [];
          log = codes "CSS my_0" ∷ codes "CSE my_0 Fail" ∷ [];
          log_count = 2;
          cur_line = 2;
        })
        false
unfolding find_node ◌==s◌
transfer_failed_example =
    transfer_failed node (running refuses) 0 busy (refused (codes "no")) (codes "no") [] refl refl
      refl refl

-- A service that lacks two pods, and a manager whose map has none of its pods any more, as a refused
-- restart leaves it.
abbrev triple : ServiceDescriptor
triple = record pair { num = 3 }

abbrev erased : List Reply → Manager
erased replies = record (fresh replies) { next_address = 2 }

abbrev asked : PodDescriptor
asked = pod_of triple (restart_alias triple)

triple_made :
    Makes
      (select_worker_to_create_pod first)
      1
      triple
      (erased (agreed ∷ []))
      (with_pod asked 0 worker [] (erased (agreed ∷ [])))
      (add_pod (created 2) triple)
unfolding find_alias
triple_made =
    one_more
      (agreed_lem first asked 0 worker (erased (agreed ∷ [])) []
        (record { new_alias = refl; chosen = refl; unknown = tt }) refl refl)
      none_left

restart_half_example :
    (sd₁ : ServiceDescriptor) × (restart_failed_pods
        (select_worker_to_create_pod first)
        triple
        (erased (agreed ∷ []))
      ≡ done (with_pod asked 0 worker [] (erased (agreed ∷ []))) sd₁)
    × (sd₁.pods ≡ 1 ∷ 2 ∷ [])
    × (length sd₁.pods ≡ 1 + 1)
restart_half_example =
    restart_half (select_worker_to_create_pod first) 1 triple (add_pod (created 2) triple)
      (erased (agreed ∷ [])) (with_pod asked 0 worker [] (erased (agreed ∷ []))) (omega arith)
      (omega arith) (omega arith) triple_made

restart_ends_example :
    restart_from (select_worker_to_create_pod first) 12 0 (record pair { num = 5 }) (running [])
    ≡ restart_from (select_worker_to_create_pod first) 5 0 (record pair { num = 5 }) (running [])
restart_ends_example =
    restart_ends (select_worker_to_create_pod first) 5 7 0 (record pair { num = 5 }) (running [])
      (omega arith) (omega arith)

-- The service is to be deleted, and the worker refuses.
abbrev registered : Registry
registered = record { services = pair ∷ []; start_list = []; end_list = [] }

refused_hangs_example :
    (m₁ m' : Manager) × (r₁ r' : Registry) × (delete_service stop_pod
        (codes "my")
        registered
        (running refuses)
      ≡ done m₁ (r₁, true))
    × (shutdown_rounds 9 r₁ m₁ ≡ done m' r')
    × IsHung (codes "my") 1 [] r' m'
    × (m'.replies ≡ [])
    × (m'.log ≡ m₁.log)
    × (m'.pods ≡ m₁.pods)
unfolding find_service ◌==s◌
refused_hangs_example =
    refused_hangs 9 (codes "my") registered (running refuses) pair node 0 busy
      (refused (codes "no")) [] (codes "no") refl refl refl refl (node-IsStored refuses) refl refl
      refl
