-- ===== src/Manager/Tests.antt =====
-- Runs of the scheduler and of the proxy, and their theorems at concrete states.
use tiny_swarm.Prelude.{◌≡◌, refl, true, false, ◌&&◌, [], ◌∷◌, if◌then◌else◌}
use tiny_swarm.Prelude.Int.{pos, negsuc, ◌+ℤ◌, ◌-ℤ◌}
use tiny_swarm.Text.{codes, ◌==s◌}
use tiny_swarm.Manager.Scheduler.{
  Worker, returned, running, next_last, remainder, port_available, is_usable, scan, get_best_worker,
}
use tiny_swarm.Manager.RoundRobin.{is_one, get_best_worker_lem}
use tiny_swarm.Manager.NginxProxy.{
  Pool, NginxProxy, new_proxy, find_pool, entry_at, assign_pool, update_address_pool,
}
use tiny_swarm.Manager.Ports.{AreSeparate, insert, delete, apply_all, ports_separate}

-- A worker with a pod at port 80, and one without a pod.
abbrev busy : Worker
busy = record { alive = true; ports = 80 ∷ [] }

abbrev idle : Worker
idle = record { alive = true; ports = [] }

second_call_returns : get_best_worker 1 (next_last (pos 0)) (busy ∷ idle ∷ []) 8080 ≡ returned busy
unfolding get_best_worker scan remainder next_last is_usable port_available ◌+ℤ◌ ◌-ℤ◌
second_call_returns = refl

last_wraps : next_last (pos 0x7FFFFFFF) ≡ negsuc 0x7FFFFFFF
unfolding next_last
last_wraps = refl

get_best_worker_lem_example : get_best_worker 5 (pos 3) (busy ∷ idle ∷ []) 80 ≡ (
    if is_one (remainder (pos 3) 2) && is_usable 80 busy
    then returned busy
    else running (remainder (pos 3) 2))
get_best_worker_lem_example = get_best_worker_lem 4 (pos 3) busy (idle ∷ []) 80

-- A proxy with one pool.
abbrev web : Pool
web = record { name = codes "web"; addresses = codes "10.0.0.1:80" ∷ []; bind_port = 10000 }

abbrev with_web : NginxProxy
with_web = record new_proxy { pools = web ∷ []; port = 10001 }

-- `updateAddressPool` refuses a name that it knows, and makes a pool of one that it does not know.
update_known : update_address_pool (codes "web") [] with_web ≡ (with_web, false)
unfolding update_address_pool find_pool ◌==s◌
update_known = refl

update_unknown : update_address_pool (codes "db") (codes "10.0.0.2:80" ∷ []) with_web ≡ (
  record with_web {
    pools =
        record { name = codes "db"; addresses = codes "10.0.0.2:80" ∷ []; bind_port = 0 }
        ∷ web
        ∷ [];
  },
  true,
)
unfolding update_address_pool find_pool entry_at assign_pool ◌==s◌
update_unknown = refl

ports_separate_example :
    let s = apply_all (insert (codes "web") [] ∷ delete (codes "db") ∷ []) new_proxy in
    AreSeparate s.port s.pools
ports_separate_example = ports_separate (insert (codes "web") [] ∷ delete (codes "db") ∷ [])
