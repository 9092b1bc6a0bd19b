-- ===== src/Manager/Stops.antt =====
-- manager/Manager.cpp, manager/Manager.h: `stopPod`, `shutdownPod` and `removeDownService`.
use tiny_swarm.Prelude.{
  ℕ, true, false, List, [], ◌∷◌, ◌++◌, Option, none, some, ◌==◌, if◌then◌else◌,
}
use tiny_swarm.Text.{Str, codes, ◌==s◌}
use tiny_swarm.Manager.Core.{
  Node, Reply, lost, refused, agreed, Manager, Outcome, done, undefined, waiting, after, find_alias,
  find_node, erase_node, remove_pointer, change_worker, detach, append_line, manager_down,
  update_pod,
}
use tiny_swarm.Manager.Calls.{is_manager_down}

-- `std::pair<bool, std::string>`: true and the name, or false and the reason.
pub data StopResult : Type 0 where
  stopped kept : Str → StopResult

unfoldable pub remove_down_service : ℕ → Manager → Manager
unfolding remove_pointer
remove_down_service address m = record m { down_services = remove_pointer address m.down_services }

abbrev pub stop_line : Str → Str → Str
stop_line alias result = codes "DSE " ++ (alias ++ result)

abbrev pub shut_down : Str → Option Manager → Outcome StopResult
shut_down alias none = undefined
shut_down alias (some m) = done (append_line (stop_line alias (codes " Success")) m) (stopped [])

-- `shutdownPod(wd, …)` behind its call. The answer "Manager Down" counts as success, with that text.
unfoldable pub shutdown_answer : List Reply → ℕ → Str → Manager → Outcome StopResult
unfolding append_line manager_down ◌==s◌
shutdown_answer [] w alias m = waiting
shutdown_answer (lost reason ∷ replies) w alias m =
    done (append_line (stop_line alias (codes " Fail")) (record m { replies = replies }))
      (kept reason)
shutdown_answer (agreed ∷ replies) w alias m =
    shut_down alias (some (record m { replies = replies }))
shutdown_answer (refused text ∷ replies) w alias m =
    if is_manager_down text
    then shut_down alias (manager_down w (record m { replies = replies }))
    else done (append_line (stop_line alias (codes " Fail")) (record m { replies = replies }))
        (kept text)

unfoldable pub shutdown_pod : ℕ → Str → Manager → Outcome StopResult
unfolding append_line shutdown_answer
shutdown_pod w alias m =
    let m' = append_line (codes "DSS " ++ alias) m in shutdown_answer m'.replies w alias m'

abbrev pub mark : ℕ → Manager → StopResult → Outcome StopResult
mark address m (stopped text) =
    done (update_pod address (λ pod. record pod { alive = true }) m) (stopped text)
mark address m (kept error) =
    done (update_pod address (λ pod. record pod { alive = false }) m) (kept error)

-- `shutdownPod(info)`: `info->alive_ = res.first`
unfoldable pub shutdown_info : Node → ℕ → Manager → Outcome StopResult
unfolding shutdown_pod update_pod
shutdown_info info w m =
    if info.pod.alive
    then after (shutdown_pod w info.pod.alias m) (mark info.address)
    else done m (kept (codes "To shutdown a dead service"))

-- `pods.erase(it)`, behind which `info` is read again: that is a use of a freed pod, if the iterator is
-- that of `info`.
abbrev pub erase_stopped : Node → Node → Manager → Outcome StopResult
erase_stopped it info m =
    let m' = detach it.address it.pod.worker (record m { pods = erase_node it.address m.pods }) in
    let taken_out = if info.pod.alive then m' else remove_down_service info.address m' in
    if it.address == info.address then undefined else done taken_out (stopped info.pod.alias)

abbrev pub put_back : ℕ → ℕ → Manager → Manager
put_back w address m = record m {
  workers = change_worker w (λ wd. record wd { pods = wd.pods ++ (address ∷ []) }) m.workers;
}

abbrev pub stop_answered : Node → Node → ℕ → Manager → StopResult → Outcome StopResult
stop_answered it info w m (stopped text) = erase_stopped it info m
stop_answered it info w m (kept error) = done (put_back w info.address m) (kept error)

abbrev pub stop_on : Option ℕ → Node → Node → Manager → Outcome StopResult
stop_on none it info m = undefined
stop_on (some w) it info m =
    after (shutdown_info info w (detach info.address (some w) m)) (stop_answered it info w)

abbrev pub stop_found : Option Node → Node → Manager → Outcome StopResult
stop_found none info m = done m (kept (codes "Alias Not Found"))
stop_found (some it) info m = stop_on info.pod.worker it info m

abbrev pub stop_at : Option Node → Manager → Outcome StopResult
stop_at none m = undefined
stop_at (some info) m = stop_found (find_alias info.pod.alias m.pods) info m

-- `stopPod`, of the pod at an address
unfoldable pub stop_pod : ℕ → Manager → Outcome StopResult
unfolding find_node find_alias erase_node detach shutdown_info remove_down_service
stop_pod address m = stop_at (find_node address m.pods) m
