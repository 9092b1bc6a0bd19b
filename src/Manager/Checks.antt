-- ===== src/Manager/Checks.antt =====
-- manager/Manager.cpp: `checkServices`, and the two functions that connect to a worker. The error of a
-- pod, which is only written, is left out.
use tiny_swarm.Prelude.{
  ℕ, Bool, false, List, [], ◌∷◌, ◌++◌, Option, none, some, if◌then◌else◌, get_elem?,
}
use tiny_swarm.Prelude.Int.{ℤ, pos, ◌==ℤ◌}
use tiny_swarm.Text.{Str, codes, ◌==s◌}
use tiny_swarm.Manager.Pod.{WorkerDescriptor}
use tiny_swarm.Manager.Core.{
  Node, Manager, find_alias, find_node, update_pod, change_worker, lose_pods, if_found,
}

-- A pod that has ended, as the worker tells it: its name and the number it has ended with.
pub record Exit : Type 0 where
  pub alias : Str
  pub exit_num : ℤ

-- The answer to a check, if one came.
pub data CheckReply : Type 0 where
  no_answer : CheckReply
  exits : List Exit → CheckReply

-- `for (auto &service: wd->pods) { service->alive_ = false; … }`; none if a pointer points nowhere.
unfoldable pub stop_all : List ℕ → Manager → Option Manager
unfolding find_node update_pod
stop_all [] m = some m
stop_all (p ∷ ps) m =
    let rest = stop_all ps (update_pod p (λ pod. record pod { alive = false }) m) in
    if_found (find_node p m.pods) rest

-- A pod that has ended with 0 is not to be started again.
abbrev pub note_found : Option Node → Exit → Manager → Manager
note_found none e m = m
note_found (some n) e m =
    let m' = update_pod n.address (λ pod. record pod { alive = false }) m in
    if e.exit_num ==ℤ pos 0
    then m'
    else record m' { down_services = m.down_services ++ (n.address ∷ []) }

unfoldable pub note_exits : List Exit → Manager → Manager
unfolding find_alias update_pod
note_exits [] m = m
note_exits (e ∷ es) m = note_exits es (note_found (find_alias e.alias m.pods) e m)

-- The first name "*" stands for all pods of the worker.
abbrev pub note_all : WorkerDescriptor → List Exit → Manager → Option Manager
note_all wd [] m = some m
note_all wd (e ∷ es) m =
    let all = stop_all wd.pods m in
    if e.alias ==s codes "*" then all else some (note_exits (e ∷ es) m)

abbrev pub set_alive_worker : ℕ → Bool → Manager → Manager
set_alive_worker w alive m = record m {
  workers = change_worker w (λ wd. record wd { alive = alive }) m.workers;
}

abbrev pub check_reply : ℕ → WorkerDescriptor → CheckReply → Manager → Option Manager
check_reply w wd no_answer m = lose_pods wd.pods (set_alive_worker w false m)
check_reply w wd (exits es) m = note_all wd es m

abbrev pub check_found : ℕ → Option WorkerDescriptor → CheckReply → Manager → Option Manager
check_found w none reply m = none
check_found w (some wd) reply m = if wd.alive then check_reply w wd reply m else some m

-- `checkServices`, of the worker at an index
unfoldable pub check_services : ℕ → CheckReply → Manager → Option Manager
unfolding stop_all note_exits lose_pods ◌==s◌
check_services w reply m = check_found w (get_elem? m.workers w) reply m

-- `worker->alive = worker->session->reconnect()` of `checkPodsOnAllWorker`
unfoldable pub reconnect : ℕ → Bool → Manager → Manager
reconnect w connected m = set_alive_worker w connected m

-- `connectToWorker(ipAddress)`; whether the session is connected is not ours.
unfoldable pub connect_to_worker : Str → ℤ → Bool → Manager → Manager
connect_to_worker ip port connected m = record m {
  workers = m.workers ++ (record { ip = ip; port = port; alive = connected; pods = [] } ∷ []);
}
