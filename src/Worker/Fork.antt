-- ===== src/Worker/Fork.antt =====
-- worker/RPCInterface.cpp, `fork`, and what it calls of worker/WorkerNode.cpp. A pod is what of its
-- descriptor these functions read. The services of the node, the ports of the machine, the start of a
-- process and the clock are given.
use tiny_swarm.Prelude.{
  ℕ, zero, suc, Bool, true, false, List, [], ◌∷◌, ◌++◌, Option, none, some, if◌then◌else◌,
}
use tiny_swarm.Prelude.Int.{ℤ, pos, negsuc}
use tiny_swarm.Text.{Str, codes, ◌==s◌}

pub record RunningPod : Type 0 where
  pub pid : ℤ
  pub alias : Str
  pub manager : Str

pub record ManagerDescriptor : Type 0 where
  pub usr_info : Str
  pub timestamp : ℕ
  -- `status != 0`
  pub down : Bool
  -- the pods, which are told apart by their processes
  pub pods : List ℤ

pub record WorkerNode : Type 0 where
  pub pods : List RunningPod
  pub managers : List ManagerDescriptor
  -- the names of the pods whose start is recorded
  pub records : List Str

-- What `createProcess` meets: no executable, or the answer of the system's `fork`.
pub data Spawn : Type 0 where
  no_exe : Spawn
  spawned : ℤ → Spawn

pub record Machine : Type 0 where
  pub service_exists : Bool
  pub port_free : Bool
  pub spawn : Spawn
  pub now : ℕ

-- The answer: the pod runs, or it failed; each with its error text.
pub data ForkEcho : Type 0 where
  forked fork_failed : Str → ForkEcho

-- `checkIfAliasOK`: none if it is, and else the reason.
unfoldable pub check_if_alias_ok : Str → Str → List RunningPod → Option Str
check_if_alias_ok manager alias [] = none
check_if_alias_ok manager alias (p ∷ pods) =
    let rest = check_if_alias_ok manager alias pods in
    let reason = if p.manager ==s manager then codes "SAME SERV" else codes "SAME ALIAS" in
    if p.alias ==s alias then some reason else rest

abbrev active : ManagerDescriptor → ManagerDescriptor
active md = record md { down = false }

-- `isManagerDown`, which has the manager count as alive again.
unfoldable pub is_manager_down : Str → List ManagerDescriptor → Bool × List ManagerDescriptor
is_manager_down manager [] = (false, [])
is_manager_down manager (md ∷ managers) =
    let (down, rest) = is_manager_down manager managers in
    if md.usr_info ==s manager then (md.down, active md ∷ managers) else (down, md ∷ rest)

-- `getOrAddManager` and `md->pods.emplace_back`
unfoldable pub add_to_manager : ℕ → Str → ℤ → List ManagerDescriptor → List ManagerDescriptor
add_to_manager now manager pid [] =
    record { usr_info = manager; timestamp = now; down = false; pods = pid ∷ [] } ∷ []
add_to_manager now manager pid (md ∷ managers) =
    let rest = add_to_manager now manager pid managers in
    if md.usr_info ==s manager
    then record md { timestamp = now; down = false; pods = md.pods ++ (pid ∷ []) } ∷ managers
    else md ∷ rest

-- `pid > 0`
abbrev pub has_started : ℤ → Bool
has_started (pos zero) = false
has_started (pos (suc n)) = true
has_started (negsuc n) = false

abbrev pub answered : ℤ → Str → Str → WorkerNode → WorkerNode × ForkEcho
answered pid alias text n =
    if has_started pid
    then (record n { records = n.records ++ (alias ∷ []) }, forked text)
    else (n, fork_failed text)

-- `createProcess` in the parent, whatever the system's `fork` has answered, and the answer to the call.
abbrev pub create_process : Spawn → ℕ → Str → Str → Str → WorkerNode → WorkerNode × ForkEcho
create_process no_exe now owner alias text n = (n, fork_failed (codes "EXEC NOT EXIT"))
create_process (spawned pid) now owner alias text n = answered pid alias text (record n {
  pods = n.pods ++ (record { pid = pid; alias = alias; manager = owner } ∷ []);
  managers = add_to_manager now owner pid n.managers;
})

abbrev pub fork_on :
    Machine → Str → Str → Str → Bool × List ManagerDescriptor → WorkerNode → WorkerNode × ForkEcho
fork_on machine owner alias text (true, managers) n =
    (record n { managers = managers }, fork_failed (codes "Manager Down"))
fork_on machine owner alias text (false, managers) n =
    create_process machine.spawn machine.now owner alias text (record n { managers = managers })

-- Behind `checkIfAliasOK`: the call fails if the name is free.
abbrev pub fork_named : Machine → Str → Str → Option Str → WorkerNode → WorkerNode × ForkEcho
fork_named machine owner alias none n = (n, fork_failed [])
fork_named machine owner alias (some reason) n =
    if machine.port_free
    then fork_on machine owner alias reason (is_manager_down owner n.managers) n
    else (n, fork_failed (codes "Port Unavailable"))

-- `fork`
unfoldable pub fork : Machine → Str → Str → WorkerNode → WorkerNode × ForkEcho
unfolding check_if_alias_ok is_manager_down add_to_manager
fork machine owner alias n =
    if machine.service_exists
    then fork_named machine owner alias (check_if_alias_ok owner alias n.pods) n
    else (n, fork_failed (codes "SERV NOT FOUND"))
