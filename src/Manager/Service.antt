-- ===== src/Manager/Service.antt =====
-- manager/ServiceDescriptor.h: a service of a user, its pods, and the calls that stop and restart them.
-- The manager is used through `create`, which makes a pod, and `stop`, which ends one.
use tiny_swarm.Prelude.{
  ℕ, zero, suc, ◌+◌, ◌-◌, ◌^◌, Bool, true, false, List, [], ◌∷◌, ◌++◌, Option, none, some, ltb, leb,
  ◌==◌, if◌then◌else◌, length,
}
use tiny_swarm.Prelude.Int.{ℤ}
use tiny_swarm.Text.{Str}
use tiny_swarm.Text.Digits.{to_string}
use tiny_swarm.Text.Stream.{print_int}
use tiny_swarm.Manager.Pod.{ServiceType, PodDescriptor}
use tiny_swarm.Manager.Core.{
  Node, Manager, Outcome, done, after, CreateResult, created, failed, find_node,
}
use tiny_swarm.Manager.Stops.{StopResult, stopped, kept}

pub data ServiceStatus : Type 0 where
  prepare ready hung close : ServiceStatus

-- The pods are pointers to the nodes of the manager's map. A descriptor is only made for a service that
-- has a pod, so that its number is one at least.
pub record ServiceDescriptor : Type 0 where
  pub token : Str
  pub num : ℕ
  pub proxy_address : Str
  pub status : ServiceStatus
  pub service : Str
  pub exe_params : List Str
  pub docker_params : List Str
  pub type : ServiceType
  pub port : ℤ
  pub restart : ℤ
  pub pods : List ℕ

abbrev address_found : Option Node → Option (List Str) → Option (List Str)
address_found (some n) (some pool) = some ((n.pod.ip ++ (b':' ∷ print_int n.pod.port)) ∷ pool)
address_found n pool = none

-- `getPodGroupAddressPool`; none if a pointer points nowhere.
unfoldable pub get_address_pool : List ℕ → List Node → Option (List Str)
unfolding find_node print_int
get_address_pool [] nodes = some []
get_address_pool (p ∷ ps) nodes = address_found (find_node p nodes) (get_address_pool ps nodes)

abbrev pub described : Str → List ℕ → ℕ → Str → Option Node → Option ServiceDescriptor
described token pods num proxy_address none = none
described token pods num proxy_address (some n) = some (record {
  token = token;
  num = num;
  proxy_address = proxy_address;
  status = if length pods == num then ready else prepare;
  service = n.pod.service;
  exe_params = n.pod.exe_params;
  docker_params = n.pod.docker_params;
  type = n.pod.type;
  port = n.pod.port;
  restart = n.pod.restart;
  pods = pods;
})

-- The constructor reads the first pod; none if there is none.
unfoldable pub new_descriptor : Str → List ℕ → ℕ → Str → List Node → Option ServiceDescriptor
unfolding find_node
new_descriptor token [] num proxy_address nodes = none
new_descriptor token (p ∷ ps) num proxy_address nodes =
    described token (p ∷ ps) num proxy_address (find_node p nodes)

-- `num_ - pods_.size()` and `pods_.size() - 1`, of type `size_t`
abbrev pub missing : ℕ → ℕ → ℕ
missing num size = if leb size num then num - size else 2 ^ 64 - (size - num)

abbrev pub previous : ℕ → ℕ
previous zero = 0xFFFFFFFFFFFFFFFF
previous (suc n) = n

abbrev pub restart_alias : ServiceDescriptor → Str
restart_alias sd = sd.token ++ (b'_' ∷ to_string 10 (previous (length sd.pods)))

abbrev pub pod_of : ServiceDescriptor → Str → PodDescriptor
pod_of sd alias = record {
  service = sd.service;
  alias = alias;
  type = sd.type;
  alive = false;
  worker = none;
  exe_params = sd.exe_params;
  docker_params = sd.docker_params;
  ip = [];
  port = sd.port;
  restart = sd.restart;
}

abbrev pub add_pod : CreateResult → ServiceDescriptor → ServiceDescriptor
add_pod (failed reason) sd = sd
add_pod (created p) sd = record sd { pods = sd.pods ++ (p ∷ []) }

module _ (create : PodDescriptor → Manager → Outcome CreateResult) where
  -- The loop of `restartFailedPods`, of at most so many rounds. The bound is taken anew in each round.
  unfoldable pub restart_from : ℕ → ℕ → ServiceDescriptor → Manager → Outcome ServiceDescriptor
  unfolding to_string
  restart_from zero i sd m = done m sd
  restart_from (suc fuel) i sd m =
      let round =
        after (create (pod_of sd (restart_alias sd)) m)
          (λ m' result. restart_from fuel (i + 1) (add_pod result sd) m') in
      if ltb i (missing sd.num (length sd.pods)) then round else done m sd

  abbrev pub now_ready : Manager → ServiceDescriptor → Outcome ServiceDescriptor
  now_ready m sd = done m (if sd.num == length sd.pods then record sd { status = ready } else sd)

  -- `restartFailedPods`, but for the number it answers.
  unfoldable pub restart_failed_pods : ServiceDescriptor → Manager → Outcome ServiceDescriptor
  unfolding restart_from
  restart_failed_pods sd m =
      let run = after (restart_from sd.num 0 sd m) now_ready in
      if length sd.pods == sd.num then done m sd else run

abbrev pub keep_unstopped : ℕ → StopResult → List ℕ → List ℕ
keep_unstopped p (stopped text) ps = ps
keep_unstopped p (kept error) ps = p ∷ ps

abbrev pub is_empty : List ℕ → Bool
is_empty [] = true
is_empty (p ∷ ps) = false

module _ (stop : ℕ → Manager → Outcome StopResult) where
  -- The loop of `stopPodsInService`: the pods that are left.
  unfoldable pub stop_pods : List ℕ → Manager → Outcome (List ℕ)
  stop_pods [] m = done m []
  stop_pods (p ∷ ps) m =
      after (stop p m)
        (λ m' result. after (stop_pods ps m') (λ n left. done n (keep_unstopped p result left)))

  unfoldable pub stop_pods_in_service : ServiceDescriptor → Manager → Outcome ServiceDescriptor
  unfolding stop_pods
  stop_pods_in_service sd m = after (stop_pods sd.pods m) (λ m' left.
      done m' (record sd { pods = left; status = if is_empty left then close else hung }))
