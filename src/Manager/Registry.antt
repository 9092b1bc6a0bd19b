-- ===== src/Manager/Registry.antt =====
-- manager/ServiceManager: the services of the users. Its proxy is a `NoProxy`, which keeps nothing: it gives
-- the name of a pool as its address, and says yes to all else. The manager is used through `create` and
-- `stop`, and a name that `generateToken` draws is given.
use tiny_swarm.Prelude.{
  ℕ, zero, suc, ◌+◌, Bool, true, false, List, [], ◌∷◌, ◌++◌, Option, none, some, ltb, if◌then◌else◌,
  length,
}
use tiny_swarm.Prelude.Int.{ℤ, pos, negsuc}
use tiny_swarm.Text.{Str, ◌==s◌}
use tiny_swarm.Text.Digits.{to_string}
use tiny_swarm.Manager.Pod.{ServiceType, PodDescriptor}
use tiny_swarm.Manager.Core.{
  Manager, Outcome, done, undefined, after, CreateResult, created, failed,
}
use tiny_swarm.Manager.Stops.{StopResult}
use tiny_swarm.Manager.Service.{
  ServiceStatus, ready, close, ServiceDescriptor, new_descriptor, restart_failed_pods,
  stop_pods_in_service,
}

-- The lists hold pointers to the descriptors of the map, which are known by their tokens here.
pub record Registry : Type 0 where
  pub services : List ServiceDescriptor
  pub start_list : List Str
  pub end_list : List Str

-- What a user asks for.
pub record Request : Type 0 where
  pub token : Str
  pub num : ℤ
  pub service : Str
  pub type : ServiceType
  pub port : ℤ
  pub exe_params : List Str
  pub docker_params : List Str
  pub restart : ℤ

unfoldable pub find_service : Str → List ServiceDescriptor → Option ServiceDescriptor
find_service token [] = none
find_service token (sd ∷ services) =
    let rest = find_service token services in if sd.token ==s token then some sd else rest

unfoldable pub set_service_descriptor :
    ServiceDescriptor → List ServiceDescriptor → List ServiceDescriptor
set_service_descriptor new [] = []
set_service_descriptor new (sd ∷ services) =
    let rest = set_service_descriptor new services in
    if sd.token ==s new.token then new ∷ services else sd ∷ rest

unfoldable pub erase_service : Str → List ServiceDescriptor → List ServiceDescriptor
erase_service token [] = []
erase_service token (sd ∷ services) =
    let rest = erase_service token services in if sd.token ==s token then services else sd ∷ rest

-- `num`, as the rounds of a loop from 0
abbrev pub rounds_of : ℤ → ℕ
rounds_of (pos n) = n
rounds_of (negsuc n) = 0

abbrev pub is_positive : ℤ → Bool
is_positive (pos zero) = false
is_positive (pos (suc n)) = true
is_positive (negsuc n) = false

abbrev pub alias_of : Str → ℕ → ℕ → Str
alias_of token num i = if ltb 1 num then token ++ (b'_' ∷ to_string 10 i) else token

abbrev pub pod_of_request : Request → Str → PodDescriptor
pod_of_request request alias = record {
  service = request.service;
  alias = alias;
  type = request.type;
  alive = false;
  worker = none;
  exe_params = request.exe_params;
  docker_params = request.docker_params;
  ip = [];
  port = request.port;
  restart = request.restart;
}

abbrev pub join_group : CreateResult → List ℕ → List ℕ
join_group (failed reason) group = group
join_group (created p) group = group ++ (p ∷ [])

-- `map_.emplace(token, sd)`, which keeps a descriptor that is there.
abbrev pub emplace_service : ServiceDescriptor → List ServiceDescriptor → List ServiceDescriptor
emplace_service sd services = elim (find_service sd.token services) [
  | none ↦ sd ∷ services
  | some old ↦ services
]

abbrev pub register :
    Registry
    → ℕ
    → Option ServiceDescriptor
    → Manager
    → Outcome (Registry × Option ServiceDescriptor)
register r num none m = undefined
register r num (some sd) m = done m (
  record r {
    services = emplace_service sd r.services;
    start_list = if ltb (length sd.pods) num then r.start_list ++ (sd.token ∷ []) else r.start_list;
  },
  some sd,
)

abbrev pub register_group :
    Registry → Request → Str → Manager → List ℕ → Outcome (Registry × Option ServiceDescriptor)
register_group r request token m [] = done m (r, none)
register_group r request token m (p ∷ ps) =
    let num = rounds_of request.num in
    let address = if is_positive request.port then token else [] in
    register r num (new_descriptor token (p ∷ ps) num address m.pods) m

module _ (create : PodDescriptor → Manager → Outcome CreateResult) where
  -- The loop of `createService` over the pods, of which so many rounds are left.
  unfoldable pub create_group : ℕ → ℕ → Request → Str → List ℕ → Manager → Outcome (List ℕ)
  unfolding to_string
  create_group zero i request token group m = done m group
  create_group (suc left) i request token group m =
      after (create (pod_of_request request (alias_of token (rounds_of request.num) i)) m)
        (λ m' result. create_group left (i + 1) request token (join_group result group) m')

  abbrev pub token_of : Str → Str → Str
  token_of [] drawn = drawn
  token_of (c ∷ token) drawn = c ∷ token

  -- `createService`
  unfoldable pub create_service_group :
      Str → Request → Registry → Manager → Outcome (Registry × Option ServiceDescriptor)
  unfolding create_group new_descriptor find_service
  create_service_group drawn request r m =
      let token = token_of request.token drawn in
      after (create_group (rounds_of request.num) 0 request token [] m)
        (register_group r request token)

  abbrev pub rotate : ServiceStatus → Str → List Str → List Str
  rotate ready token rest = rest
  rotate status token rest = rest ++ (token ∷ [])

  abbrev pub start_found :
      Registry → Str → List Str → Option ServiceDescriptor → Manager → Outcome Registry
  start_found r token rest none m = undefined
  start_found r token rest (some sd) m = after (restart_failed_pods create sd m) (λ m' sd'.
      done m' (record r {
        services = set_service_descriptor sd' r.services;
        start_list = rotate sd'.status token rest;
      }))

  abbrev pub start_first : Registry → List Str → Manager → Outcome Registry
  start_first r [] m = done m r
  start_first r (token ∷ rest) m = start_found r token rest (find_service token r.services) m

  -- `startFailedPod`
  unfoldable pub start_failed_pod : Registry → Manager → Outcome Registry
  unfolding restart_failed_pods set_service_descriptor find_service
  start_failed_pod r m = start_first r r.start_list m

-- A loop of `removeService`, behind `map_.erase(sd->token_)`: its first round compares with the token of
-- `sd`, which that has freed.
abbrev pub compare_freed {ℓ} : {A : Type ℓ} → List Str → Outcome A → Outcome A
compare_freed [] rest = rest
compare_freed (token ∷ tokens) rest = undefined

abbrev pub removed : Str → List Str → List Str → Registry → Manager → Outcome Registry
removed token starts ends r m =
    compare_freed starts
      (compare_freed ends (done m (record r { services = erase_service token r.services })))

unfoldable pub remove_service : Str → Registry → Manager → Outcome Registry
unfolding erase_service
remove_service token r m = removed token r.start_list r.end_list r m

module _ (stop : ℕ → Manager → Outcome StopResult) where
  -- With the descriptor as it is behind the stops: what closed is removed, all else stays to be ended.
  abbrev pub end_closed :
      ServiceStatus → ServiceDescriptor → List Str → Registry → Manager → Outcome Registry
  end_closed close sd ends r m =
      remove_service sd.token (record r { services = set_service_descriptor sd r.services }) m
  end_closed status sd ends r m =
      done m (record r { services = set_service_descriptor sd r.services; end_list = ends })

  abbrev pub delete_found :
      Registry → Option ServiceDescriptor → Manager → Outcome (Registry × Bool)
  delete_found r none m = done m (r, false)
  delete_found r (some sd) m = after (stop_pods_in_service stop sd m) (λ m' sd'.
      after (end_closed sd'.status sd' (r.end_list ++ (sd.token ∷ [])) r m')
        (λ n r'. done n (r', true)))

  -- `deleteService`
  unfoldable pub delete_service : Str → Registry → Manager → Outcome (Registry × Bool)
  unfolding stop_pods_in_service remove_service set_service_descriptor find_service
  delete_service token r m = delete_found r (find_service token r.services) m

  abbrev pub shutdown_found :
      Registry → Str → List Str → Option ServiceDescriptor → Manager → Outcome Registry
  shutdown_found r token rest none m = undefined
  shutdown_found r token rest (some sd) m =
      after (stop_pods_in_service stop sd m)
        (λ m' sd'. end_closed sd'.status sd' (rest ++ (token ∷ [])) r m')

  abbrev pub shutdown_first : Registry → List Str → Manager → Outcome Registry
  shutdown_first r [] m = done m r
  shutdown_first r (token ∷ rest) m = shutdown_found r token rest (find_service token r.services) m

  -- `shutdownFailedPod`
  unfoldable pub shutdown_failed_pod : Registry → Manager → Outcome Registry
  unfolding stop_pods_in_service remove_service set_service_descriptor find_service
  shutdown_failed_pod r m = shutdown_first r r.end_list m
