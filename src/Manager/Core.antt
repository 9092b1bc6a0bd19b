-- ===== src/Manager/Core.antt =====
-- manager/Manager.h, manager/Result.h: the manager's state, and its changes by one pointer or one name.
-- A pod is known by the address of its node in the map `pods`; a name is that of the pod in the node.
-- What workers answer is not ours: `replies` are the answers that are still to come.
use tiny_swarm.Prelude.{
  ℕ, ◌+◌, false, List, [], ◌∷◌, ◌++◌, Option, none, some, ◌==◌, if◌then◌else◌, get_elem?, set,
}
use tiny_swarm.Text.{Str, ◌==s◌}
use tiny_swarm.Manager.Pod.{PodDescriptor, WorkerDescriptor}

pub record Node : Type 0 where
  pub address : ℕ
  pub pod : PodDescriptor

-- An answer to a call: none came, for this reason; or the worker has refused, with this text; or it has
-- done what it was told.
pub data Reply : Type 0 where
  lost refused : Str → Reply
  agreed : Reply

pub record Manager : Type 0 where
  pub usr_info : Str
  pub workers : List WorkerDescriptor
  pub pods : List Node
  pub next_address : ℕ
  pub down_services : List ℕ
  -- `logger`: the lines that the queue has been given since recover last removed its file, and its
  -- `count`, of the lines since the program began
  pub log : List Str
  pub log_count : ℕ
  pub cur_line : ℕ
  pub published : List Str
  pub replies : List Reply

-- A call has ended in a state, with a result; or it has used a pointer that points nowhere; or it waits
-- for an answer.
pub data Outcome {ℓ} (A : Type ℓ) : Type ℓ where
  done : Manager → A → Outcome A
  undefined waiting : Outcome A

abbrev pub after {ℓ κ} :
    {A : Type ℓ} {B : Type κ} → Outcome A → (Manager → A → Outcome B) → Outcome B
after (done m a) f = f m a
after undefined f = undefined
after waiting f = waiting

-- `CreateResult`: the pod's address, or the reason.
pub data CreateResult : Type 0 where
  created : ℕ → CreateResult
  failed : Str → CreateResult

unfoldable pub find_alias : Str → List Node → Option Node
find_alias alias [] = none
find_alias alias (n ∷ nodes) =
    let rest = find_alias alias nodes in if n.pod.alias ==s alias then some n else rest

unfoldable pub find_node : ℕ → List Node → Option Node
find_node address [] = none
find_node address (n ∷ nodes) =
    let rest = find_node address nodes in if n.address == address then some n else rest

unfoldable pub update_node : ℕ → (PodDescriptor → PodDescriptor) → List Node → List Node
update_node address f [] = []
update_node address f (n ∷ nodes) =
    let rest = update_node address f nodes in
    if n.address == address then record n { pod = f n.pod } ∷ nodes else n ∷ rest

unfoldable pub erase_node : ℕ → List Node → List Node
erase_node address [] = []
erase_node address (n ∷ nodes) =
    let rest = erase_node address nodes in if n.address == address then nodes else n ∷ rest

-- `removePodDescriptor` on the list, and `removeDownService`: the first one is taken out.
unfoldable pub remove_pointer : ℕ → List ℕ → List ℕ
remove_pointer p [] = []
remove_pointer p (q ∷ ps) = let rest = remove_pointer p ps in if q == p then ps else q ∷ rest

abbrev pub change_worker :
    ℕ → (WorkerDescriptor → WorkerDescriptor) → List WorkerDescriptor → List WorkerDescriptor
change_worker w f workers = elim (get_elem? workers w) [
  | none ↦ workers
  | some wd ↦ set workers w (f wd)
]

abbrev pub leave_worker : ℕ → Option ℕ → List WorkerDescriptor → List WorkerDescriptor
leave_worker address none workers = workers
leave_worker address (some w) workers =
    change_worker w (λ wd. record wd { pods = remove_pointer address wd.pods }) workers

-- `wd_->removePodDescriptor(this)`, as the destructor of a node calls it.
unfoldable pub detach : ℕ → Option ℕ → Manager → Manager
unfolding remove_pointer
detach address worker m = record m { workers = leave_worker address worker m.workers }

abbrev pub erase_found : Option Node → Manager → Manager
erase_found none m = m
erase_found (some n) m =
    detach n.address n.pod.worker (record m { pods = erase_node n.address m.pods })

-- `pods.erase(alias)`
unfoldable pub erase_pod : Str → Manager → Manager
unfolding find_alias erase_node detach
erase_pod alias m = erase_found (find_alias alias m.pods) m

-- `cur_line = logger->append(line)`, which answers the queue's own `++count`.
unfoldable pub append_line : Str → Manager → Manager
append_line line m = record m {
  log = m.log ++ (line ∷ []);
  log_count = m.log_count + 1;
  cur_line = m.log_count + 1;
}

unfoldable pub update_pod : ℕ → (PodDescriptor → PodDescriptor) → Manager → Manager
unfolding update_node
update_pod address f m = record m { pods = update_node address f m.pods }

abbrev pub bound_to : ℕ → Option WorkerDescriptor → PodDescriptor → PodDescriptor
bound_to w none pod = record pod { worker = some w }
bound_to w (some wd) pod = record pod { worker = some w; ip = wd.ip }

-- `bindWorker`
unfoldable pub bind_worker : ℕ → Option ℕ → Manager → Manager
unfolding update_pod
bind_worker address none m = update_pod address (λ pod. record pod { worker = none }) m
bind_worker address (some w) m =
    record (update_pod address (bound_to w (get_elem? m.workers w)) m) {
      workers = change_worker w (λ wd. record wd { pods = wd.pods ++ (address ∷ []) }) m.workers;
    }

abbrev pub if_found {ℓ} : {A : Type ℓ} → Option Node → Option A → Option A
if_found none rest = none
if_found (some n) rest = rest

-- `for (auto &service: wd->pods) { service->alive_ = false; down_services.emplace_back(service); }`;
-- none if a pointer points nowhere.
unfoldable pub lose_pods : List ℕ → Manager → Option Manager
unfolding find_node update_pod
lose_pods [] m = some m
lose_pods (p ∷ ps) m =
    let m' = update_pod p (λ pod. record pod { alive = false }) m in
    let rest = lose_pods ps (record m' { down_services = m.down_services ++ (p ∷ []) }) in
    if_found (find_node p m.pods) rest

abbrev pub emptied : ℕ → Option Manager → Option Manager
emptied w none = none
emptied w (some m) =
    some (record m { workers = change_worker w (λ wd. record wd { pods = [] }) m.workers })

abbrev pub lose_worker : ℕ → Option WorkerDescriptor → Manager → Option Manager
lose_worker w none m = none
lose_worker w (some wd) m = emptied w (lose_pods wd.pods m)

-- The answer "Manager Down": all pods of the worker are down, and it has none any more.
unfoldable pub manager_down : ℕ → Manager → Option Manager
unfolding lose_pods
manager_down w m = lose_worker w (get_elem? m.workers w) m
