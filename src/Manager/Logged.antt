-- ===== src/Manager/Logged.antt =====
-- manager/Manager.cpp: what a manager's log and its snapshot keep of its pods.
use tiny_swarm.Prelude.{
  ℕ, zero, suc, ◌+◌, ◌≡◌, refl, sym, ap, Bool, false, ◌||◌, List, [], ◌∷◌, map, none, some,
  get_elem?, set, arith, some-injective,
}
use tiny_swarm.Prelude.Int.{ℤ}
use tiny_swarm.Text.{Str, ◌==s◌}
use tiny_swarm.Manager.Pod.{PodDescriptor, WorkerDescriptor, find_worker_from}
use tiny_swarm.Manager.Core.{Node, find_alias}

-- What the log keeps of a pod: not its address, nor whether it is alive, nor its docker params.
abbrev pub logged : Node → PodDescriptor
logged n = record n.pod { alive = false; ip = []; docker_params = [] }

-- Whether a name is one of these pods.
unfoldable pub is_taken : Str → List PodDescriptor → Bool
is_taken alias [] = false
is_taken alias (pod ∷ pods) = pod.alias ==s alias || is_taken alias pods

pub is_taken-none :
    (alias : Str) (nodes : List Node)
    → find_alias alias nodes ≡ none
    → is_taken alias (map logged nodes) ≡ false
unfolding is_taken find_alias
is_taken-none alias [] h = refl
is_taken-none alias (n ∷ nodes) h = ground (arith, h, is_taken-none alias nodes)

pub none-is_taken :
    (alias : Str) (nodes : List Node)
    → is_taken alias (map logged nodes) ≡ false
    → find_alias alias nodes ≡ none
unfolding is_taken find_alias
none-is_taken alias [] h = refl
none-is_taken alias (n ∷ nodes) h = ground (arith, h, none-is_taken alias nodes)

-- A worker's list of pods does not matter when it is looked for.
pub find_worker_from-set :
    (i : ℕ) (ip : Str) (port : ℤ) (workers : List WorkerDescriptor) (w : ℕ) (wd : WorkerDescriptor)
    (ps : List ℕ)
    → get_elem? workers w ≡ some wd
    → find_worker_from i ip port (set workers w (record wd { pods = ps }))
      ≡ find_worker_from i ip port workers
unfolding find_worker_from
find_worker_from-set i ip port [] w wd ps h = cc
find_worker_from-set i ip port (x ∷ workers) zero wd ps h =
    ap (λ d. find_worker_from i ip port (record d { pods = ps } ∷ workers))
      (sym (some-injective _ _ h))
find_worker_from-set i ip port (x ∷ workers) (suc w) wd ps h =
    ground (arith, find_worker_from-set (i + 1) ip port workers w wd ps h)
