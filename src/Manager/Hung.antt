-- ===== src/Manager/Hung.antt =====
-- manager/ServiceManager.cpp, `shutdownFailedPod`: a service whose pods count as dead.
use tiny_swarm.Prelude.{
  ℕ, zero, suc, ◌≡◌, refl, sym, ap, true, if◌then◌else◌, if_true, if_false, Bool-cases, inl, inr,
  ◌∙◌, false, List, [], ◌∷◌, some, set, get_elem?, All,
}
use tiny_swarm.Text.{Str, codes, ◌==s◌, ==s-refl}
use tiny_swarm.Manager.Pod.{WorkerDescriptor}
use tiny_swarm.Manager.Core.{Node, Manager, Outcome, done, after}
use tiny_swarm.Manager.Stops.{StopResult, kept, stop_pod}
use tiny_swarm.Manager.Telling.{IsStored, back_wd}
use tiny_swarm.Manager.Stopping.{stop_dead}
use tiny_swarm.Manager.Service.{
  ServiceDescriptor, hung, close, is_empty, keep_unstopped, stop_pods, stop_pods_in_service,
}
use tiny_swarm.Manager.Registry.{
  Registry, find_service, set_service_descriptor, shutdown_failed_pod, shutdown_first, end_closed,
  shutdown_found,
}

-- A pointer to a stored pod that does not count as alive.
pub record IsDead (m : Manager) (p : ℕ) : Type 0 where
  pub info : Node
  pub w : ℕ
  pub wd : WorkerDescriptor
  pub stored : IsStored info w wd m
  pub dead : info.pod.alive ≡ false
  pub address : info.address ≡ p

set-somewhere :
    (workers : List WorkerDescriptor) (w v : ℕ) (wd x : WorkerDescriptor)
    → get_elem? workers w ≡ some wd
    → (wd' : WorkerDescriptor) × (get_elem? (set workers v x) w ≡ some wd')
set-somewhere [] w v wd x h = cc
set-somewhere (y ∷ workers) zero zero wd x h = (x, refl)
set-somewhere (y ∷ workers) zero (suc v) wd x h = (wd, h)
set-somewhere (y ∷ workers) (suc w) zero wd x h = (wd, h)
set-somewhere (y ∷ workers) (suc w) (suc v) wd x h = set-somewhere workers w v wd x h

IsDead-set :
    (m : Manager) (v : ℕ) (x : WorkerDescriptor) (p : ℕ)
    → IsDead m p
    → IsDead (record m { workers = set m.workers v x }) p
IsDead-set m v x p d =
    let (wd', there) = set-somewhere m.workers d.w v d.wd x d.stored.there in
    record {
      info = d.info;
      w = d.w;
      wd = wd';
      stored = record {
        by_address = d.stored.by_address;
        by_alias = d.stored.by_alias;
        bound = d.stored.bound;
        there = there;
      };
      dead = d.dead;
      address = d.address;
    }

All-IsDead-set :
    (m : Manager) (v : ℕ) (x : WorkerDescriptor) (ps : List ℕ)
    → All (IsDead m) ps
    → All (IsDead (record m { workers = set m.workers v x })) ps
All-IsDead-set m v x [] h = tt
All-IsDead-set m v x (p ∷ ps) (d, h) = (IsDead-set m v x p d, All-IsDead-set m v x ps h)

-- Stopping pods that are dead changes the lists of the workers only, and keeps the pods.
stop_pods-IsDead :
    (ps all : List ℕ) (m : Manager)
    → All (IsDead m) ps
    → All (IsDead m) all
    → (ws : List WorkerDescriptor) × (stop_pods stop_pod ps m ≡ done (record m { workers = ws }) ps)
      × All (IsDead (record m { workers = ws })) all
unfolding stop_pods
stop_pods-IsDead [] all m h k = (m.workers, refl, k)
stop_pods-IsDead (p ∷ ps) all m (d, h) k =
    let back = back_wd d.info d.w d.wd m in
    let m₁ = record m { workers = set m.workers d.w back } in
    let stopped : stop_pod p m ≡ done m₁ (kept (codes "To shutdown a dead service")) =
      ap (λ a. stop_pod a m) (sym d.address) ∙ stop_dead d.info d.w d.wd m d.stored d.dead in
    let (ws, run, still) =
      stop_pods-IsDead ps all m₁ (All-IsDead-set m d.w back ps h)
        (All-IsDead-set m d.w back all k) in
    let go : Manager → StopResult → Outcome (List ℕ) = λ n result.
      after (stop_pods stop_pod ps n) (λ n' left. done n' (keep_unstopped p result left)) in
    (
      ws,
      ap (λ o. after o go) stopped ∙ ap (λ o. after o (λ n' left. done n' (p ∷ left))) run,
      still,
    )

pub find_service-set :
    (token : Str) (sd new : ServiceDescriptor) (services : List ServiceDescriptor)
    → find_service token services ≡ some sd
    → new.token ≡ token
    → find_service token (set_service_descriptor new services) ≡ some new
unfolding find_service set_service_descriptor
find_service-set token sd new [] h e = cc
find_service-set token sd new (x ∷ services) h e =
    let same : (x.token ==s new.token) ≡ (x.token ==s token) = ap (λ t. x.token ==s t) e in
    let it : (new.token ==s token) ≡ true = ap (λ t. t ==s token) e ∙ ==s-refl token in
    elim (Bool-cases (x.token ==s token)) [
      | inl found ↦ ap (find_service token) (if_true _ _ (same ∙ found)) ∙ if_true _ _ it
      | inr other ↦
          ap (find_service token) (if_false _ _ (same ∙ other))
          ∙ if_false _ _ other
          ∙ find_service-set token sd new services (sym (if_false _ _ other) ∙ h) e
    ]

-- The service of the token is the only one that is to be ended, it has these pods, and all of them count
-- as dead.
pub record IsHung (token : Str) (p : ℕ) (ps : List ℕ) (r : Registry) (m : Manager) : Type 0 where
  pub sd : ServiceDescriptor
  pub waits : r.end_list ≡ token ∷ []
  pub found : find_service token r.services ≡ some sd
  pub named : sd.token ≡ token
  pub pods : sd.pods ≡ p ∷ ps
  pub dead : All (IsDead m) sd.pods

-- One call for such a service.
shutdown_failed_pod-IsHung :
    (token : Str) (p : ℕ) (ps : List ℕ) (r : Registry) (m : Manager)
    → IsHung token p ps r m
    → (ws : List WorkerDescriptor) × (r' : Registry) × (shutdown_failed_pod stop_pod r m
        ≡ done (record m { workers = ws }) r')
      × IsHung token p ps r' (record m { workers = ws })
unfolding shutdown_failed_pod stop_pods_in_service
shutdown_failed_pod-IsHung token p ps r m h =
    let sd = h.sd in
    let (ws, run, still) = stop_pods-IsDead sd.pods sd.pods m h.dead h.dead in
    let m' = record m { workers = ws } in
    let sd' : ServiceDescriptor = record sd { status = hung } in
    let r' = record r { services = set_service_descriptor sd' r.services; end_list = token ∷ [] } in
    let go : Manager → ServiceDescriptor → Outcome Registry =
      λ n sd₁. end_closed stop_pod sd₁.status sd₁ (token ∷ []) r n in
    (
      ws,
      r',
      ap (λ ends. shutdown_first stop_pod r ends m) h.waits
          ∙ ap (λ o. shutdown_found stop_pod r token [] o m) h.found
          ∙ ap
              (λ o.
                after
                  (after o (λ n left.
                    done n
                      (record sd { pods = left; status = if is_empty left then close else hung })))
                  go)
              run
          ∙ ap (λ empty. go m' (record sd { status = if empty then close else hung }))
              (ap is_empty h.pods),
      record {
        sd = sd';
        waits = refl;
        found = find_service-set token sd sd' r.services h.found h.named;
        named = h.named;
        pods = h.pods;
        dead = still;
      },
    )

-- So many calls of `shutdownFailedPod`, one after the other.
unfoldable pub shutdown_rounds : ℕ → Registry → Manager → Outcome Registry
unfolding shutdown_failed_pod
shutdown_rounds zero r m = done m r
shutdown_rounds (suc k) r m =
    after (shutdown_failed_pod stop_pod r m) (λ m' r'. shutdown_rounds k r' m')

-- However often `shutdownFailedPod` is called, if the only service that is to be ended has pods that all
-- count as dead: the service stays to be ended, with its pods, no worker is asked, nothing is logged,
-- and the map of the pods stays as it is.
pub shutdown_rounds-IsHung :
    (k : ℕ) (token : Str) (p : ℕ) (ps : List ℕ) (r : Registry) (m : Manager)
    → IsHung token p ps r m
    → (m' : Manager) × (r' : Registry) × (shutdown_rounds k r m ≡ done m' r')
      × IsHung token p ps r' m'
      × (m'.replies ≡ m.replies)
      × (m'.log ≡ m.log)
      × (m'.pods ≡ m.pods)
unfolding shutdown_rounds
shutdown_rounds-IsHung zero token p ps r m h = (m, r, refl, h, refl, refl, refl)
shutdown_rounds-IsHung (suc k) token p ps r m h =
    let (ws, r₁, run, still) = shutdown_failed_pod-IsHung token p ps r m h in
    let (m', r', more, last, replies, log, pods) =
      shutdown_rounds-IsHung k token p ps r₁ (record m { workers = ws }) still in
    (m', r', ap (λ o. after o (λ n s. shutdown_rounds k s n)) run ∙ more, last, replies, log, pods)
