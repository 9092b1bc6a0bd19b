-- ===== src/Manager/Deletion.antt =====
-- manager/ServiceManager: `deleteService` of a service whose pod is not stopped, and what
-- `shutdownFailedPod` does with it from then on.
use tiny_swarm.Prelude.{
  ℕ, ◌≡◌, refl, sym, subst, All, Bool, if◌then◌else◌, ap, ◌∙◌, true, List, [], ◌∷◌, ◌++◌, some,
}
use tiny_swarm.Text.{Str}
use tiny_swarm.Manager.Pod.{WorkerDescriptor}
use tiny_swarm.Manager.Core.{Node, Reply, Manager, Outcome, done, after}
use tiny_swarm.Manager.Creation.{reason_of}
use tiny_swarm.Manager.Stops.{StopResult, kept, stop_pod}
use tiny_swarm.Manager.Telling.{IsStored, back_wd}
use tiny_swarm.Manager.Stopping.{down, with_kept, with_kept-IsStored, stop_refused_once}
use tiny_swarm.Manager.Service.{
  ServiceDescriptor, hung, close, is_empty, keep_unstopped, stop_pods, stop_pods_in_service,
}
use tiny_swarm.Manager.Registry.{
  Registry, find_service, set_service_descriptor, delete_found, delete_service, end_closed,
}
use tiny_swarm.Manager.Hung.{
  IsDead, find_service-set, IsHung, shutdown_rounds, shutdown_rounds-IsHung,
}

stop_pods-refused :
    (p : ℕ) (m m' : Manager) (reason : Str)
    → stop_pod p m ≡ done m' (kept reason)
    → stop_pods stop_pod (p ∷ []) m ≡ done m' (p ∷ [])
unfolding stop_pods
stop_pods-refused p m m' reason h =
    let go : Manager → StopResult → Outcome (List ℕ) = λ n result.
      after (stop_pods stop_pod [] n) (λ n' left. done n' (keep_unstopped p result left)) in
    ap (λ o. after o go) h

-- The registry behind the deletion of a service that hangs.
abbrev pub hanging : ServiceDescriptor → Registry → Registry
hanging sd r = record r {
  services = set_service_descriptor (record sd { status = hung }) r.services;
  end_list = r.end_list ++ (sd.token ∷ []);
}

delete_refused :
    (token : Str) (r : Registry) (m m' : Manager) (sd : ServiceDescriptor) (p : ℕ) (reason : Str)
    → find_service token r.services ≡ some sd
    → sd.pods ≡ p ∷ []
    → stop_pod p m ≡ done m' (kept reason)
    → delete_service stop_pod token r m ≡ done m' (hanging sd r, true)
unfolding delete_service stop_pods_in_service
delete_refused token r m m' sd p reason found one refused =
    let status = λ (left : List ℕ). if is_empty left then close else hung in
    let go : Manager → ServiceDescriptor → Outcome (Registry × Bool) = λ n sd₁.
      after (end_closed stop_pod sd₁.status sd₁ (r.end_list ++ (sd.token ∷ [])) r n)
        (λ n' r'. done n' (r', true)) in
    ap (λ o. delete_found stop_pod r o m) found
    ∙ ap
        (λ o.
          after (after o (λ n left. done n (record sd { pods = left; status = status left }))) go)
        (ap (λ ps. stop_pods stop_pod ps m) one ∙ stop_pods-refused p m m' reason refused)
    ∙ ap (λ ps. go m' (record sd { pods = ps; status = hung })) (sym one)

-- If the worker of the only pod of a service is lost or refuses to stop it, but not because it has given
-- the manager up, when the service is deleted while no other is to be ended: then `deleteService` answers
-- yes, and however often `shutdownFailedPod` is called then, the service stays to be ended with its
-- pod, which stays in the map and counts as dead, no worker is asked again and nothing more is logged.
pub refused_hangs :
    (k : ℕ) (token : Str) (r : Registry) (m : Manager) (sd : ServiceDescriptor) (info : Node)
    (w : ℕ) (wd : WorkerDescriptor) (reply : Reply) (replies : List Reply) (reason : Str)
    → r.end_list ≡ []
    → find_service token r.services ≡ some sd
    → sd.token ≡ token
    → sd.pods ≡ info.address ∷ []
    → IsStored info w wd m
    → info.pod.alive ≡ true
    → m.replies ≡ reply ∷ replies
    → reason_of reply ≡ some reason
    → (m₁ m' : Manager) × (r₁ r' : Registry) × (delete_service stop_pod token r m
        ≡ done m₁ (r₁, true))
      × (shutdown_rounds k r₁ m₁ ≡ done m' r')
      × IsHung token info.address [] r' m'
      × (m'.replies ≡ replies)
      × (m'.log ≡ m₁.log)
      × (m'.pods ≡ m₁.pods)
unfolding with_kept
refused_hangs k token r m sd info w wd reply replies reason alone found named one stored alive
      answer fails =
    let m₁ = with_kept info w wd replies m in
    let gone : IsDead m₁ info.address = record {
      info = record info { pod = down info.pod };
      w = w;
      wd = back_wd info w wd m;
      stored = with_kept-IsStored info w wd m replies stored;
      dead = refl;
      address = refl;
    } in
    let hangs : IsHung token info.address [] (hanging sd r) m₁ = record {
      sd = record sd { status = hung };
      waits = ap (λ ends. ends ++ (sd.token ∷ [])) alone ∙ ap (λ t. t ∷ []) named;
      found = find_service-set token sd (record sd { status = hung }) r.services found named;
      named = named;
      pods = one;
      dead = subst (All (IsDead m₁)) (sym one) (gone, tt);
    } in
    let (m', r', run, still, rest, log, pods) =
      shutdown_rounds-IsHung k token info.address [] (hanging sd r) m₁ hangs in
    (
      m₁,
      m',
      hanging sd r,
      r',
      delete_refused token r m m₁ sd info.address reason found one
          (stop_refused_once info w wd m reply replies reason stored alive answer fails),
      run,
      still,
      rest,
      log,
      pods,
    )
