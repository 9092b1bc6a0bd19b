-- ===== src/Manager/Restored.antt =====
-- manager/Manager.cpp: `recover` from the file that `snapshot` has written.
use tiny_swarm.Prelude.{
  ℕ, ◌≡◌, refl, sym, ap, ap₂, ◌∙◌, false, List, [], ◌∷◌, ◌++◌, map, some, if_true, if_false,
  get_elem?, All, arith,
}
use tiny_swarm.Text.{Str, ◌==s◌, ==s-refl}
use tiny_swarm.Manager.Pod.{
  PodDescriptor, WorkerDescriptor, find_worker, to_snapshot_message, snapshot_to_pod,
  snapshot_fields,
}
use tiny_swarm.Manager.Pod.Snapshot.{IsPrintable, restored, snapshot_roundtrip}
use tiny_swarm.Manager.Core.{Node, Manager}
use tiny_swarm.Manager.Calls.{emplace_pod}
use tiny_swarm.Manager.Log.{blank_pod}
use tiny_swarm.Manager.SnapshotFile.{
  pods_end, add_line, bound_line, worker_of, pod_lines, with_info, read_pods,
}
use tiny_swarm.Manager.Saved.{ends_no_part, pods_end-IsSolid, unlisted, find_worker-unlisted}

-- A pod that can be printed with its worker, which is the first one at its address.
pub record IsSaved (workers : List WorkerDescriptor) (n : Node) : Type 0 where
  pub w : ℕ
  pub wd : WorkerDescriptor
  pub bound : n.pod.worker ≡ some w
  pub there : get_elem? workers w ≡ some wd
  pub printable : IsPrintable wd n.pod
  pub known : find_worker wd.ip wd.port workers ≡ some w

-- What the file keeps of a pod: not its address, and its exe params for its docker params.
abbrev pub saved : PodDescriptor → PodDescriptor
saved pod = record pod { ip = []; docker_params = pod.exe_params }

-- The manager that has read the pods.
unfoldable pub load : List Node → Manager → Manager
unfolding emplace_pod
load [] m = m
load (n ∷ nodes) m = load nodes (emplace_pod (saved n.pod) m).0

emplace_pod-workers :
    (pod : PodDescriptor) (m : Manager) → ((emplace_pod pod m).0).workers ≡ m.workers
unfolding emplace_pod
emplace_pod-workers pod m = ground arith

emplace_pod-cur_line :
    (pod : PodDescriptor) (m : Manager) → ((emplace_pod pod m).0).cur_line ≡ m.cur_line
unfolding emplace_pod
emplace_pod-cur_line pod m = ground arith

line_of :
    (workers : List WorkerDescriptor) (n : Node) (h : IsSaved workers n)
    → bound_line n.pod (worker_of n.pod.worker workers) ≡ some (to_snapshot_message h.wd n.pod)
line_of workers n h =
    ap (λ v. bound_line n.pod (worker_of v workers)) h.bound ∙ ap (bound_line n.pod) h.there

restored-saved :
    (workers found : List WorkerDescriptor) (n : Node) (h : IsSaved workers n)
    → found ≡ map unlisted workers
    → restored found h.wd n.pod blank_pod ≡ saved n.pod
restored-saved workers found n h e =
    ap (λ v. record (saved n.pod) { worker = v })
      (ap (find_worker h.wd.ip h.wd.port) e
        ∙ find_worker-unlisted h.wd.ip h.wd.port workers
        ∙ h.known
        ∙ sym h.bound)

pod_line-part :
    (wd : WorkerDescriptor) (pod : PodDescriptor)
    → (to_snapshot_message wd pod ==s pods_end) ≡ false
unfolding to_snapshot_message snapshot_fields
pod_line-part wd pod = ends_no_part pod.service _ pods_end pods_end-IsSolid

end_of_pods : (m : Manager) → read_pods (pods_end ∷ []) m ≡ some m
unfolding read_pods
end_of_pods m =
    if_true (some m)
      (with_info (snapshot_to_pod m.workers pods_end blank_pod)
        (λ info. read_pods [] (emplace_pod info m).0))
      (==s-refl pods_end)

-- The lines of the pods, and what is read from them.
pub read_pods-lines :
    (workers : List WorkerDescriptor) (nodes : List Node)
    → All (IsSaved workers) nodes
    → (lines : List Str) × (pod_lines workers nodes ≡ some lines)
      × ((m : Manager)
          → m.workers ≡ map unlisted workers
          → read_pods (lines ++ (pods_end ∷ [])) m ≡ some (load nodes m))
unfolding pod_lines read_pods load
read_pods-lines workers [] h = ([], refl, λ m e. end_of_pods m)
read_pods-lines workers (n ∷ nodes) h =
    let (lines, written, read) = read_pods-lines workers nodes h.1 in
    let saved_n = h.0 in
    (
      to_snapshot_message saved_n.wd n.pod ∷ lines,
      ap₂ add_line (line_of workers n saved_n) written,
      λ m e.
          if_false _ _ (pod_line-part saved_n.wd n.pod)
          ∙ ap
              (λ o.
                with_info o (λ info. read_pods (lines ++ (pods_end ∷ [])) (emplace_pod info m).0))
              (snapshot_roundtrip saved_n.wd n.pod saved_n.printable m.workers blank_pod)
          ∙ ap (λ info. read_pods (lines ++ (pods_end ∷ [])) (emplace_pod info m).0)
              (restored-saved workers m.workers n saved_n e)
          ∙ read (emplace_pod (saved n.pod) m).0 (emplace_pod-workers (saved n.pod) m ∙ e),
    )

pub load-workers :
    (nodes : List Node) (m : Manager)
    → ((load nodes m).workers ≡ m.workers) × ((load nodes m).cur_line ≡ m.cur_line)
unfolding load
load-workers [] m = (refl, refl)
load-workers (n ∷ nodes) m =
    let (workers, line) = load-workers nodes (emplace_pod (saved n.pod) m).0 in
    (workers ∙ emplace_pod-workers (saved n.pod) m, line ∙ emplace_pod-cur_line (saved n.pod) m)
