-- ===== src/Manager/Reading.antt =====
-- manager/Manager.cpp: `recover` from the whole file that `snapshot` has written.
use tiny_swarm.Prelude.{
  ℕ, ◌≤◌, ◌≡◌, refl, sym, ap, ◌∙◌, true, List, [], ◌∷◌, ◌++◌, map, append-nil, Option, none, some,
  if◌then◌else◌, if_true, if_false, All, Bool-cases, inl, inr,
}
use tiny_swarm.Prelude.Int.{pos}
use tiny_swarm.Text.{Str, ◌==s◌, ==s-eq}
use tiny_swarm.Text.Stream.{get_int, print_int, is_space, max_int, skip_space}
use tiny_swarm.Text.Stream.Integers.{get_int-print_int}
use tiny_swarm.Manager.Pod.{PodDescriptor, WorkerDescriptor}
use tiny_swarm.Manager.Core.{Node, Manager, find_alias}
use tiny_swarm.Manager.Calls.{emplaced, emplace_pod}
use tiny_swarm.Manager.SnapshotFile.{
  workers_end, pods_end, worker_line, whole_file, write_snapshot, read_rest, read_from,
  read_snapshot,
}
use tiny_swarm.Manager.Saved.{IsAddress, unlisted, read_workers-lines}
use tiny_swarm.Manager.Restored.{IsSaved, saved, load, read_pods-lines, load-workers}

abbrev pub pod_of_node : Option Node → Option PodDescriptor
pod_of_node none = none
pod_of_node (some n) = some n.pod

-- The pod under a name.
unfoldable pub pod_under : Str → List Node → Option PodDescriptor
unfolding find_alias
pod_under alias nodes = pod_of_node (find_alias alias nodes)

abbrev pub saved_found : Option PodDescriptor → Option PodDescriptor
saved_found none = none
saved_found (some pod) = some (saved pod)

abbrev or_else : Option PodDescriptor → Option PodDescriptor → Option PodDescriptor
or_else none o = o
or_else (some pod) o = some pod

or_else-none : (o : Option PodDescriptor) → or_else o none ≡ o
or_else-none none = refl
or_else-none (some pod) = refl

or_else_assoc : (a b c : Option PodDescriptor) → or_else (or_else a b) c ≡ or_else a (or_else b c)
or_else_assoc none b c = refl
or_else_assoc (some pod) b c = refl

abbrev pub if_named : Str → PodDescriptor → Option PodDescriptor
if_named alias pod = if pod.alias ==s alias then some pod else none

same_under :
    (alias alias' : Str) (nodes : List Node) (o : Option Node)
    → (alias' ==s alias) ≡ true
    → find_alias alias' nodes ≡ o
    → pod_under alias nodes ≡ pod_of_node o
unfolding pod_under
same_under alias alias' nodes o same h =
    ap (λ a. pod_of_node (find_alias a nodes)) (sym (==s-eq alias' alias same)) ∙ ap pod_of_node h

emplaced_under :
    (alias : Str) (pod : PodDescriptor) (m : Manager) (o : Option Node)
    → find_alias pod.alias m.pods ≡ o
    → pod_under alias (emplaced pod m o).0.pods
      ≡ or_else (pod_under alias m.pods) (if_named alias pod)
unfolding pod_under find_alias
emplaced_under alias pod m (some n) h = elim (Bool-cases (pod.alias ==s alias)) [
  | inl same ↦
      let found = same_under alias pod.alias m.pods (some n) same h in
      found ∙ sym (ap (λ p. or_else p (if_named alias pod)) found)
  | inr other ↦ sym (
      ap (or_else (pod_under alias m.pods)) (if_false (some pod) none other)
      ∙ or_else-none (pod_under alias m.pods))
]
emplaced_under alias pod m none h =
    let new : Node = record { address = m.next_address; pod = pod } in
    elim (Bool-cases (pod.alias ==s alias)) [
      | inl same ↦
          ap pod_of_node (if_true (some new) (find_alias alias m.pods) same)
          ∙ sym (
              ap (λ p. or_else p (if_named alias pod))
                (same_under alias pod.alias m.pods none same h)
              ∙ if_true (some pod) none same)
      | inr other ↦
          ap pod_of_node (if_false (some new) (find_alias alias m.pods) other)
          ∙ sym (
              ap (or_else (pod_under alias m.pods)) (if_false (some pod) none other)
              ∙ or_else-none (pod_under alias m.pods))
    ]

saved_found-cons :
    (alias : Str) (n : Node) (nodes : List Node)
    → saved_found (pod_under alias (n ∷ nodes))
      ≡ or_else (if_named alias (saved n.pod)) (saved_found (pod_under alias nodes))
unfolding pod_under find_alias
saved_found-cons alias n nodes = elim (Bool-cases (n.pod.alias ==s alias)) [
  | inl same ↦
      ap (λ o. saved_found (pod_of_node o)) (if_true (some n) (find_alias alias nodes) same)
      ∙ sym (
          ap (λ o. or_else o (saved_found (pod_under alias nodes)))
            (if_true (some (saved n.pod)) none same))
  | inr other ↦
      ap (λ o. saved_found (pod_of_node o)) (if_false (some n) (find_alias alias nodes) other)
      ∙ sym (
          ap (λ o. or_else o (saved_found (pod_under alias nodes)))
            (if_false (some (saved n.pod)) none other))
]

load-pod_under :
    (alias : Str) (nodes : List Node) (m : Manager)
    → pod_under alias (load nodes m).pods
      ≡ or_else (pod_under alias m.pods) (saved_found (pod_under alias nodes))
unfolding load emplace_pod pod_under
load-pod_under alias [] m = sym (or_else-none (pod_under alias m.pods))
load-pod_under alias (n ∷ nodes) m =
    load-pod_under alias nodes (emplace_pod (saved n.pod) m).0
    ∙ ap (λ o. or_else o (saved_found (pod_under alias nodes)))
        (emplaced_under alias (saved n.pod) m (find_alias n.pod.alias m.pods) refl)
    ∙ or_else_assoc (pod_under alias m.pods) (if_named alias (saved n.pod))
        (saved_found (pod_under alias nodes))
    ∙ ap (or_else (pod_under alias m.pods)) (sym (saved_found-cons alias n nodes))

-- Without a blank in front.
get_int-line : (n : ℕ) → n ≤ max_int → get_int (some (print_int (pos n))) (pos 0) ≡ (pos n, some [])
unfolding get_int skip_space is_space
get_int-line n h =
    ap (λ s. get_int (some s) (pos 0)) (sym (append-nil (print_int (pos n))))
    ∙ get_int-print_int (pos n) (pos 0) [] h refl

-- The file of a manager whose workers and pods can be printed is read back into a manager without workers
-- and pods, whatever the times in it: the number of the log's line is the same, and so are the workers
-- but for their lists of pods; and under each name there is the pod that was there, with its worker,
-- but without its own address and with its exe params for its docker params, or none if there was none.
pub read_snapshot-write_snapshot :
    (time : WorkerDescriptor → Str) (m m₀ : Manager) (alias : Str)
    → m.cur_line ≤ max_int
    → All IsAddress m.workers
    → All (IsSaved m.workers) m.pods
    → m₀.workers ≡ []
    → m₀.pods ≡ []
    → (lines : List Str) × (r : Manager) × (write_snapshot time m ≡ some lines)
      × (read_snapshot lines m₀ ≡ some r)
      × (r.cur_line ≡ m.cur_line)
      × (r.workers ≡ map unlisted m.workers)
      × (pod_under alias r.pods ≡ saved_found (pod_under alias m.pods))
unfolding write_snapshot read_snapshot pod_under find_alias
read_snapshot-write_snapshot time m m₀ alias line addresses pods no_workers no_pods =
    let (lines, written, read) = read_pods-lines m.workers m.pods pods in
    let behind = lines ++ (pods_end ∷ []) in
    let counted : Manager = record m₀ { cur_line = m.cur_line } in
    let known : Manager = record counted { workers = m₀.workers ++ map unlisted m.workers } in
    let same : known.workers ≡ map unlisted m.workers =
      ap (λ ws. ws ++ map unlisted m.workers) no_workers in
    let kept = load-workers m.pods known in
    (
      _,
      load m.pods known,
      ap (whole_file time m) written,
      ap (λ g. read_from g (map (worker_line time) m.workers ++ (workers_end ∷ behind)) m₀)
            (get_int-line m.cur_line line)
          ∙ ap read_rest (read_workers-lines time m.workers behind counted addresses)
          ∙ read known same,
      kept.1,
      kept.0 ∙ same,
      load-pod_under alias m.pods known
          ∙ ap (λ nodes. or_else (pod_under alias nodes) (saved_found (pod_under alias m.pods)))
              no_pods,
    )
