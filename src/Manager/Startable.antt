-- ===== src/Manager/Startable.antt =====
-- manager/Manager.cpp: the pods that `recover` starts again.
use tiny_swarm.Prelude.{
  ℕ, ◌≡◌, refl, sym, ap, ◌∙◌, Bool, List, [], ◌∷◌, some, ◌==◌, if_true, if_false, get_elem?, All,
  some-injective, Bool-cases, inl, inr,
}
use tiny_swarm.Manager.Pod.{PodDescriptor, WorkerDescriptor}
use tiny_swarm.Manager.Core.{Node, find_node, update_node}

-- A pod in the map whose worker is known.
pub record IsStartable (nodes : List Node) (workers : List WorkerDescriptor) (p : ℕ) : Type 0 where
  pub node : Node
  pub w : ℕ
  pub wd : WorkerDescriptor
  pub stored : find_node p nodes ≡ some node
  pub bound : node.pod.worker ≡ some w
  pub there : get_elem? workers w ≡ some wd

abbrev pub with_alive : Bool → PodDescriptor → PodDescriptor
with_alive b pod = record pod { alive = b }

find_node_kept :
    (p q : ℕ) (b : Bool) (nodes : List Node) (n : Node)
    → find_node p nodes ≡ some n
    → (n' : Node) × (find_node p (update_node q (with_alive b) nodes) ≡ some n')
      × (n'.pod.worker ≡ n.pod.worker)
unfolding find_node update_node
find_node_kept p q b [] n h = cc
find_node_kept p q b (x ∷ nodes) n h =
    let x' : Node = record x { pod = with_alive b x.pod } in
    elim (Bool-cases (x.address == p)) [
      | inl here ↦
          let same : x.pod.worker ≡ n.pod.worker =
            ap (λ y. y.pod.worker) (some-injective _ _ (sym (if_true _ _ here) ∙ h)) in
          elim (Bool-cases (x.address == q)) [
            | inl changed ↦
                (x', ap (find_node p) (if_true _ _ changed) ∙ if_true (some x') _ here, same)
            | inr other ↦ (x, ap (find_node p) (if_false _ _ other) ∙ if_true (some x) _ here, same)
          ]
      | inr away ↦
          let found = sym (if_false _ _ away) ∙ h in
          elim (Bool-cases (x.address == q)) [
            | inl changed ↦ (
              n,
              ap (find_node p) (if_true _ _ changed) ∙ if_false (some x') _ away ∙ found,
              refl,
            )
            | inr other ↦
                let (n', stored, same) = find_node_kept p q b nodes n found in
                (
                  n',
                  ap (find_node p) (if_false _ _ other) ∙ if_false (some x) _ away ∙ stored,
                  same,
                )
          ]
    ]

IsStartable-update_node :
    (q : ℕ) (b : Bool) (nodes : List Node) (workers : List WorkerDescriptor) (p : ℕ)
    → IsStartable nodes workers p
    → IsStartable (update_node q (with_alive b) nodes) workers p
IsStartable-update_node q b nodes workers p h =
    let (n', stored, same) = find_node_kept p q b nodes h.node h.stored in
    record {
      node = n';
      w = h.w;
      wd = h.wd;
      stored = stored;
      bound = same ∙ h.bound;
      there = h.there;
    }

pub AreStartable-update_node :
    (q : ℕ) (b : Bool) (nodes : List Node) (workers : List WorkerDescriptor) (ps : List ℕ)
    → All (IsStartable nodes workers) ps
    → All (IsStartable (update_node q (with_alive b) nodes) workers) ps
AreStartable-update_node q b nodes workers [] h = tt
AreStartable-update_node q b nodes workers (p ∷ ps) h = (
  IsStartable-update_node q b nodes workers p h.0,
  AreStartable-update_node q b nodes workers ps h.1,
)
