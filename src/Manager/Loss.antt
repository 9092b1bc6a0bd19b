-- ===== src/Manager/Loss.antt =====
-- manager/Manager.cpp: the pods of a worker that has given the manager up.
use tiny_swarm.Prelude.{
  ℕ, ◌≡◌, refl, sym, ap, ◌∙◌, Bool, true, false, List, [], ◌∷◌, ◌++◌, append_assoc, append-nil,
  some, ◌==◌, All, arith, if_true, ◌||◌, if_false, Bool-cases, inl, inr,
}
use tiny_swarm.Text.{Str, ◌==s◌, ==s-refl}
use tiny_swarm.Manager.Pod.{PodDescriptor}
use tiny_swarm.Manager.Core.{
  Node, Manager, find_alias, find_node, update_node, erase_node, erase_pod, update_pod, lose_pods,
  if_found, detach, erase_found,
}
use tiny_swarm.Manager.Asking.{==_self}

-- Whether an address is that of a node.
unfoldable pub has_node : ℕ → List Node → Bool
has_node p [] = false
has_node p (n ∷ nodes) = n.address == p || has_node p nodes

-- Every pointer points to a node.
abbrev pub ArePods : List Node → List ℕ → Type 0
ArePods nodes ps = All (λ p. has_node p nodes ≡ true) ps

pub find_node-some :
    (p : ℕ) (nodes : List Node)
    → has_node p nodes ≡ true
    → (n : Node) × (find_node p nodes ≡ some n)
unfolding find_node has_node
find_node-some p [] h = cc
find_node-some p (n ∷ nodes) h = elim (Bool-cases (n.address == p)) [
  | inl here ↦ (n, if_true (some n) (find_node p nodes) here)
  | inr other ↦
      let rest = find_node-some p nodes (ground (arith, h, other)) in
      (rest.0, if_false (some n) (find_node p nodes) other ∙ rest.1)
]

abbrev pub down : PodDescriptor → PodDescriptor
down pod = record pod { alive = false }

has_node-update_node :
    (p q : ℕ) (nodes : List Node) → has_node p (update_node q down nodes) ≡ has_node p nodes
unfolding has_node update_node
has_node-update_node p q [] = refl
has_node-update_node p q (n ∷ nodes) = ground (arith, has_node-update_node p q nodes)

-- The nodes behind the loss of some pods.
unfoldable pub lost_nodes : List ℕ → List Node → List Node
unfolding update_node
lost_nodes [] nodes = nodes
lost_nodes (p ∷ ps) nodes = lost_nodes ps (update_node p down nodes)

ArePods-update_node :
    (q : ℕ) (nodes : List Node) (ps : List ℕ)
    → ArePods nodes ps
    → ArePods (update_node q down nodes) ps
ArePods-update_node q nodes [] h = tt
ArePods-update_node q nodes (p ∷ ps) h =
    (has_node-update_node p q nodes ∙ h.0, ArePods-update_node q nodes ps h.1)

pub lose_pods_lem :
    (ps : List ℕ) (m : Manager)
    → ArePods m.pods ps
    → lose_pods ps m
      ≡ some (record m { pods = lost_nodes ps m.pods; down_services = m.down_services ++ ps })
unfolding lose_pods lost_nodes update_pod
lose_pods_lem [] m h =
    ap (λ ds. some (record m { down_services = ds })) (sym (append-nil m.down_services))
lose_pods_lem (p ∷ ps) m h =
    let next = record m {
      pods = update_node p down m.pods;
      down_services = m.down_services ++ (p ∷ []);
    } in
    ap (λ o. if_found o (lose_pods ps next)) (find_node-some p m.pods h.0).1
    ∙ lose_pods_lem ps next (ArePods-update_node p m.pods ps h.1)
    ∙ ap
        (λ ds.
          some (record m { pods = lost_nodes ps (update_node p down m.pods); down_services = ds }))
        (append_assoc m.down_services (p ∷ []) ps)

pub has_node-lost_nodes :
    (p : ℕ) (ps : List ℕ) (nodes : List Node) → has_node p (lost_nodes ps nodes) ≡ has_node p nodes
unfolding lost_nodes
has_node-lost_nodes p [] nodes = refl
has_node-lost_nodes p (q ∷ ps) nodes =
    has_node-lost_nodes p ps (update_node q down nodes) ∙ has_node-update_node p q nodes

pub has_node-new : (n : Node) (nodes : List Node) → has_node n.address (n ∷ nodes) ≡ true
unfolding has_node
has_node-new n nodes = ground arith

pub ArePods-more :
    (n : Node) (nodes : List Node) (ps : List ℕ) → ArePods nodes ps → ArePods (n ∷ nodes) ps
unfolding has_node
ArePods-more n nodes [] h = tt
ArePods-more n nodes (p ∷ ps) h = (ground (arith, h.0), ArePods-more n nodes ps h.1)

pub find_node-updated :
    (p : ℕ) (f : PodDescriptor → PodDescriptor) (nodes : List Node) (n : Node)
    → find_node p nodes ≡ some n
    → find_node p (update_node p f nodes) ≡ some (record n { pod = f n.pod })
unfolding find_node update_node
find_node-updated p f [] n h = cc
find_node-updated p f (x ∷ nodes) n h = ground (arith, find_node-updated p f nodes n)

-- The first node under a loss of pods keeps its place, its address and its name.
pub lost_head :
    (ps : List ℕ) (n : Node) (nodes : List Node)
    → (n' : Node) × (nodes' : List Node) × (lost_nodes ps (n ∷ nodes) ≡ n' ∷ nodes')
      × (n'.address ≡ n.address)
      × (n'.pod.alias ≡ n.pod.alias)
      × ((p : ℕ) → has_node p nodes' ≡ has_node p nodes)
unfolding lost_nodes update_node
lost_head [] n nodes = (n, nodes, refl, refl, refl, λ p. refl)
lost_head (q ∷ ps) n nodes = elim (Bool-cases (n.address == q)) [
  | inl here ↦
      let (n', nodes', e, address, alias, same) =
        lost_head ps (record n { pod = down n.pod }) nodes in
      (n', nodes', ap (lost_nodes ps) (if_true _ _ here) ∙ e, address, alias, same)
  | inr other ↦
      let (n', nodes', e, address, alias, same) = lost_head ps n (update_node q down nodes) in
      (
        n',
        nodes',
        ap (lost_nodes ps) (if_false _ _ other) ∙ e,
        address,
        alias,
        λ p. same p ∙ has_node-update_node p q nodes,
      )
]

-- Erasing the name of the first node takes that node out.
pub erase_pod-head :
    (alias : Str) (m : Manager) (n : Node) (nodes : List Node)
    → m.pods ≡ n ∷ nodes
    → n.pod.alias ≡ alias
    → ((erase_pod alias m).pods ≡ nodes) × ((erase_pod alias m).down_services ≡ m.down_services)
unfolding erase_pod find_alias erase_node detach
erase_pod-head alias m n nodes e a =
    let found : find_alias alias m.pods ≡ some n =
      ap (find_alias alias) e ∙ if_true _ _ (ap (λ s. s ==s alias) a ∙ ==s-refl alias) in
    (
      ap (λ o. (erase_found o m).pods) found
          ∙ ap (erase_node n.address) e
          ∙ if_true _ _ (==_self n.address),
      ap (λ o. (erase_found o m).down_services) found,
    )
