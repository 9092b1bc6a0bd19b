-- ===== src/Manager/Nodes.antt =====
-- manager/Manager.h: the map of the pods behind a change of one pod.
use tiny_swarm.Prelude.{
  ℕ, ◌≡◌, refl, sym, ap, ◌∙◌, true, List, [], ◌∷◌, Option, some, ◌==◌, arith, if_true, if_false,
  Bool-cases, inl, inr, some-injective,
}
use tiny_swarm.Text.{Str, ◌==s◌}
use tiny_swarm.Manager.Pod.{PodDescriptor}
use tiny_swarm.Manager.Core.{Node, find_alias, find_node, update_node, erase_node}
use tiny_swarm.Manager.Asking.{==_self}

find_alias_sound :
    (alias : Str) (nodes : List Node) (n : Node)
    → find_alias alias nodes ≡ some n
    → (n.pod.alias ==s alias) ≡ true
unfolding find_alias
find_alias_sound alias [] n h = cc
find_alias_sound alias (x ∷ nodes) n h = elim (Bool-cases (x.pod.alias ==s alias)) [
  | inl same ↦
      ap (λ y. y.pod.alias ==s alias) (sym (some-injective _ _ (sym (if_true _ _ same) ∙ h))) ∙ same
  | inr other ↦ find_alias_sound alias nodes n (sym (if_false _ _ other) ∙ h)
]

abbrev some_changed : (PodDescriptor → PodDescriptor) → Node → Option Node
some_changed f n = some (record n { pod = f n.pod })

pub find_alias-updated :
    (alias : Str) (f : PodDescriptor → PodDescriptor) (nodes : List Node) (n : Node)
    → ((pod : PodDescriptor) → (f pod).alias ≡ pod.alias)
    → find_alias alias nodes ≡ some n
    → find_node n.address nodes ≡ some n
    → find_alias alias (update_node n.address f nodes) ≡ some (record n { pod = f n.pod })
unfolding find_alias find_node update_node
find_alias-updated alias f [] n keeps h h' = cc
find_alias-updated alias f (x ∷ nodes) n keeps h h' = elim (Bool-cases (x.address == n.address)) [
  | inl here ↦
      let same = some-injective _ _ (sym (if_true _ _ here) ∙ h') in
      let named =
        ap (λ a. a ==s alias) (keeps x.pod)
        ∙ ap (λ y. y.pod.alias ==s alias) same
        ∙ find_alias_sound alias (x ∷ nodes) n h in
      ap (find_alias alias) (if_true _ _ here) ∙ if_true _ _ named ∙ ap (some_changed f) same
  | inr away ↦ elim (Bool-cases (x.pod.alias ==s alias)) [
    | inl named ↦
        let same = some-injective _ _ (sym (if_true _ _ named) ∙ h) in
        let wrong = sym away ∙ ap (λ y. y.address == n.address) same ∙ ==_self n.address in cc
    | inr other ↦
        ap (find_alias alias) (if_false _ _ away)
        ∙ if_false _ _ other
        ∙ find_alias-updated alias f nodes n keeps (sym (if_false _ _ other) ∙ h)
            (sym (if_false _ _ away) ∙ h')
  ]
]

pub erase_node-updated :
    (p : ℕ) (f : PodDescriptor → PodDescriptor) (nodes : List Node)
    → erase_node p (update_node p f nodes) ≡ erase_node p nodes
unfolding erase_node update_node
erase_node-updated p f [] = refl
erase_node-updated p f (n ∷ nodes) = ground (arith, erase_node-updated p f nodes)
