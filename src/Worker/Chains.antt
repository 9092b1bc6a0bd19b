-- ===== src/Worker/Chains.antt =====
-- worker/util/LockFreeQueue.h: the nodes from the head to the tail.
use tiny_swarm.Prelude.{
  ℕ, ◌≤◌, ◌<◌, ◌≡◌, ◌≢◌, refl, sym, ap, subst, ◌∙◌, ◌⊎◌, inl, inr, List, [], ◌∷◌, ◌++◌, Option,
  some, arith,
}
use tiny_swarm.Worker.LockFreeQueue.{Cell, write}

module _ {A : Type 0} where
  -- The values in the nodes from an address up to another, which is not among them.
  abbrev pub Chain : (ℕ → Option (Cell A)) → ℕ → List A → ℕ → Type 0
  Chain heap a [] t = a ≡ t
  Chain heap a (v ∷ vs) t =
      (b : ℕ) × (heap a ≡ some (record { data_ = some v; next = some b }))
      × (a < b)
      × Chain heap b vs t

  pub write_same : (heap : ℕ → Option (Cell A)) (p : ℕ) (c : Option (Cell A)) → write heap p c p ≡ c
  write_same heap p c = ground arith

  pub write_other :
      (heap : ℕ → Option (Cell A)) (p q : ℕ) (c : Option (Cell A))
      → q ≢ p
      → write heap p c q ≡ heap q
  write_other heap p q c h = ground (arith, h)

  pub Chain-le :
      (heap : ℕ → Option (Cell A)) (a : ℕ) (vs : List A) (t : ℕ) → Chain heap a vs t → a ≤ t
  Chain-le heap a [] t h = omega (arith, h)
  Chain-le heap a (v ∷ vs) t (b, cell, less, rest) = omega (arith, less, Chain-le heap b vs t rest)

  -- A write to the tail or past it, or to a node in front of the chain, leaves the chain as it is.
  pub Chain-write :
      (heap : ℕ → Option (Cell A)) (a : ℕ) (vs : List A) (t p : ℕ) (c : Option (Cell A))
      → (p < a) ⊎ (t ≤ p)
      → Chain heap a vs t
      → Chain (write heap p c) a vs t
  Chain-write heap a [] t p c away h = h
  Chain-write heap a (v ∷ vs) t p c away (b, cell, less, rest) =
      let below = Chain-le heap b vs t rest in
      let other : a ≢ p = λ e. elim away [
        | inl front ↦ omega (arith, e, front)
        | inr past ↦ omega (arith, e, past, less, below)
      ] in
      (
        b,
        write_other heap p a c other ∙ cell,
        less,
        Chain-write heap b vs t p c
            (elim away [ inl front ↦ inl (omega (arith, front, less)) | inr past ↦ inr past ]) rest,
      )

  -- A chain that goes on to a new node.
  pub Chain-append :
      (heap : ℕ → Option (Cell A)) (a : ℕ) (vs : List A) (t p : ℕ) (v : A)
      → Chain heap a vs t
      → heap t ≡ some (record { data_ = some v; next = some p })
      → t < p
      → Chain heap a (vs ++ (v ∷ [])) p
  Chain-append heap a [] t p v h cell less =
      (p, ap heap h ∙ cell, subst (λ q. q < p) (sym h) less, refl)
  Chain-append heap a (w ∷ vs) t p v (b, first, below, rest) cell less =
      (b, first, below, Chain-append heap b vs t p v rest cell less)
