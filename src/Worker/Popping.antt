-- ===== src/Worker/Popping.antt =====
-- worker/util/LockFreeQueue.h: the steps of the thread that pops.
use tiny_swarm.Prelude.{
  ℕ, ◌<◌, ◌≡◌, refl, sym, ap, subst, ◌∙◌, inl, inr, List, [], ◌∷◌, ◌++◌, map, append_assoc, none,
  some, ◌==◌, if_true, if_false, Bool-cases, arith,
}
use tiny_swarm.Worker.LockFreeQueue.{
  Producer, Consumer, waiting, old_head, found, taken, read, Queue, write, start_pop, next_of,
  read_data, pop_on,
}
use tiny_swarm.Worker.Chains.{Chain, Chain-le, Chain-write}
use tiny_swarm.Worker.Fifo.{IsProducing, IsConsuming, IsGood, IsProducing-write}

module _ {A : Type 0} where
  -- A step of the consumer that leaves the nodes as they are.
  IsGood-consuming :
      (pr : Producer A) (co co' : Consumer) (s : Queue A)
      → (g : IsGood pr co s) → IsConsuming s.heap s.head s.tail g.pending co'
      → IsGood pr co' (record s { consumer = co' })
  IsGood-consuming pr co co' s g consuming = record {
    values = g.values;
    pending = g.pending;
    chain = g.chain;
    producing = g.producing;
    consuming = consuming;
    history = g.history;
  }

  pub start_pop-IsGood :
      (pr : Producer A) (s : Queue A)
      → IsGood pr waiting s
      → IsGood pr (old_head s.head) (start_pop waiting s)
  start_pop-IsGood pr s g = IsGood-consuming pr waiting (old_head s.head) s g (g.consuming, refl)

  -- The head moves on to the next node, whose value is still to be read.
  take-IsGood :
      (pr : Producer A) (old : ℕ) (s : Queue A) (values pending : List A)
      → Chain s.heap s.head values s.tail
      → IsProducing s.heap s.tail s.fresh pr
      → map some s.pushed ≡ s.popped ++ map some (pending ++ values)
      → pending ≡ []
      → old ≡ s.head
      → s.head < s.tail
      → (s' : Queue A) × (next_of old (s.heap old) s ≡ some s')
        × IsGood pr s'.consumer s'
        × (s'.producer ≡ s.producer)
  take-IsGood pr old s [] pending chain producing history none_left same less =
      absurd (omega (arith, chain, less))
  take-IsGood pr old s (v ∷ values) pending (b, cell, below, rest) producing history none_left same
        less =
      let here = ap s.heap same ∙ cell in
      (
        record s { head = b; consumer = taken old },
        ap (λ o. next_of old o s) here,
        record {
          values = values;
          pending = v ∷ [];
          chain = rest;
          producing = producing;
          consuming = (v, some b, refl, here, omega (arith, below, same));
          history = history ∙ ap (λ l. s.popped ++ map some (l ++ (v ∷ values))) none_left;
        },
        refl,
      )

  -- A step of `pop` has a result, and keeps what holds.
  pub pop_on-IsGood :
      (pr : Producer A) (co : Consumer) (s : Queue A)
      → IsGood pr co s
      → s.producer ≡ pr
      → s.consumer ≡ co
      → (s' : Queue A) × (pop_on co s ≡ some s') × IsGood pr s'.consumer s' × (s'.producer ≡ pr)
  pop_on-IsGood pr waiting s g e c = (s, refl, subst (λ k. IsGood pr k s) (sym c) g, e)
  pop_on-IsGood pr (old_head old) s g e c =
      let (none_left, same) = g.consuming in
      elim (Bool-cases (old == s.tail)) [
        | inl at_tail ↦ (
          record s { consumer = waiting },
          ap (λ k. some (record s { consumer = k })) (if_true _ _ at_tail),
          IsGood-consuming pr (old_head old) waiting s g none_left,
          e,
        )
        | inr before ↦
            let le = Chain-le s.heap s.head g.values s.tail g.chain in
            let less : s.head < s.tail = ground (arith, before, same, le) in
            (
              record s { consumer = found old },
              ap (λ k. some (record s { consumer = k })) (if_false _ _ before),
              IsGood-consuming pr (old_head old) (found old) s g (none_left, same, less),
              e,
            )
      ]
  pop_on-IsGood pr (found old) s g e c =
      let (none_left, same, less) = g.consuming in
      let (s', ran, good, kept) =
        take-IsGood pr old s g.values g.pending g.chain g.producing g.history none_left same less in
      (s', ran, good, kept ∙ e)
  pop_on-IsGood pr (taken old) s g e c =
      let (v, n, one, cell, less) = g.consuming in
      (
        record s { consumer = read old; popped = s.popped ++ (some v ∷ []) },
        ap (λ o. read_data old o s) cell,
        record {
          values = g.values;
          pending = [];
          chain = g.chain;
          producing = g.producing;
          consuming = (refl, less);
          history =
              g.history
              ∙ ap (λ l. s.popped ++ map some (l ++ g.values)) one
              ∙ sym (append_assoc s.popped (some v ∷ []) (map some g.values));
        },
        e,
      )
  pop_on-IsGood pr (read old) s g e c =
      let (none_left, less) = g.consuming in
      let le = Chain-le s.heap s.head g.values s.tail g.chain in
      (
        record s { heap = write s.heap old none; consumer = waiting },
        refl,
        record {
          values = g.values;
          pending = g.pending;
          chain = Chain-write s.heap s.head g.values s.tail old none (inl less) g.chain;
          producing =
              IsProducing-write s.heap s.tail s.fresh old none pr (omega (arith, less, le))
                g.producing;
          consuming = none_left;
          history = g.history;
        },
        e,
      )
