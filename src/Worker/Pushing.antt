-- ===== src/Worker/Pushing.antt =====
-- worker/util/LockFreeQueue.h: the steps of the thread that pushes.
use tiny_swarm.Prelude.{
  ℕ, ◌+◌, ◌≤◌, ◌≡◌, refl, sym, ap, subst, ◌∙◌, inr, List, [], ◌∷◌, ◌++◌, map, append_assoc, Option,
  none, some, arith,
}
use tiny_swarm.Worker.LockFreeQueue.{
  Cell, Producer, idle, allocated, loaded, filled, linked, Consumer, Queue, empty_cell, write,
  start_push, store_data, store_next, push_on,
}
use tiny_swarm.Worker.Chains.{write_same, write_other, Chain-le, Chain-write, Chain-append}
use tiny_swarm.Worker.Fifo.{IsProducing, IsGood, IsConsuming-write, IsConsuming-tail}

pub map-append {ℓ κ} :
    {A : Type ℓ} {B : Type κ} (f : A → B) (xs ys : List A) → map f (xs ++ ys) ≡ map f xs ++ map f ys
map-append f [] ys = refl
map-append f (x ∷ xs) ys = ap (λ zs. f x ∷ zs) (map-append f xs ys)

module _ {A : Type 0} where
  -- A write of the producer, of a node that the chain does not have.
  IsGood-write :
      (pr pr' : Producer A) (co : Consumer) (s : Queue A) (p fresh : ℕ) (c : Option (Cell A))
      → IsGood pr co s
      → s.tail ≤ p
      → IsProducing (write s.heap p c) s.tail fresh pr'
      → IsGood pr' co (record s { heap = write s.heap p c; fresh = fresh; producer = pr' })
  IsGood-write pr pr' co s p fresh c g past producing = record {
    values = g.values;
    pending = g.pending;
    chain = Chain-write s.heap s.head g.values s.tail p c (inr past) g.chain;
    producing = producing;
    consuming =
        IsConsuming-write s.heap s.head s.tail s.tail p c g.pending co
          (Chain-le s.heap s.head g.values s.tail g.chain) (omega arith) past g.consuming;
    history = g.history;
  }

  pub start_push-IsGood :
      (v : A) (co : Consumer) (s : Queue A)
      → IsGood idle co s
      → IsGood (allocated v s.fresh) co (start_push v idle s)
  start_push-IsGood v co s g =
      let (cell, below) = g.producing in
      IsGood-write idle (allocated v s.fresh) co s s.fresh (s.fresh + 1) empty_cell g
        (omega (arith, below))
        (
          write_other s.heap s.fresh s.tail empty_cell (λ e. omega (arith, e, below)) ∙ cell,
          write_same s.heap s.fresh empty_cell,
          below,
          omega arith,
        )

  -- A step of `push` has a result, and keeps what holds.
  pub push_on-IsGood :
      (pr : Producer A) (co : Consumer) (s : Queue A)
      → IsGood pr co s
      → s.producer ≡ pr
      → s.consumer ≡ co
      → (s' : Queue A) × (push_on pr s ≡ some s') × IsGood s'.producer co s' × (s'.consumer ≡ co)
  push_on-IsGood idle co s g e c = (s, refl, subst (λ p. IsGood p co s) (sym e) g, c)
  push_on-IsGood (allocated v p) co s g e c =
      let (cell, new, less, below) = g.producing in
      (
        record s { producer = loaded v p s.tail },
        refl,
        record {
          values = g.values;
          pending = g.pending;
          chain = g.chain;
          producing = (cell, new, less, below, refl);
          consuming = g.consuming;
          history = g.history;
        },
        c,
      )
  push_on-IsGood (loaded v p old) co s g e c =
      let (cell, new, less, below, same) = g.producing in
      let stored : Option (Cell A) = some (record { data_ = some v; next = none }) in
      (
        record s { heap = write s.heap old stored; producer = filled v p old },
        ap (λ o. store_data v p old o s) (ap s.heap same ∙ cell),
        IsGood-write (loaded v p old) (filled v p old) co s old s.fresh stored g
            (omega (arith, same))
            (
              ap (write s.heap old stored) (sym same) ∙ write_same s.heap old stored,
              write_other s.heap old p stored (λ q. omega (arith, q, less, same)) ∙ new,
              less,
              below,
              same,
            ),
        c,
      )
  push_on-IsGood (filled v p old) co s g e c =
      let (cell, new, less, below, same) = g.producing in
      let stored : Option (Cell A) = some (record { data_ = some v; next = some p }) in
      (
        record s { heap = write s.heap old stored; producer = linked v p },
        ap (λ o. store_next v p old o s) (ap s.heap same ∙ cell),
        IsGood-write (filled v p old) (linked v p) co s old s.fresh stored g (omega (arith, same)) (
          ap (write s.heap old stored) (sym same) ∙ write_same s.heap old stored,
          write_other s.heap old p stored (λ q. omega (arith, q, less, same)) ∙ new,
          less,
          below,
        ),
        c,
      )
  push_on-IsGood (linked v p) co s g e c =
      let (cell, new, less, below) = g.producing in
      (
        record s { tail = p; producer = idle; pushed = s.pushed ++ (v ∷ []) },
        refl,
        record {
          values = g.values ++ (v ∷ []);
          pending = g.pending;
          chain = Chain-append s.heap s.head g.values s.tail p v g.chain cell less;
          producing = (new, below);
          consuming =
              IsConsuming-tail s.heap s.head s.tail p g.pending co (omega (arith, less))
                g.consuming;
          history =
              map-append some s.pushed (v ∷ [])
              ∙ ap (λ l. l ++ (some v ∷ [])) g.history
              ∙ append_assoc s.popped (map some (g.pending ++ g.values)) (some v ∷ [])
              ∙ ap (λ l. s.popped ++ l)
                  (sym (map-append some (g.pending ++ g.values) (v ∷ []))
                    ∙ ap (map some) (append_assoc g.pending g.values (v ∷ [])));
        },
        c,
      )
