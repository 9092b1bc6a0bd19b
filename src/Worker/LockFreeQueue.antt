-- ===== src/Worker/LockFreeQueue.antt =====
-- worker/util/LockFreeQueue.h: the queue between a thread that pushes and a thread that pops. Each step is
-- one access to the memory that the threads share, or to a node; a step that uses a freed node or a null
-- pointer has no result. Addresses are given out in order and not given out again.
use tiny_swarm.Prelude.{ℕ, ◌+◌, List, [], ◌∷◌, ◌++◌, Option, none, some, ◌==◌, if◌then◌else◌}

pub record Cell {ℓ} (A : Type ℓ) : Type ℓ where
  pub data_ : Option A
  pub next : Option ℕ

-- Where `push` stands: before it, with the new node, with the old tail loaded, with the value stored in
-- it, and with the new node behind it.
pub data Producer {ℓ} (A : Type ℓ) : Type ℓ where
  idle : Producer A
  allocated : A → ℕ → Producer A
  loaded filled : A → ℕ → ℕ → Producer A
  linked : A → ℕ → Producer A

-- Where `pop` stands: before it, with the old head loaded, behind the comparison with the tail, with the
-- head moved on, and with the value read.
pub data Consumer : Type 0 where
  waiting : Consumer
  old_head found taken read : ℕ → Consumer

pub record Queue {ℓ} (A : Type ℓ) : Type ℓ where
  pub heap : ℕ → Option (Cell A)
  pub fresh : ℕ
  pub head : ℕ
  pub tail : ℕ
  pub producer : Producer A
  pub consumer : Consumer
  -- the values that have been pushed, and the pointers that have been popped
  pub pushed : List A
  pub popped : List (Option A)

module _ {ℓ} {A : Type ℓ} where
  abbrev pub empty_cell : Option (Cell A)
  empty_cell = some (record { data_ = none; next = none })

  abbrev pub write : (ℕ → Option (Cell A)) → ℕ → Option (Cell A) → ℕ → Option (Cell A)
  write heap p cell q = if q == p then cell else heap q

  -- `LockFreeQueue()`
  abbrev pub new_queue : Queue A
  new_queue = record {
    heap = write (λ p. none) 0 empty_cell;
    fresh = 1;
    head = 0;
    tail = 0;
    producer = idle;
    consumer = waiting;
    pushed = [];
    popped = [];
  }

  -- A call of `push`, up to `node *p = new node`.
  abbrev pub start_push : A → Producer A → Queue A → Queue A
  start_push v idle s = record s {
    heap = write s.heap s.fresh empty_cell;
    fresh = s.fresh + 1;
    producer = allocated v s.fresh;
  }
  start_push v _ s = s

  -- A call of `pop`, up to the load of the head.
  abbrev pub start_pop : Consumer → Queue A → Queue A
  start_pop waiting s = record s { consumer = old_head s.head }
  start_pop _ s = s

  abbrev pub store_data : A → ℕ → ℕ → Option (Cell A) → Queue A → Option (Queue A)
  store_data v p old none s = none
  store_data v p old (some c) s = some (record s {
    heap = write s.heap old (some (record c { data_ = some v }));
    producer = filled v p old;
  })

  abbrev pub store_next : A → ℕ → ℕ → Option (Cell A) → Queue A → Option (Queue A)
  store_next v p old none s = none
  store_next v p old (some c) s = some (record s {
    heap = write s.heap old (some (record c { next = some p }));
    producer = linked v p;
  })

  abbrev pub push_on : Producer A → Queue A → Option (Queue A)
  push_on idle s = some s
  push_on (allocated v p) s = some (record s { producer = loaded v p s.tail })
  push_on (loaded v p old) s = store_data v p old (s.heap old) s
  push_on (filled v p old) s = store_next v p old (s.heap old) s
  push_on (linked v p) s =
      some (record s { tail = p; producer = idle; pushed = s.pushed ++ (v ∷ []) })

  abbrev pub store_head : ℕ → Option ℕ → Queue A → Option (Queue A)
  store_head old none s = none
  store_head old (some next) s = some (record s { head = next; consumer = taken old })

  abbrev pub next_of : ℕ → Option (Cell A) → Queue A → Option (Queue A)
  next_of old none s = none
  next_of old (some c) s = store_head old c.next s

  abbrev pub read_data : ℕ → Option (Cell A) → Queue A → Option (Queue A)
  read_data old none s = none
  read_data old (some c) s =
      some (record s { consumer = read old; popped = s.popped ++ (c.data_ ∷ []) })

  abbrev pub pop_on : Consumer → Queue A → Option (Queue A)
  pop_on waiting s = some s
  pop_on (old_head old) s =
      some (record s { consumer = if old == s.tail then waiting else found old })
  pop_on (found old) s = next_of old (s.heap old) s
  pop_on (taken old) s = read_data old (s.heap old) s
  pop_on (read old) s = some (record s { heap = write s.heap old none; consumer = waiting })

-- What happens next: a call, or a step of a thread.
pub data Event {ℓ} (A : Type ℓ) : Type ℓ where
  push : A → Event A
  push_step pop pop_step : Event A

module _ {ℓ} {A : Type ℓ} where
  abbrev pub step : Event A → Queue A → Option (Queue A)
  step (push v) s = some (start_push v s.producer s)
  step push_step s = push_on s.producer s
  step pop s = some (start_pop s.consumer s)
  step pop_step s = pop_on s.consumer s

  abbrev pub and_then : Option (Queue A) → (Queue A → Option (Queue A)) → Option (Queue A)
  and_then none f = none
  and_then (some s) f = f s

  unfoldable pub run : List (Event A) → Queue A → Option (Queue A)
  run [] s = some s
  run (e ∷ es) s = and_then (step e s) (λ s'. run es s')
