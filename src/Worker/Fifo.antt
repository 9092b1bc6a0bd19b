-- ===== src/Worker/Fifo.antt =====
-- worker/util/LockFreeQueue.h: what holds between the steps of a thread that pushes and one that pops.
use tiny_swarm.Prelude.{ℕ, ◌≤◌, ◌<◌, ◌≡◌, ◌∙◌, List, [], ◌∷◌, ◌++◌, map, Option, none, some, arith}
use tiny_swarm.Worker.LockFreeQueue.{
  Cell, Producer, idle, allocated, loaded, filled, linked, Consumer, waiting, old_head, found,
  taken, read, Queue, empty_cell, write,
}
use tiny_swarm.Worker.Chains.{Chain, write_other}

module _ {A : Type 0} where
  -- The tail is an empty node until `push` fills it, and the new node lies behind it.
  abbrev pub IsProducing : (ℕ → Option (Cell A)) → ℕ → ℕ → Producer A → Type 0
  IsProducing heap tail fresh idle = (heap tail ≡ empty_cell) × (tail < fresh)
  IsProducing heap tail fresh (allocated v p) =
      (heap tail ≡ empty_cell) × (heap p ≡ empty_cell) × (tail < p) × (p < fresh)
  IsProducing heap tail fresh (loaded v p old) =
      (heap tail ≡ empty_cell) × (heap p ≡ empty_cell) × (tail < p) × (p < fresh) × (old ≡ tail)
  IsProducing heap tail fresh (filled v p old) =
      (heap tail ≡ some (record { data_ = some v; next = none }))
      × (heap p ≡ empty_cell)
      × (tail < p)
      × (p < fresh)
      × (old ≡ tail)
  IsProducing heap tail fresh (linked v p) =
      (heap tail ≡ some (record { data_ = some v; next = some p }))
      × (heap p ≡ empty_cell)
      × (tail < p)
      × (p < fresh)

  -- A node that `pop` has taken lies in front of the head, and holds the value that is not popped yet.
  abbrev pub IsConsuming : (ℕ → Option (Cell A)) → ℕ → ℕ → List A → Consumer → Type 0
  IsConsuming heap head tail pending waiting = pending ≡ []
  IsConsuming heap head tail pending (old_head old) = (pending ≡ []) × (old ≡ head)
  IsConsuming heap head tail pending (found old) = (pending ≡ []) × (old ≡ head) × (head < tail)
  IsConsuming heap head tail pending (taken old) =
      (v : A) × (n : Option ℕ) × (pending ≡ v ∷ [])
      × (heap old ≡ some (record { data_ = some v; next = n }))
      × (old < head)
  IsConsuming heap head tail pending (read old) = (pending ≡ []) × (old < head)

  pub record IsGood (pr : Producer A) (co : Consumer) (s : Queue A) : Type 0 where
    pub values : List A
    pub pending : List A
    pub chain : Chain s.heap s.head values s.tail
    pub producing : IsProducing s.heap s.tail s.fresh pr
    pub consuming : IsConsuming s.heap s.head s.tail pending co
    pub history : map some s.pushed ≡ s.popped ++ map some (pending ++ values)

  -- A write at the tail or past it is not seen by `pop`, which may find the tail moved on.
  pub IsConsuming-write :
      (heap : ℕ → Option (Cell A)) (head tail tail' p : ℕ) (c : Option (Cell A)) (pending : List A)
      (co : Consumer)
      → head ≤ tail
      → tail ≤ tail'
      → tail ≤ p
      → IsConsuming heap head tail pending co
      → IsConsuming (write heap p c) head tail' pending co
  IsConsuming-write heap head tail tail' p c pending waiting h h' past g = g
  IsConsuming-write heap head tail tail' p c pending (old_head old) h h' past g = g
  IsConsuming-write heap head tail tail' p c pending (found old) h h' past g =
      (g.0, g.1, omega (arith, g.2, h'))
  IsConsuming-write heap head tail tail' p c pending (taken old) h h' past (v, n, one, cell, less) =
      (v, n, one, write_other heap p old c (λ e. omega (arith, e, past, less, h)) ∙ cell, less)
  IsConsuming-write heap head tail tail' p c pending (read old) h h' past g = g

  pub IsConsuming-tail :
      (heap : ℕ → Option (Cell A)) (head tail tail' : ℕ) (pending : List A) (co : Consumer)
      → tail ≤ tail'
      → IsConsuming heap head tail pending co
      → IsConsuming heap head tail' pending co
  IsConsuming-tail heap head tail tail' pending waiting h g = g
  IsConsuming-tail heap head tail tail' pending (old_head old) h g = g
  IsConsuming-tail heap head tail tail' pending (found old) h g = (g.0, g.1, omega (arith, g.2, h))
  IsConsuming-tail heap head tail tail' pending (taken old) h g = g
  IsConsuming-tail heap head tail tail' pending (read old) h g = g

  -- A node in front of the tail is not the producer's.
  pub IsProducing-write :
      (heap : ℕ → Option (Cell A)) (tail fresh q : ℕ) (c : Option (Cell A)) (pr : Producer A)
      → q < tail
      → IsProducing heap tail fresh pr
      → IsProducing (write heap q c) tail fresh pr
  IsProducing-write heap tail fresh q c idle h g =
      (write_other heap q tail c (λ e. omega (arith, e, h)) ∙ g.0, g.1)
  IsProducing-write heap tail fresh q c (allocated v p) h (cell, new, less, below) = (
    write_other heap q tail c (λ e. omega (arith, e, h)) ∙ cell,
    write_other heap q p c (λ e. omega (arith, e, h, less)) ∙ new,
    less,
    below,
  )
  IsProducing-write heap tail fresh q c (loaded v p old) h (cell, new, less, below, same) = (
    write_other heap q tail c (λ e. omega (arith, e, h)) ∙ cell,
    write_other heap q p c (λ e. omega (arith, e, h, less)) ∙ new,
    less,
    below,
    same,
  )
  IsProducing-write heap tail fresh q c (filled v p old) h (cell, new, less, below, same) = (
    write_other heap q tail c (λ e. omega (arith, e, h)) ∙ cell,
    write_other heap q p c (λ e. omega (arith, e, h, less)) ∙ new,
    less,
    below,
    same,
  )
  IsProducing-write heap tail fresh q c (linked v p) h (cell, new, less, below) = (
    write_other heap q tail c (λ e. omega (arith, e, h)) ∙ cell,
    write_other heap q p c (λ e. omega (arith, e, h, less)) ∙ new,
    less,
    below,
  )
