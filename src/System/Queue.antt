-- ===== src/System/Queue.antt =====
-- lib/queue.c: a linked list with a pointer to its last link.
pub mod Chain
pub mod Fifo
pub mod Runs
use cs4411_p.Base.{ℕ, ◌+◌, ◌-◌, Bool, Option, none, some, ◌==◌, if◌then◌else◌}

-- `struct element`. A pointer is a number, and 0 is null.
pub record Element (A : Type 0) : Type 0 where
  pub next : ℕ
  pub item : A

-- The memory: the elements that are allocated, and an address above all that were ever given out.
-- `calloc` is taken not to fail.
pub record Heap (A : Type 0) : Type 0 where
  pub cells : ℕ → Option (Element A)
  pub fresh : ℕ

-- A pointer to a link: `&q->first` or `&e->next`.
pub data Link : Type 0 where
  to_first : Link
  to_next : ℕ → Link

-- `struct queue`. The counter is at least 0 as long as elements are taken from a queue that has
-- some; its overflow past 2^31 is not modelled.
pub record Queue : Type 0 where
  pub first : ℕ
  pub last : Link
  pub nelts : ℕ

unfoldable pub queue_init : Queue
queue_init = record { first = 0; last = to_first; nelts = 0 }

unfoldable pub queue_empty : Queue → Bool
queue_empty q = q.first == 0

unfoldable pub queue_size : Queue → ℕ
queue_size q = q.nelts

module _ {A : Type 0} where
  -- The memory after `*p = e` or `free(p)`.
  abbrev pub assign : (ℕ → Option (Element A)) → ℕ → Option (Element A) → ℕ → Option (Element A)
  assign cells p e a = if a == p then e else cells a

  -- `*q->last = e`. A link in an element that is not allocated, which C does not define, changes
  -- nothing here.
  abbrev pub set_link :
      Queue → (ℕ → Option (Element A)) → Link → ℕ → Queue × (ℕ → Option (Element A))
  set_link q cells to_first e = (record q { first = e }, cells)
  set_link q cells (to_next p) e = elim (cells p) [
    | none ↦ (q, cells)
    | some x ↦ (q, assign cells p (some (record x { next = e })))
  ]

  unfoldable pub queue_insert : Queue → Heap A → A → Queue × Heap A
  queue_insert q h item =
      let e = h.fresh in
      (
        record {
          first = e;
          last = if q.first == 0 then to_next e else q.last;
          nelts = q.nelts + 1;
        },
        record {
          cells = assign h.cells e (some (record { next = q.first; item = item }));
          fresh = e + 1;
        },
      )

  unfoldable pub queue_add : Queue → Heap A → A → Queue × Heap A
  queue_add q h item =
      let e = h.fresh in
      let cells = assign h.cells e (some (record { next = 0; item = item })) in
      let (q', cells') = set_link q cells q.last e in
      (
        record q' { last = to_next e; nelts = q.nelts + 1 },
        record { cells = cells'; fresh = e + 1 },
      )

  -- `queue_tget`; `none` is its result false. An element that is not allocated is one, too.
  unfoldable pub queue_tget : Queue → Heap A → Option (A × Queue × Heap A)
  queue_tget q h = if q.first == 0 then none else elim (h.cells q.first) [
    | none ↦ none
    | some e ↦ some (
      e.item,
      record {
        first = e.next;
        last = if e.next == 0 then to_first else q.last;
        nelts = q.nelts - 1;
      },
      record h { cells = assign h.cells q.first none },
    )
  ]

  -- `null` is what `queue_get` returns for an empty queue.
  unfoldable pub queue_get : A → Queue → Heap A → A × Queue × Heap A
  unfolding queue_tget
  queue_get null q h = elim (queue_tget q h) [ none ↦ (null, q, h) | some r ↦ r ]
