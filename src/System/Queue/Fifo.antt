-- ===== src/System/Queue/Fifo.antt =====
-- The operations of lib/queue.c, against a list of items.
use cs4411_p.Base.{
  ℕ, suc, ◌+◌, ◌-◌, ◌<◌, ◌≡◌, refl, sym, ap, ◌∙◌, true, false, Option, none, some, List, [], ◌∷◌,
  ◌++◌, arith, ◌==◌, ==_refl, ==_iff, if◌then◌else◌, length, All,
}
use cs4411_p.Base.{length-append}
use cs4411_p.System.Queue.{
  Element, Heap, to_first, to_next, Queue, assign, set_link, queue_init, queue_insert, queue_add,
  queue_tget, queue_empty, queue_size,
}
use cs4411_p.System.Queue.Chain.{
  Chain, last_link, Apart, items, Chain-agree, All-weaken, Chain-extend, last-behind, last-before,
  items-append, last-append, All-append, Apart-append,
}

module _ {A : Type 0} where
  -- The queue holds the items, in order.
  pub record Holds (q : Queue) (h : Heap A) (xs : List A) : Type 0 where
    pub elements : List (ℕ × A)
    pub chain : Chain h.cells q.first elements
    pub apart : Apart elements
    pub below : All (λ z. z.0 < h.fresh) elements
    pub last : q.last ≡ last_link to_first elements
    pub positive : 0 < h.fresh
    pub all_items : items elements ≡ xs
    pub count : q.nelts ≡ length xs

  tget-elements :
      (q : Queue) (h : Heap A) (es : List (ℕ × A)) (x : A) (xs : List A)
      → Chain h.cells q.first es
      → Apart es
      → All (λ z. z.0 < h.fresh) es
      → q.last ≡ last_link to_first es
      → 0 < h.fresh
      → items es ≡ x ∷ xs
      → q.nelts ≡ suc (length xs)
      → (q' : Queue) × (h' : Heap A) × (queue_tget q h ≡ some (x, q', h')) × Holds q' h' xs
  unfolding queue_tget
  tget-elements q h [] x xs ch far lt la po it co = absurd (ground arith)
  tget-elements q h ((a, x0) ∷ rest) x xs (i, p, n, f, ch) (ne, far) (lt, lts) la po it co =
      let nonnull : (q.first == 0) ≡ false = ground arith in
      let g : h.cells q.first ≡ some (record { next = n; item = x0 }) = rw i f in
      let same : x0 ≡ x = ground arith in
      (
        record { first = n; last = if n == 0 then to_first else q.last; nelts = q.nelts - 1 },
        record h { cells = assign h.cells q.first none },
        rw (nonnull, g) (rw same refl),
        record {
          elements = rest;
          chain =
              Chain-agree h.cells (assign h.cells q.first none) n rest ch
                (All-weaken rest (λ z w. ground (arith, i, ==_iff z.0 a)) ne);
          apart = far;
          below = lts;
          last = last-behind h.cells n a q.last rest ch la;
          positive = po;
          all_items = ground arith;
          count = omega (arith, co);
        },
      )

  -- From a queue that holds `x` and then `xs`, `queue_tget` takes `x`, and the queue then holds `xs`.
  pub tget-Holds :
      (q : Queue) (h : Heap A) (x : A) (xs : List A)
      → Holds q h (x ∷ xs)
      → (q' : Queue) × (h' : Heap A) × (queue_tget q h ≡ some (x, q', h')) × Holds q' h' xs
  tget-Holds q h x xs s =
      tget-elements q h s.elements x xs s.chain s.apart s.below s.last s.positive s.all_items
        s.count

  -- The memory with the new element of `queue_add`.
  abbrev allocated : Heap A → A → ℕ → Option (Element A)
  allocated h y = assign h.cells h.fresh (some (record { next = 0; item = y }))

  -- The memory once it is linked to the element at `l`.
  abbrev linked : Heap A → A → ℕ → Element A → ℕ → Option (Element A)
  linked h y l cell = assign (allocated h y) l (some (record cell { next = h.fresh }))

  add-empty :
      (q : Queue) (h : Heap A) (y : A)
      → q.last ≡ to_first
      → queue_add q h y ≡ (
        record { first = h.fresh; last = to_next h.fresh; nelts = q.nelts + 1 },
        record { cells = allocated h y; fresh = h.fresh + 1 },
      )
  unfolding queue_add
  add-empty q h y e = rw (e, set_link) refl

  add-behind :
      (q : Queue) (h : Heap A) (y : A) (l : ℕ) (cell : Element A)
      → q.last ≡ to_next l
      → allocated h y l ≡ some cell
      → queue_add q h y ≡ (
        record { first = q.first; last = to_next h.fresh; nelts = q.nelts + 1 },
        record { cells = linked h y l cell; fresh = h.fresh + 1 },
      )
  unfolding queue_add
  add-behind q h y l cell e f = rw (e, set_link) (rw (f, set_link) refl)

  add-elements :
      (q : Queue) (h : Heap A) (es : List (ℕ × A)) (xs : List A) (y : A)
      → Chain h.cells q.first es
      → Apart es
      → All (λ z. z.0 < h.fresh) es
      → q.last ≡ last_link to_first es
      → 0 < h.fresh
      → items es ≡ xs
      → q.nelts ≡ length xs
      → let (q', h') = queue_add q h y in Holds q' h' (xs ++ (y ∷ []))
  add-elements q h [] xs y ch far lt la po it co = rw (add-empty q h y la) (record {
    elements = (h.fresh, y) ∷ [];
    chain = (refl, po, 0, ground (arith, ==_refl h.fresh), refl);
    apart = (tt, tt);
    below = (omega arith, tt);
    last = refl;
    positive = omega arith;
    all_items = ap (λ z. z ++ (y ∷ [])) it;
    count = omega (arith, co, length-append xs (y ∷ []));
  })
  add-elements q h ((a, x) ∷ rest) xs y ch far lt la po it co =
      let c = allocated h y in
      let ch1 =
        Chain-agree h.cells c q.first ((a, x) ∷ rest) ch
          (All-weaken ((a, x) ∷ rest) (λ z w. ground (arith, ==_iff z.0 h.fresh)) lt) in
      let (l, cell, ll, at, in_chain, ch2) =
        Chain-extend c q.first a h.fresh x y rest ch1 far lt (ground (arith, ==_refl h.fresh)) in
      rw (add-behind q h y l cell (la ∙ ll) at) (record {
        elements = (a, x) ∷ (rest ++ ((h.fresh, y) ∷ []));
        chain = ch2;
        apart = Apart-append ((a, x) ∷ rest) h.fresh y far lt;
        below =
            All-append (λ b. b < h.fresh + 1) ((a, x) ∷ rest) h.fresh y
              (All-weaken ((a, x) ∷ rest) (λ z w. omega arith) lt) (omega arith);
        last = sym (last-append to_first ((a, x) ∷ rest) h.fresh y);
        positive = omega arith;
        all_items = items-append ((a, x) ∷ rest) h.fresh y ∙ ap (λ z. z ++ (y ∷ [])) it;
        count = omega (arith, co, length-append xs (y ∷ []));
      })

  -- After `queue_add` the queue holds the item behind those that it held.
  pub add-Holds :
      (q : Queue) (h : Heap A) (xs : List A) (y : A)
      → Holds q h xs
      → let (q', h') = queue_add q h y in Holds q' h' (xs ++ (y ∷ []))
  add-Holds q h xs y s =
      add-elements q h s.elements xs y s.chain s.apart s.below s.last s.positive s.all_items s.count

  -- After `queue_insert` the queue holds the item before those that it held.
  pub insert-Holds :
      (q : Queue) (h : Heap A) (xs : List A) (y : A)
      → Holds q h xs
      → let (q', h') = queue_insert q h y in Holds q' h' (y ∷ xs)
  unfolding queue_insert
  insert-Holds q h xs y s = record {
    elements = (h.fresh, y) ∷ s.elements;
    chain = (
      refl,
      s.positive,
      q.first,
      ground (arith, ==_refl h.fresh),
      Chain-agree h.cells _ q.first s.elements s.chain
          (All-weaken s.elements (λ z w. ground (arith, ==_iff z.0 h.fresh)) s.below),
    );
    apart = (All-weaken s.elements (λ z w. omega arith) s.below, s.apart);
    below = (omega arith, All-weaken s.elements (λ z w. omega arith) s.below);
    last = last-before h.cells q.first h.fresh q.last s.elements s.chain s.last;
    positive = omega arith;
    all_items = ap (λ z. y ∷ z) s.all_items;
    count = omega (arith, s.count);
  }

  first-Chain :
      (c : ℕ → Option (Element A)) (p : ℕ) (es : List (ℕ × A))
      → Chain c p es
      → (p == 0) ≡ (length (items es) == 0)
  first-Chain c p [] ch = rw ch refl
  first-Chain c p ((a, x) ∷ rest) (i, q, n, f, h) = ground arith

  -- A queue is empty exactly when it holds nothing, and its size is the number of its items.
  pub Holds-size :
      (q : Queue) (h : Heap A) (xs : List A)
      → Holds q h xs
      → (queue_size q ≡ length xs) × (queue_empty q ≡ (length xs == 0))
  unfolding queue_size queue_empty
  Holds-size q h xs s = (
    s.count,
    first-Chain h.cells q.first s.elements s.chain ∙ ap (λ z. length z == 0) s.all_items,
  )

  -- An empty queue has nothing to take.
  pub tget-none : (q : Queue) (h : Heap A) → Holds q h [] → queue_tget q h ≡ none
  unfolding queue_tget queue_empty
  tget-none q h s =
      let (_, e) = Holds-size q h [] s in let first : (q.first == 0) ≡ true = e in rw first refl

  pub init-Holds : (h : Heap A) → 0 < h.fresh → Holds queue_init h []
  unfolding queue_init
  init-Holds h p = record {
    elements = [];
    chain = refl;
    apart = tt;
    below = tt;
    last = refl;
    positive = p;
    all_items = refl;
    count = refl;
  }
