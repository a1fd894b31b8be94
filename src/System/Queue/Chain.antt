-- ===== src/System/Queue/Chain.antt =====
-- The linked list in the memory of lib/queue.c.
use cs4411_p.Base.{
  ℕ, ◌<◌, ◌≡◌, refl, ap, ◌∙◌, ◌≢◌, Option, some, List, [], ◌∷◌, ◌++◌, arith, ◌==◌, ==_refl, ==_iff,
  if◌then◌else◌, All,
}
use cs4411_p.System.Queue.{Element, Link, to_first, to_next, assign}

-- The elements from a pointer on are at these addresses and have these items.
abbrev pub Chain : {A : Type 0} → (ℕ → Option (Element A)) → ℕ → List (ℕ × A) → Type 0
Chain cells p [] = p ≡ 0
Chain cells p ((a, x) ∷ rest) =
    (p ≡ a)
    × (0 < a)
    × (n : ℕ) × (cells a ≡ some (record { next = n; item = x }))
    × Chain cells n rest

-- The link behind the last element.
abbrev pub last_link : {A : Type 0} → Link → List (ℕ × A) → Link
last_link l [] = l
last_link l ((a, x) ∷ rest) = last_link (to_next a) rest

-- No two elements stand at one address.
abbrev pub Apart : {A : Type 0} → List (ℕ × A) → Type 0
Apart [] = Unit
Apart ((a, x) ∷ rest) = All (λ z. z.0 ≢ a) rest × Apart rest

abbrev pub items : {A : Type 0} → List (ℕ × A) → List A
items [] = []
items ((a, x) ∷ rest) = x ∷ items rest

module _ {A : Type 0} where
  pub Chain-agree :
      (c c' : ℕ → Option (Element A)) (p : ℕ) (es : List (ℕ × A))
      → Chain c p es
      → All (λ z. c' z.0 ≡ c z.0) es
      → Chain c' p es
  Chain-agree c c' p [] h k = h
  Chain-agree c c' p ((a, x) ∷ rest) (e, q, n, f, h) (k, ks) =
      (e, q, n, k ∙ f, Chain-agree c c' n rest h ks)

  pub All-weaken :
      {P Q : ℕ × A → Type 0} (es : List (ℕ × A)) → ((z : ℕ × A) → P z → Q z) → All P es → All Q es
  All-weaken [] f h = tt
  All-weaken (x ∷ es) f (h, hs) = (f x h, All-weaken es f hs)

  -- An element behind the last one.
  pub Chain-extend :
      (c : ℕ → Option (Element A)) (p a e : ℕ) (x y : A) (rest : List (ℕ × A))
      → Chain c p ((a, x) ∷ rest)
      → Apart ((a, x) ∷ rest)
      → All (λ z. z.0 < e) ((a, x) ∷ rest)
      → c e ≡ some (record { next = 0; item = y })
      → (l : ℕ) × (cell : Element A) × (last_link (to_next a) rest ≡ to_next l)
        × (c l ≡ some cell)
        × ((Q : ℕ → Type 0) → All (λ z. Q z.0) ((a, x) ∷ rest) → Q l)
        × Chain (assign c l (some (record cell { next = e }))) p ((a, x) ∷ (rest ++ ((e, y) ∷ [])))
  Chain-extend c p a e x y [] (i, q, n, f, m) far (lt, _) new = (
    a,
    record { next = n; item = x },
    refl,
    f,
    λ Q w. w.0,
    (
      i,
      q,
      e,
      ground (arith, ==_refl a),
      (refl, ground arith, 0, ground (arith, new, ==_iff e a), refl),
    ),
  )
  Chain-extend c p a e x y ((a2, x2) ∷ rest) (i, q, n, f, ch) (ne, far) (lt, lts) new =
      let (l, cell, ll, at, in_chain, ch') = Chain-extend c n a2 e x2 y rest ch far lts new in
      let other : l ≢ a = in_chain (λ b. b ≢ a) ne in
      (l, cell, ll, at, λ Q w. in_chain Q w.1, (i, q, n, ground (arith, f, other, ==_iff a l), ch'))

  pub last-behind :
      (c : ℕ → Option (Element A)) (n a : ℕ) (l : Link) (rest : List (ℕ × A))
      → Chain c n rest
      → l ≡ last_link (to_next a) rest
      → (if n == 0 then to_first else l) ≡ last_link to_first rest
  last-behind c n a l [] h e = ground arith
  last-behind c n a l ((a2, x2) ∷ rest) (i, p, m, f, h) e = ground (arith, e)

  pub last-before :
      (c : ℕ → Option (Element A)) (n a : ℕ) (l : Link) (es : List (ℕ × A))
      → Chain c n es
      → l ≡ last_link to_first es
      → (if n == 0 then to_next a else l) ≡ last_link (to_next a) es
  last-before c n a l [] h e = ground arith
  last-before c n a l ((a2, x2) ∷ rest) (i, p, m, f, h) e = ground (arith, e)

  pub items-append :
      (es : List (ℕ × A)) (e : ℕ) (y : A) → items (es ++ ((e, y) ∷ [])) ≡ items es ++ (y ∷ [])
  items-append [] e y = refl
  items-append ((a, x) ∷ es) e y = ap (λ z. x ∷ z) (items-append es e y)

  pub last-append :
      (l : Link) (es : List (ℕ × A)) (e : ℕ) (y : A) → last_link l (es ++ ((e, y) ∷ [])) ≡ to_next e
  last-append l [] e y = refl
  last-append l ((a, x) ∷ es) e y = last-append (to_next a) es e y

  pub All-append :
      (Q : ℕ → Type 0) (es : List (ℕ × A)) (e : ℕ) (y : A)
      → All (λ z. Q z.0) es
      → Q e
      → All (λ z. Q z.0) (es ++ ((e, y) ∷ []))
  All-append Q [] e y h k = (k, tt)
  All-append Q (x ∷ es) e y (h, hs) k = (h, All-append Q es e y hs k)

  pub Apart-append :
      (es : List (ℕ × A)) (e : ℕ) (y : A)
      → Apart es
      → All (λ z. z.0 < e) es
      → Apart (es ++ ((e, y) ∷ []))
  Apart-append [] e y h k = (tt, tt)
  Apart-append ((a, x) ∷ es) e y (ne, h) (k, ks) =
      (All-append (λ b. b ≢ a) es e y ne (omega arith), Apart-append es e y h ks)
