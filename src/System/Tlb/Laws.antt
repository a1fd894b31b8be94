-- ===== src/System/Tlb/Laws.antt =====
-- That what is written to a mapped page gets to its frame, for earth/tlb.c.
use cs4411_p.Base.{
  ℕ, zero, suc, ◌<◌, ◌≡◌, refl, sym, ap, ◌∙◌, ◌≢◌, ◌⊎◌, inl, inr, true, false, some, List, [], ◌∷◌,
  arith, ◌==◌, if◌then◌else◌, Bool-cases, ==_refl, length, get_elem?, set, All,
}
use cs4411_p.Base.{◌>>=◌, if_true, if_false}
use cs4411_p.System.Tlb.{
  TlbEntry, writable, readable, Host, emptied, copy_to, protect, save, tlb_sync_entry,
  tlb_flush_entry, flush_where,
}

-- No entry is for the frame.
abbrev Apart : ℕ → TlbEntry → Type 0
Apart phys te = te.phys ≢ phys

rest-Apart :
    (es : List TlbEntry) (phys : ℕ)
    → ((j : ℕ) (te : TlbEntry) → get_elem? es j ≡ some te → te.phys ≢ phys)
    → All (Apart phys) es
rest-Apart [] phys h = tt
rest-Apart (te ∷ es) phys h = (h 0 te refl, rest-Apart es phys (λ j te e. h (suc j) te e))

-- A page that an entry maps has the protection of the entry, and two entries map two pages.
pub record Mapped (es : List TlbEntry) (access : ℕ → ℕ) : Type 0 where
  pub protected :
      (j : ℕ) (te : TlbEntry) → get_elem? es j ≡ some te → te.phys ≢ 0 → access te.virt ≡ te.prot
  pub distinct :
      (j k : ℕ) (te te' : TlbEntry)
      → j ≢ k
      → get_elem? es j ≡ some te
      → get_elem? es k ≡ some te'
      → te.phys ≢ 0
      → te'.phys ≢ 0
      → te.virt ≢ te'.virt

pub copy_to_ne : {A : Type 0} (f : ℕ → A) (a b : ℕ) (x : A) → b ≢ a → copy_to f a x b ≡ f b
copy_to_ne f a b x n = if_false (a == b) x (f b) (ground (arith, n))

pub copy_to_self : {A : Type 0} (f : ℕ → A) (a : ℕ) (x : A) → copy_to f a x a ≡ x
copy_to_self f a x = if_true (a == a) x (f a) (==_refl a)

module _ {Page : Type 0} where
  -- The frames after a flush of an entry, and of entries.
  abbrev pub saved : TlbEntry → (ℕ → Page) → (ℕ → Page) → ℕ → Page
  saved te memory frames =
      if te.phys == 0
      then frames
      else if writable te
      then copy_to frames te.phys (memory te.virt)
      else frames

  unfoldable pub all_saved : List TlbEntry → (ℕ → Page) → (ℕ → Page) → ℕ → Page
  all_saved [] memory frames = frames
  all_saved (te ∷ es) memory frames = all_saved es memory (saved te memory frames)

  apart-same :
      (te : TlbEntry) (memory frames : ℕ → Page) (phys : ℕ)
      → te.phys ≢ phys
      → saved te memory frames phys ≡ frames phys
  apart-same te memory frames phys a =
      let n : (te.phys == phys) ≡ false = ground (arith, a) in
      elim (Bool-cases (te.phys == 0)) [
        | inl z ↦ rw z refl
        | inr z ↦ elim (Bool-cases (writable te)) [
          | inl w ↦ rw (z, w, n) refl
          | inr w ↦ rw (z, w) refl
        ]
      ]

  flush-Apart :
      (es : List TlbEntry) (memory frames : ℕ → Page) (phys : ℕ)
      → All (Apart phys) es
      → all_saved es memory frames phys ≡ frames phys
  unfolding all_saved
  flush-Apart [] memory frames phys h = refl
  flush-Apart (te ∷ es) memory frames phys (a, h) =
      flush-Apart es memory (saved te memory frames) phys h ∙ apart-same te memory frames phys a

  written :
      (te : TlbEntry) (memory frames : ℕ → Page)
      → te.phys ≢ 0
      → writable te ≡ true
      → saved te memory frames te.phys ≡ memory te.virt
  written te memory frames n w =
      let z : (te.phys == 0) ≡ false = ground (arith, n) in rw z (rw w (rw (==_refl te.phys) refl))

  -- One entry is for the frame.
  pub flush-saves :
      (es : List TlbEntry) (i : ℕ) (new : TlbEntry) (memory frames : ℕ → Page)
      → i < length es
      → new.phys ≢ 0
      → writable new ≡ true
      → ((j : ℕ) (te : TlbEntry) → j ≢ i → get_elem? es j ≡ some te → te.phys ≢ new.phys)
      → all_saved (set es i new) memory frames new.phys ≡ memory new.virt
  unfolding all_saved
  flush-saves [] i new memory frames l n w h = absurd (omega arith)
  flush-saves (te ∷ es) zero new memory frames l n w h =
      flush-Apart es memory _ new.phys
        (rest-Apart es new.phys (λ j te e. h (suc j) te (omega arith) e))
      ∙ written new memory frames n w
  flush-saves (te ∷ es) (suc i) new memory frames l n w h =
      flush-saves es i new memory (saved te memory frames) (omega arith) n w
        (λ j te' ne e. h (suc j) te' (λ s. ne (omega arith)) e)

  -- What a flush of an entry leaves, if it does not end the program.
  pub record Flushed (te : TlbEntry) (memory : ℕ → Page) (h h1 : Host Page) : Type 0 where
    pub frames_lem : h1.frames ≡ saved te memory h.frames
    pub access_lem : (v : ℕ) → (te.phys ≡ 0) ⊎ (v ≢ te.virt) → h1.access v ≡ h.access v

  -- A page with the protection of its entry can be saved.
  sync_lem :
      (te : TlbEntry) (memory : ℕ → Page) (h : Host Page)
      → te.phys ≢ 0
      → h.access te.virt ≡ te.prot
      → (h1 : Host Page) × (tlb_sync_entry te memory h ≡ some h1)
        × (h1.frames ≡ saved te memory h.frames)
        × ((v : ℕ) → v ≢ te.virt → h1.access v ≡ h.access v)
  unfolding tlb_sync_entry
  sync_lem te memory h n p =
      let z : (te.phys == 0) ≡ false = ground (arith, n) in
      elim (Bool-cases (writable te)) [
        | inr w ↦ (h, if_false _ _ _ w, rw (z, w) refl, λ v ne. refl)
        | inl w ↦ elim (Bool-cases (readable te.prot)) [
          | inl r ↦ (
            record h { frames = copy_to h.frames te.phys (memory te.virt) },
            if_true _ _ _ w
                ∙ ap (save te memory) (if_true _ _ _ r)
                ∙ if_true _ _ _ (ap readable p ∙ r),
            rw (z, w) refl,
            λ v ne. refl,
          )
          | inr r ↦ (
            record (protect te.virt 1 h) { frames = copy_to h.frames te.phys (memory te.virt) },
            if_true _ _ _ w
                ∙ ap (save te memory) (if_false _ _ _ r)
                ∙ if_true _ _ _ (ap readable (copy_to_self h.access te.virt 1)),
            rw (z, w) refl,
            λ v ne. copy_to_ne h.access te.virt v 1 ne,
          )
        ]
      ]

  pub flush_lem :
      (te : TlbEntry) (memory : ℕ → Page) (h : Host Page)
      → (te.phys ≢ 0 → h.access te.virt ≡ te.prot)
      → (h1 : Host Page) × (tlb_flush_entry te memory h ≡ some h1) × Flushed te memory h h1
  unfolding tlb_flush_entry
  flush_lem te memory h p = elim (Bool-cases (te.phys == 0)) [
    | inl z ↦ (h, if_true _ _ _ z, record { frames_lem = rw z refl; access_lem = λ v out. refl })
    | inr z ↦
        let n : te.phys ≢ 0 = λ e. ground (arith, e, z) in
        let s = sync_lem te memory h n (p n) in
        (
          protect te.virt 0 s.0,
          if_false _ _ _ z ∙ ap (λ o. o >>= λ h1. some (protect te.virt 0 h1)) s.1,
          record {
            frames_lem = s.2;
            access_lem = λ v out. elim out [
              | inl e ↦ absurd (n e)
              | inr ne ↦ copy_to_ne s.0.access te.virt v 0 ne ∙ s.3 v ne
            ];
          },
        )
  ]

  -- What is mapped stays so when the first entry is flushed.
  rest-Mapped :
      (te : TlbEntry) (es : List TlbEntry) (memory : ℕ → Page) (h h1 : Host Page)
      → Mapped (te ∷ es) h.access
      → Flushed te memory h h1
      → Mapped es h1.access
  rest-Mapped te es memory h h1 M F = record {
    protected = λ j te' e n.
        F.access_lem te'.virt (elim (Bool-cases (te.phys == 0)) [
          | inl z ↦ inl (ground (arith, z))
          | inr z ↦ inr (λ s.
              M.distinct 0 (suc j) te te' (omega arith) refl e (λ y. ground (arith, y, z)) n
                (sym s))
        ])
        ∙ M.protected (suc j) te' e n;
    distinct =
        λ j k te1 te2 ne e1 e2. M.distinct (suc j) (suc k) te1 te2 (λ s. ne (omega arith)) e1 e2;
  }

  pub flush_all :
      (es : List TlbEntry) (memory : ℕ → Page) (h : Host Page)
      → Mapped es h.access
      → (es' : List TlbEntry) × (h1 : Host Page) × (flush_where (λ te. true) es memory h
          ≡ some (es', h1))
        × (h1.frames ≡ all_saved es memory h.frames)
  unfolding flush_where all_saved
  flush_all [] memory h M = ([], h, refl, refl)
  flush_all (te ∷ es) memory h M =
      let (h1, e1, F) = flush_lem te memory h (M.protected 0 te refl) in
      let (es', h2, e2, f2) = flush_all es memory h1 (rest-Mapped te es memory h h1 M F) in
      (
        emptied te ∷ es',
        h2,
        ap
              (λ o. o >>= λ h1.
                flush_where (λ te. true) es memory h1 >>= λ r. some (emptied te ∷ r.0, r.1))
              e1
            ∙ ap (λ o. o >>= λ r. some (emptied te ∷ r.0, r.1)) e2,
        f2 ∙ ap (all_saved es memory) F.frames_lem,
      )
