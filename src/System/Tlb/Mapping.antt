-- ===== src/System/Tlb/Mapping.antt =====
-- Mapping a page and flushing it, for earth/tlb.c.
use mathlib.Core.Path.{subst}
use mathlib.Core.Option.{some-injective}
use cs4411_p.Base.{
  ℕ, ◌<◌, ◌≡◌, sym, ap, ◌∙◌, ◌≢◌, ◌⊎◌, inl, inr, true, some, List, arith, ◌==◌, Bool-cases, length,
  get_elem?, set,
}
use cs4411_p.Base.{get_elem?_of_lt, get_elem?-set_self, get_elem?-set_ne}
use cs4411_p.Base.{◌>>=◌, if_true}
use cs4411_p.System.Tlb.{
  TlbEntry, writable, Host, Tlb, copy_to, protect, with_host, fill, tlb_flush, tlb_map,
}
use cs4411_p.System.Tlb.Laws.{
  Mapped, copy_to_ne, copy_to_self, Flushed, flush_lem, flush_all, flush-saves,
}

-- No other entry in use is for the page, and no other entry is for the frame.
pub record Fresh (es : List TlbEntry) (index : ℕ) (new : TlbEntry) : Type 0 where
  pub page :
      (j : ℕ) (te : TlbEntry)
      → j ≢ index
      → get_elem? es j ≡ some te
      → te.phys ≢ 0
      → te.virt ≢ new.virt
  pub frame : (j : ℕ) (te : TlbEntry) → j ≢ index → get_elem? es j ≡ some te → te.phys ≢ new.phys

-- An entry of the changed list is the new one or an old one.
get_elem?-set_cases :
    (es : List TlbEntry) (index j : ℕ) (new te : TlbEntry)
    → index < length es
    → get_elem? (set es index new) j ≡ some te
    → ((j ≡ index) × (new ≡ te)) ⊎ ((j ≢ index) × (get_elem? es j ≡ some te))
get_elem?-set_cases es index j new te l e = elim (Bool-cases (index == j)) [
  | inl y ↦
      let same : index ≡ j = ground (arith, y) in
      inl (
        sym same,
        some-injective _ _
            (sym (get_elem?-set_self es index new l) ∙ ap (get_elem? (set es index new)) same ∙ e),
      )
  | inr n ↦
      let other : index ≢ j = λ s. ground (arith, s, n) in
      inr (λ s. other (sym s), sym (get_elem?-set_ne es index j new other) ∙ e)
]

module _ {Page : Type 0} (es : List TlbEntry) (index : ℕ) (te new : TlbEntry) (memory : ℕ → Page)
    (h h1 : Host Page) (l : index < length es) (at : get_elem? es index ≡ some te)
    (M : Mapped es h.access) (F : Flushed te memory h h1) (fresh : Fresh es index new) where
  -- The flush of the old entry leaves the pages of the others as they are.
  other_access :
      (j : ℕ) (te' : TlbEntry)
      → j ≢ index
      → get_elem? es j ≡ some te'
      → te'.phys ≢ 0
      → h1.access te'.virt ≡ h.access te'.virt
  other_access j te' ne e n = F.access_lem te'.virt (elim (Bool-cases (te.phys == 0)) [
    | inl z ↦ inl (ground (arith, z))
    | inr z ↦ inr (M.distinct j index te' te ne e at n (λ y. ground (arith, y, z)))
  ])

  set-Mapped : Mapped (set es index new) (copy_to h1.access new.virt new.prot)
  set-Mapped = record {
    protected = λ j te' e n. elim (get_elem?-set_cases es index j new te' l e) [
      | inl (i, same) ↦
          subst (λ u. copy_to h1.access new.virt new.prot u.virt ≡ u.prot) same
            (copy_to_self h1.access new.virt new.prot)
      | inr (ne, old) ↦
          copy_to_ne h1.access new.virt te'.virt new.prot (fresh.page j te' ne old n)
          ∙ other_access j te' ne old n
          ∙ M.protected j te' old n
    ];
    distinct = λ j k te1 te2 ne e1 e2 n1 n2 s. elim (get_elem?-set_cases es index j new te1 l e1) [
      | inl (i1, same1) ↦ elim (get_elem?-set_cases es index k new te2 l e2) [
        | inl (i2, same2) ↦ ne (i1 ∙ sym i2)
        | inr (ne2, old2) ↦ fresh.page k te2 ne2 old2 n2 (sym s ∙ ap (λ u. u.virt) (sym same1))
      ]
      | inr (ne1, old1) ↦ elim (get_elem?-set_cases es index k new te2 l e2) [
        | inl (i2, same2) ↦ fresh.page j te1 ne1 old1 n1 (s ∙ ap (λ u. u.virt) (sym same2))
        | inr (ne2, old2) ↦ M.distinct j k te1 te2 ne old1 old2 n1 n2 s
      ]
    ];
  }

module _ {Page : Type 0} where
  -- A page is mapped to a frame for writing, at an index of the TLB, where the frame's address is
  -- not 0, the pages of the entries in use have the protection of their entries, no two of these
  -- are for the same page, and no other entry is for that page or that frame. Then the mapping and
  -- a later flush do not read a page that may not be read; the page has the contents of the frame,
  -- the conditions on pages and entries hold again, and if the program then stores other contents
  -- in the page, then the frame has these after the flush.
  pub flush-map :
      (t : Tlb Page) (index : ℕ) (new : TlbEntry) (page : Page)
      → index < length t.entries
      → new.phys ≢ 0
      → writable new ≡ true
      → Mapped t.entries t.host.access
      → Fresh t.entries index new
      → (t1 t2 : Tlb Page) × (tlb_map index new t ≡ some t1)
        × Mapped t1.entries t1.host.access
        × (t1.memory new.virt ≡ t1.host.frames new.phys)
        × (tlb_flush (record t1 { memory = copy_to t1.memory new.virt page }) ≡ some t2)
        × (t2.host.frames new.phys ≡ page)
  unfolding tlb_map tlb_flush
  flush-map t index new page l n w M fresh =
      let (te, at) = get_elem?_of_lt t.entries index l in
      let (h1, e1, F) = flush_lem te t.memory t.host (M.protected index te at) in
      let h2 = protect new.virt new.prot h1 in
      let memory1 = copy_to t.memory new.virt (h1.frames new.phys) in
      let t1 : Tlb Page = record {
        entries = set t.entries index new;
        memory = memory1;
        host = h2;
      } in
      let M1 = set-Mapped t.entries index te new t.memory t.host h1 l at M F fresh in
      let memory2 = copy_to memory1 new.virt page in
      let (es', h3, e3, f3) = flush_all (set t.entries index new) memory2 h2 M1 in
      (
        t1,
        record { entries = es'; memory = memory2; host = h3 },
        rw (at, tlb_map)
            (ap (λ o. o >>= λ h. some (fill index new t h)) e1
              ∙ ap
                  (λ host.
                    some
                      (record { entries = set t.entries index new; memory = memory1; host = host }))
                  (if_true (writable new) h2 (protect new.virt new.prot (protect new.virt 2 h1))
                    w)),
        M1,
        copy_to_self t.memory new.virt (h1.frames new.phys),
        ap (λ o. o >>= λ r. some (with_host (record t1 { memory = memory2 }) r)) e3,
        ap (λ frames. frames new.phys) f3
            ∙ flush-saves t.entries index new memory2 h2.frames l n w fresh.frame
            ∙ copy_to_self memory1 new.virt page,
      )
