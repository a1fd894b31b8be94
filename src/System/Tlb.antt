-- ===== src/System/Tlb.antt =====
-- earth/tlb.c: the simulated TLB. A page of the program and a frame are their contents, of any type.
-- The protection of a page by the host is what `mprotect` gave it last, as the bits of a `prot`; that
-- call succeeds. A `memcpy` from a page that may not be read ends the program: `none`.
pub mod Laws
pub mod Mapping
use cs4411_p.Base.{
  ℕ, zero, suc, ◌+◌, Bool, true, not, ◌&&◌, Option, none, some, List, [], ◌∷◌, ◌==◌, if◌then◌else◌,
  get_elem?, set,
}
use cs4411_p.Base.{◌>>=◌}
use Prim.Native.Nat.{bit_and}

-- `struct tlb_entry`. The entry is not used if `phys` is 0.
pub record TlbEntry : Type 0 where
  pub virt : ℕ
  pub phys : ℕ
  pub prot : ℕ

abbrev pub unused : TlbEntry
unused = record { virt = 0; phys = 0; prot = 0 }

-- `prot & P_WRITE`
abbrev pub writable : TlbEntry → Bool
writable te = not (bit_and te.prot 2 == 0)

-- `prot & P_READ`
abbrev pub readable : ℕ → Bool
readable prot = not (bit_and prot 1 == 0)

-- The protection of the pages and the frames.
pub record Host (Page : Type 0) : Type 0 where
  pub access : ℕ → ℕ
  pub frames : ℕ → Page

-- `struct tlb`, with the pages of the program, their protection, and the frames at physical addresses.
pub record Tlb (Page : Type 0) : Type 0 where
  pub entries : List TlbEntry
  pub memory : ℕ → Page
  pub host : Host Page

-- The loop of `tlb_get_entry` from entry `i` on; `none` stands for -1.
unfoldable pub entry_from : List TlbEntry → ℕ → ℕ → Option ℕ
entry_from [] i virt = none
entry_from (te ∷ entries) i virt =
    let rest = entry_from entries (i + 1) virt in
    if (te.virt == virt) && not (te.phys == 0) then some i else rest

-- An entry after `tlb_flush_entry`.
abbrev pub emptied : TlbEntry → TlbEntry
emptied te = if te.phys == 0 then te else unused

-- `memcpy` of a page to a place, and `mprotect` of a page.
abbrev pub copy_to : {A : Type 0} → (ℕ → A) → ℕ → A → ℕ → A
copy_to pages a page b = if a == b then page else pages b

module _ {Page : Type 0} where
  abbrev pub tlb_get_entry : Tlb Page → ℕ → Option ℕ
  tlb_get_entry t virt = entry_from t.entries 0 virt

  -- `mprotect`
  abbrev pub protect : ℕ → ℕ → Host Page → Host Page
  protect virt prot h = record h { access = copy_to h.access virt prot }

  -- The `memcpy` of a page to its frame.
  abbrev pub save : TlbEntry → (ℕ → Page) → Host Page → Option (Host Page)
  save te memory h =
      if readable (h.access te.virt)
      then some (record h { frames = copy_to h.frames te.phys (memory te.virt) })
      else none

  unfoldable pub tlb_sync_entry : TlbEntry → (ℕ → Page) → Host Page → Option (Host Page)
  tlb_sync_entry te memory h =
      if writable te
      then save te memory (if readable te.prot then h else protect te.virt 1 h)
      else some h

  -- `tlb_flush_entry`, which leaves the entry unused.
  unfoldable pub tlb_flush_entry : TlbEntry → (ℕ → Page) → Host Page → Option (Host Page)
  unfolding tlb_sync_entry
  tlb_flush_entry te memory h =
      if te.phys == 0
      then some h
      else tlb_sync_entry te memory h >>= λ h1. some (protect te.virt 0 h1)

  -- The loops that flush the entries of which a test is true: the entries and the host after it.
  unfoldable pub flush_where :
      (TlbEntry → Bool)
      → List TlbEntry
      → (ℕ → Page)
      → Host Page
      → Option (List TlbEntry × Host Page)
  unfolding tlb_flush_entry
  flush_where test [] memory h = some ([], h)
  flush_where test (te ∷ entries) memory h =
      (if test te then tlb_flush_entry te memory h else some h) >>= λ h1.
      flush_where test entries memory h1 >>= λ r.
      some ((if test te then emptied te else te) ∷ r.0, r.1)

  abbrev pub with_host : Tlb Page → List TlbEntry × Host Page → Tlb Page
  with_host t r = record t { entries = r.0; host = r.1 }

  unfoldable pub tlb_unmap : ℕ → Tlb Page → Option (Tlb Page)
  unfolding flush_where
  tlb_unmap virt t =
      flush_where (λ te. te.virt == virt) t.entries t.memory t.host >>= λ r. some (with_host t r)

  unfoldable pub tlb_flush : Tlb Page → Option (Tlb Page)
  unfolding flush_where
  tlb_flush t = flush_where (λ te. true) t.entries t.memory t.host >>= λ r. some (with_host t r)

  -- `none` stands for the result 0.
  abbrev pub tlb_get : Tlb Page → ℕ → Option TlbEntry
  tlb_get t index = get_elem? t.entries index

  -- The rest of `tlb_map`, behind the flush. A page that is not to be written is made writable for the
  -- copy, and gets its protection then.
  abbrev pub fill : ℕ → TlbEntry → Tlb Page → Host Page → Tlb Page
  fill index te t h = record {
    entries = set t.entries index te;
    memory = copy_to t.memory te.virt (h.frames te.phys);
    host =
        if writable te
        then protect te.virt te.prot h
        else protect te.virt te.prot (protect te.virt 2 h);
  }

  -- `tlb_map`; a result of 0 is `none` too.
  unfoldable pub tlb_map : ℕ → TlbEntry → Tlb Page → Option (Tlb Page)
  unfolding tlb_flush_entry
  tlb_map index te' t = elim (get_elem? t.entries index) [
    | none ↦ none
    | some te ↦ tlb_flush_entry te t.memory t.host >>= λ h. some (fill index te' t h)
  ]

  -- The loop of `tlb_sync`.
  unfoldable pub sync_all : List TlbEntry → (ℕ → Page) → Host Page → Option (Host Page)
  unfolding tlb_sync_entry
  sync_all [] memory h = some h
  sync_all (te ∷ entries) memory h =
      (if te.phys == 0 then some h else tlb_sync_entry te memory h) >>= sync_all entries memory

  unfoldable pub tlb_sync : Tlb Page → Option (Tlb Page)
  unfolding sync_all
  tlb_sync t = sync_all t.entries t.memory t.host >>= λ h. some (record t { host = h })

unfoldable pub tlb_initialize : ℕ → List TlbEntry
tlb_initialize zero = []
tlb_initialize (suc n) = unused ∷ tlb_initialize n
