-- ===== src/System/Tests/Pages.antt =====
-- A TLB with two entries, and the theorem at it.
use cs4411_p.Base.{
  ℕ, zero, suc, ◌+◌, ◌≡◌, refl, sym, ◌∙◌, ◌≢◌, none, some, [], ◌∷◌, arith, ◌==◌, if◌then◌else◌,
  get_elem?,
}
use cs4411_p.System.Tlb.{
  TlbEntry, unused, Tlb, copy_to, tlb_sync_entry, tlb_flush_entry, flush_where, tlb_map, tlb_flush,
}
use cs4411_p.System.Tlb.Laws.{Mapped}
use cs4411_p.System.Tlb.Mapping.{Fresh, flush-map}

-- Page 7 is mapped to the frame at 50.
abbrev mapped_7 : TlbEntry
mapped_7 = record { virt = 7; phys = 50; prot = 3 }

abbrev small : Tlb ℕ
small = record {
  entries = unused ∷ mapped_7 ∷ [];
  memory = λ virt. virt;
  host = record { access = λ virt. if virt == 7 then 3 else 0; frames = λ phys. phys + 1 };
}

abbrev map_5 : TlbEntry
map_5 = record { virt = 5; phys = 40; prot = 3 }

-- The entries in use.
small-used :
    (j : ℕ) (te : TlbEntry)
    → get_elem? small.entries j ≡ some te
    → te.phys ≢ 0
    → (j ≡ 1) × (te.virt ≡ 7) × (te.prot ≡ 3)
small-used zero te e n = absurd (ground (arith, e, n))
small-used (suc zero) te e n = (refl, ground (arith, e), ground (arith, e))
small-used (suc (suc j)) te e n = absurd (ground (arith, e))

small-apart : (j : ℕ) (te : TlbEntry) → j ≢ 0 → get_elem? small.entries j ≡ some te → te.phys ≢ 40
small-apart zero te ne e = absurd (ne refl)
small-apart (suc zero) te ne e = ground (arith, e)
small-apart (suc (suc j)) te ne e = ground (arith, e)

small-Mapped : Mapped small.entries small.host.access
small-Mapped = record {
  protected = λ j te e n. let u = small-used j te e n in rw (u.1) (sym u.2);
  distinct =
      λ j k te te' ne e e' n n' s. ne ((small-used j te e n).0 ∙ sym (small-used k te' e' n').0);
}

small-Fresh : Fresh small.entries 0 map_5
small-Fresh = record {
  page = λ j te ne e n s. ground (arith, (small-used j te e n).1, s);
  frame = small-apart;
}

flush-map_example :
    (t1 t2 : Tlb ℕ) × (tlb_map 0 map_5 small ≡ some t1)
    × Mapped t1.entries t1.host.access
    × (t1.memory 5 ≡ t1.host.frames 40)
    × (tlb_flush (record t1 { memory = copy_to t1.memory 5 99 }) ≡ some t2)
    × (t2.host.frames 40 ≡ 99)
flush-map_example =
    flush-map small 0 map_5 99 (omega arith) (omega arith) refl small-Mapped small-Fresh

-- Two entries for the same page: the second flush reads a page that may not be read.
abbrev twice : Tlb ℕ
twice = record small { entries = mapped_7 ∷ record mapped_7 { phys = 60 } ∷ [] }

flush_twice : tlb_flush twice ≡ none
unfolding tlb_flush flush_where tlb_flush_entry tlb_sync_entry
flush_twice = refl
