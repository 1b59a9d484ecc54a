-- ===== src/Name/Loop.antt =====
-- The loop of `write_name` that writes the labels, over a buffer that holds `header` and then the
-- packet, with the table's offset at the packet's start.
use behind.Base.{
  ℕ, ◌+◌, ◌-◌, ◌≤◌, ◌≡◌, refl, sym, ap, ◌∙◌, List, [], ◌∷◌, ◌++◌, append_assoc, arith, Bytes,
  length, All, length-append, leb, Option, some, none, Option-cases, ◌⊎◌, inl, inr, Bool-cases,
}
use mathlib.Core.Path.{subst}
use behind.Name.{
  NameMap, NameMap_set, find_entry, join_dots, u16_bytes, usable_entry, note_suffix, write_labels,
}
use behind.Name.Labels.{IsLabel}
use behind.Name.Write.{
  IsEntry, AreEntries, AreEntries-append, AreLonger, find_entry-IsEntry, find_entry-AreLonger,
  AreLonger-suffix,
}
use behind.Name.Written.{table, Written, Written-root, Written-pointer, Written-label}

-- ## The loop

write_labels_pointer :
    (out : Bytes) (t : Option NameMap) (l : Bytes) (ls : List Bytes) (off : ℕ)
    → usable_entry t (join_dots (l ∷ ls)) ≡ some off
    → write_labels out t (l ∷ ls) ≡ (out ++ u16_bytes (0xc000 + off), t)
unfolding write_labels
write_labels_pointer out t l ls off h = rw (h, write_labels)

write_labels_label :
    (out : Bytes) (t : Option NameMap) (l : Bytes) (ls : List Bytes)
    → usable_entry t (join_dots (l ∷ ls)) ≡ none
    → write_labels out t (l ∷ ls)
      ≡ write_labels (out ++ (length l ∷ l)) (note_suffix t (join_dots (l ∷ ls)) out) ls
unfolding write_labels
write_labels_label out t l ls h = rw (h, write_labels)

-- The entries of the name that is being written are of longer suffixes.
abbrev pub ArePending : List Bytes → List (Bytes × ℕ) → Type 0
ArePending [] ps = Unit
ArePending (l ∷ ls) ps = AreLonger (join_dots (l ∷ ls)) ps

pub ArePending-nil : (ls : List Bytes) → ArePending ls []
ArePending-nil [] = tt
ArePending-nil (l ∷ ls) = tt

ArePending-tail :
    (l : Bytes) (ls : List Bytes) (ps : List (Bytes × ℕ)) (at : ℕ)
    → ArePending (l ∷ ls) ps
    → ArePending ls ps × ArePending ls ((join_dots (l ∷ ls), at) ∷ ps)
ArePending-tail l [] ps at h = (tt, tt)
ArePending-tail l (m ∷ ls) ps at h =
    let longer = AreLonger-suffix l m ls ps at h in (longer.1, longer)

module _ (header : Bytes) (base : ℕ) (at_base : base ≡ length header) where
  note_suffix-cases :
      (packet key : Bytes) (es : List (Bytes × ℕ))
      → (noted : List (Bytes × ℕ)) × (note_suffix (table base es) key (header ++ packet)
          ≡ table base noted)
        × ((noted ≡ es) ⊎ (noted ≡ (key, length packet) ∷ es))
  unfolding note_suffix NameMap_set
  note_suffix-cases packet key es =
      let len = length-append {0} header packet in
      let kept : length (header ++ packet) - base ≡ length packet = omega arith in
      elim (Bool-cases (leb (length (header ++ packet) - base) 0x3fff)) [
        | inl near ↦ ((key, length packet) ∷ es, ground arith, inr refl)
        | inr far ↦ (es, ground arith, inl refl)
      ]

  usable_entry-IsEntry :
      (packet key : Bytes) (ps es : List (Bytes × ℕ)) (off : ℕ)
      → AreLonger key ps
      → AreEntries packet es
      → usable_entry (table base (ps ++ es)) key ≡ some off
      → (off ≤ 0x3fff) × IsEntry packet (key, off)
  unfolding usable_entry
  usable_entry-IsEntry packet key ps es off longer valid h =
      let found : find_entry key (ps ++ es) ≡ some off = ground arith in
      (
        ground arith,
        find_entry-IsEntry packet key es off valid
            (sym (find_entry-AreLonger key ps es longer) ∙ found),
      )

  Written-noted :
      (packet : Bytes) (ls : List Bytes) (es more noted : List (Bytes × ℕ))
      → (noted ≡ es) ⊎ (noted ≡ more)
      → Written header base packet ls es (write_labels (header ++ packet) (table base es) ls)
      → Written header base packet ls more (write_labels (header ++ packet) (table base more) ls)
      → Written header base packet ls noted (write_labels (header ++ packet) (table base noted) ls)
  Written-noted packet ls es more noted note w0 w1 =
      let P : List (Bytes × ℕ) → Type 0 =
        λ n. Written header base packet ls n (write_labels (header ++ packet) (table base n) ls) in
      elim note [ inl e ↦ subst P (sym e) w0 | inr e ↦ subst P (sym e) w1 ]

  pub write_labels-Written :
      (ls : List Bytes) (packet : Bytes) (ps es : List (Bytes × ℕ))
      → All IsLabel ls
      → ArePending ls ps
      → AreEntries packet es
      → Written header base packet ls
          (ps ++ es)
          (write_labels (header ++ packet) (table base (ps ++ es)) ls)
  write_labels-Written [] packet ps es labels pending valid =
      Written-root header base at_base packet (ps ++ es)
  write_labels-Written (l ∷ ls) packet ps es labels pending valid =
      let out = header ++ packet in
      let key = join_dots (l ∷ ls) in
      let (noted, note_is, note) = note_suffix-cases packet key (ps ++ es) in
      let tails = ArePending-tail l ls ps (length packet) pending in
      let grown = packet ++ (length l ∷ l) in
      let kept = AreEntries-append packet (length l ∷ l) es valid in
      let ih0 = write_labels-Written ls grown ps es labels.1 tails.0 kept in
      let ih1 =
        write_labels-Written ls grown ((key, length packet) ∷ ps) es labels.1 tails.1 kept in
      elim (Option-cases (usable_entry (table base (ps ++ es)) key)) [
        | inr (off, found) ↦
            let (small, entry) = usable_entry-IsEntry packet key ps es off pending valid found in
            subst (Written header base packet (l ∷ ls) (ps ++ es))
              (sym (write_labels_pointer out (table base (ps ++ es)) l ls off found))
              (Written-pointer header base at_base packet l ls (ps ++ es) off labels small entry)
        | inl miss ↦
            let run =
              write_labels_label out (table base (ps ++ es)) l ls miss
              ∙ ap (λ t. write_labels (out ++ (length l ∷ l)) t ls) note_is
              ∙ ap (λ o. write_labels o (table base noted) ls)
                  (append_assoc header packet (length l ∷ l)) in
            subst (Written header base packet (l ∷ ls) (ps ++ es)) (sym run) (
              Written-label header base at_base packet l ls (ps ++ es) noted labels.0 note
                (Written-noted grown ls (ps ++ es) _ noted note ih0 ih1))
      ]
