-- ===== src/Name/Written.antt =====
-- What a run of the loop of `write_name` leaves, and each of its steps.
use behind.Base.{
  ℕ, suc, ◌+◌, ◌≤◌, ◌<◌, ◌≡◌, refl, sym, ap, ◌∙◌, List, [], ◌∷◌, ◌++◌, append_assoc, append-nil,
  arith, Bytes, length, All, length-append, All-append, Option, some, ◌⊎◌, inl, inr,
}
use mathlib.Core.Path.{subst}
use behind.Name.{NameMap, join_dots, split_dots, u16_bytes, write_labels}
use behind.Name.Labels.{IsLabel, split-join}
use behind.Name.Wire.{Wire, Wire-IsLabel}
use behind.Name.Write.{IsEntry, AreEntries, pointer-Wire, root-Wire, label-Wire}

-- A text determines its labels.
labels_unique :
    (l m : Bytes) (ls ms : List Bytes)
    → All IsLabel (l ∷ ls)
    → All IsLabel (m ∷ ms)
    → join_dots (l ∷ ls) ≡ join_dots (m ∷ ms)
    → l ∷ ls ≡ m ∷ ms
labels_unique l m ls ms h k e = sym (split-join l ls h) ∙ ap split_dots e ∙ split-join m ms k

abbrev pub table : ℕ → List (Bytes × ℕ) → Option NameMap
table base es = some (record { offset = base; entries = es })

-- What a run of the loop leaves: `more` behind the packet, and `fresh` entries in the table.
pub record Written (header : Bytes) (base : ℕ) (packet : Bytes) (ls : List Bytes)
    (es : List (Bytes × ℕ)) (result : Bytes × Option NameMap) : Type 0 where
  pub more : Bytes
  pub fresh : List (Bytes × ℕ)
  pub jumps : ℕ
  pub out_is : result.0 ≡ header ++ (packet ++ more)
  pub map_is : result.1 ≡ table base (fresh ++ es)
  pub wire : Wire (packet ++ more) (length packet) ls jumps (length more)
  pub few : jumps ≤ length ls
  pub valid : AreEntries (packet ++ more) fresh

module _ (header : Bytes) (base : ℕ) (at_base : base ≡ length header) where
  pub Written-root :
      (packet : Bytes) (es : List (Bytes × ℕ))
      → Written header base packet [] es (write_labels (header ++ packet) (table base es) [])
  unfolding write_labels
  Written-root packet es = record {
    more = 0 ∷ [];
    fresh = [];
    jumps = 0;
    out_is = append_assoc header packet (0 ∷ []);
    map_is = refl;
    wire = root-Wire packet;
    few = omega arith;
    valid = tt;
  }

  -- The labels that are left stand in the packet already: a pointer to them is written.
  pub Written-pointer :
      (packet l : Bytes) (ls : List Bytes) (es : List (Bytes × ℕ)) (off : ℕ)
      → All IsLabel (l ∷ ls)
      → off ≤ 0x3fff
      → IsEntry packet (join_dots (l ∷ ls), off)
      → Written header base packet
          (l ∷ ls)
          es
          ((header ++ packet) ++ u16_bytes (0xc000 + off), table base es)
  Written-pointer packet l ls es off labels small v =
      let e = entry_labels v.labels (Wire-IsLabel v.wire) v.key_is (omega (arith, v.few)) in
      record {
        more = u16_bytes (0xc000 + off);
        fresh = [];
        jumps = suc v.jumps;
        out_is = append_assoc header packet (u16_bytes (0xc000 + off));
        map_is = refl;
        wire =
            subst (λ x. Wire (packet ++ u16_bytes (0xc000 + off)) (length packet) x (suc v.jumps) 2)
              e (pointer-Wire packet off small v.wire);
        few = omega (arith, v.few, ap length e);
        valid = tt;
      }
    where
      entry_labels :
          (ms : List Bytes)
          → All IsLabel ms
          → join_dots (l ∷ ls) ≡ join_dots ms
          → 0 < length ms
          → ms ≡ l ∷ ls
      entry_labels [] h k pos = absurd (omega arith)
      entry_labels (m ∷ ms) h k pos = sym (labels_unique l m ls ms labels h k)

  -- A label is written in front of what a run on the other labels leaves.
  pub Written-label :
      (packet l : Bytes) (ls : List Bytes) (es noted : List (Bytes × ℕ))
      {r : Bytes × Option NameMap}
      → IsLabel l
      → (noted ≡ es) ⊎ (noted ≡ (join_dots (l ∷ ls), length packet) ∷ es)
      → Written header base (packet ++ (length l ∷ l)) ls noted r
      → Written header base packet (l ∷ ls) es r
  Written-label packet l ls es noted {r} v note w =
      let whole = append_assoc packet (length l ∷ l) w.more in
      let sized : 1 + length l + length w.more ≡ length ((length l ∷ l) ++ w.more) =
        omega (arith, length-append {0} l w.more) in
      let here =
        subst (λ s. Wire (packet ++ ((length l ∷ l) ++ w.more)) (length packet) (l ∷ ls) w.jumps s)
          sized (label-Wire packet l w.more v w.wire) in
      record {
        more = (length l ∷ l) ++ w.more;
        fresh = w.fresh ++ added note;
        jumps = w.jumps;
        out_is = w.out_is ∙ ap (◌++◌ header) whole;
        map_is = w.map_is ∙ ap (table base) (added-eq note);
        wire = here;
        few = omega (arith, w.few);
        valid =
            All-append _ w.fresh (added note) (subst (λ p. AreEntries p w.fresh) whole w.valid)
              (added-valid note here);
      }
    where
      added : (noted ≡ es) ⊎ (noted ≡ (join_dots (l ∷ ls), length packet) ∷ es) → List (Bytes × ℕ)
      added (inl _) = []
      added (inr _) = (join_dots (l ∷ ls), length packet) ∷ []

      added-eq :
          (n : (noted ≡ es) ⊎ (noted ≡ (join_dots (l ∷ ls), length packet) ∷ es))
          → w.fresh ++ noted ≡ (w.fresh ++ added n) ++ es
      added-eq (inl e) = ap (◌++◌ w.fresh) e ∙ ap (λ x. x ++ es) (sym (append-nil w.fresh))
      added-eq (inr e) = ap (◌++◌ w.fresh) e ∙ sym (append_assoc w.fresh _ es)

      added-valid :
          (n : (noted ≡ es) ⊎ (noted ≡ (join_dots (l ∷ ls), length packet) ∷ es)) {s : ℕ}
          → Wire (packet ++ ((length l ∷ l) ++ w.more)) (length packet) (l ∷ ls) w.jumps s
          → AreEntries (packet ++ ((length l ∷ l) ++ w.more)) (added n)
      added-valid (inl e) here = tt
      added-valid (inr e) {s} here = (
        record {
          labels = l ∷ ls;
          jumps = w.jumps;
          extent = s;
          key_is = refl;
          wire = here;
          few = omega (arith, w.few);
        },
        tt,
      )
