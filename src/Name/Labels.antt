-- ===== src/Name/Labels.antt =====
-- Texts with dots and lists of labels: one determines the other.
use behind.Base.{
  ℕ, ◌+◌, ◌≤◌, ◌<◌, ◌≡◌, ◌≢◌, refl, ap, ◌∙◌, true, false, List, [], ◌∷◌, ◌++◌, append_assoc, arith,
  Bytes, length, All,
}
use behind.Name.{
  is_bad_label_byte, has_bad_byte, dotted, cons_first, split_dots, join_dots, check_labels,
}

-- What a label may be.
pub record IsLabel (l : Bytes) : Type 0 where
  pub positive : 0 < length l
  pub short : length l ≤ 63
  pub clean : has_bad_byte l ≡ false

-- Bytes that labels take on the wire, the root label aside.
abbrev pub labels_size : List Bytes → ℕ
labels_size [] = 0
labels_size (l ∷ ls) = 1 + length l + labels_size ls

-- The text that the reader has after more labels.
abbrev pub append_labels : Bytes → List Bytes → Bytes
append_labels d [] = d
append_labels d (l ∷ ls) = append_labels (dotted d ++ l) ls

append_labels-cons :
    (c : ℕ) (d : Bytes) (ls : List Bytes) → append_labels (c ∷ d) ls ≡ join_dots ((c ∷ d) ∷ ls)
unfolding join_dots dotted
append_labels-cons c d [] = refl
append_labels-cons c d (l ∷ []) = append_assoc (c ∷ d) (b'.' ∷ []) l
append_labels-cons c d (l ∷ m ∷ ls) =
    append_labels-cons c ((d ++ b'.' ∷ []) ++ l) (m ∷ ls)
    ∙ append_assoc ((c ∷ d) ++ b'.' ∷ []) l (b'.' ∷ join_dots (m ∷ ls))
    ∙ append_assoc (c ∷ d) (b'.' ∷ []) (l ++ (b'.' ∷ join_dots (m ∷ ls)))

pub append_labels-nil : (ls : List Bytes) → All IsLabel ls → append_labels [] ls ≡ join_dots ls
unfolding join_dots dotted
append_labels-nil [] h = refl
append_labels-nil ([] ∷ ls) h = absurd (let p = h.0.positive in omega arith)
append_labels-nil ((c ∷ l) ∷ ls) h = append_labels-cons c l ls

cons_first-join :
    (c : ℕ) (ls : List Bytes) → ls ≢ [] → join_dots (cons_first c ls) ≡ c ∷ join_dots ls
unfolding join_dots cons_first
cons_first-join c [] h = absurd (h refl)
cons_first-join c (l ∷ []) h = refl
cons_first-join c (l ∷ m ∷ ls) h = refl

pub split_dots-ne-nil : (s : Bytes) → split_dots s ≢ []
unfolding split_dots cons_first
split_dots-ne-nil [] = λ e. cc
split_dots-ne-nil (c ∷ cs) = λ e. ground (arith, split_dots-ne-nil cs)

join_dots-nil-cons : (ls : List Bytes) → ls ≢ [] → join_dots ([] ∷ ls) ≡ b'.' ∷ join_dots ls
unfolding join_dots
join_dots-nil-cons [] h = absurd (h refl)
join_dots-nil-cons (l ∷ ls) h = refl

pub join-split : (s : Bytes) → join_dots (split_dots s) ≡ s
unfolding split_dots
join-split [] = unfold join_dots in refl
join-split (c ∷ cs) = ground (
  arith,
  join-split cs,
  split_dots-ne-nil cs,
  join_dots-nil-cons (split_dots cs) (split_dots-ne-nil cs),
  cons_first-join c (split_dots cs) (split_dots-ne-nil cs),
)

split_dots-clean :
    (l s : Bytes) → has_bad_byte l ≡ false → split_dots (l ++ (b'.' ∷ s)) ≡ l ∷ split_dots s
unfolding split_dots has_bad_byte is_bad_label_byte cons_first
split_dots-clean [] s h = refl
split_dots-clean (c ∷ l) s h = ground (arith, split_dots-clean l s)

split_dots-clean_last : (l : Bytes) → has_bad_byte l ≡ false → split_dots l ≡ l ∷ []
unfolding split_dots has_bad_byte is_bad_label_byte cons_first
split_dots-clean_last [] h = refl
split_dots-clean_last (c ∷ l) h = ground (arith, split_dots-clean_last l)

pub split-join :
    (l : Bytes) (ls : List Bytes) → All IsLabel (l ∷ ls) → split_dots (join_dots (l ∷ ls)) ≡ l ∷ ls
unfolding join_dots
split-join l [] h = split_dots-clean_last l h.0.clean
split-join l (m ∷ ls) h =
    split_dots-clean l (join_dots (m ∷ ls)) h.0.clean ∙ ap (◌∷◌ l) (split-join m ls h.1)

-- `write_name` takes exactly the lists of labels that fit in 255 bytes.
pub check_labels_sound :
    (w : ℕ) (ls : List Bytes)
    → w ≤ 255
    → check_labels w ls ≡ true
    → All IsLabel ls × (w + labels_size ls ≤ 255)
unfolding check_labels
check_labels_sound w [] wle h = (tt, omega arith)
check_labels_sound w (l ∷ ls) wle h = ground (arith, check_labels_sound (w + 1 + length l) ls)

pub check_labels_complete :
    (w : ℕ) (ls : List Bytes) → All IsLabel ls → w + labels_size ls ≤ 255 → check_labels w ls ≡ true
unfolding check_labels
check_labels_complete w [] h b = refl
check_labels_complete w (l ∷ ls) h b =
    ground (arith, h.0, check_labels_complete (w + 1 + length l) ls h.1)
