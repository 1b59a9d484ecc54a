-- ===== src/Udp/Index.antt =====
-- The indexes of the queries in flight: erasing one entry, and the map of those that wait.
use behind.Base.{
  ℕ, suc, ◌≤◌, ◌≡◌, ◌≢◌, refl, true, false, ◌&&◌, none, List, [], ◌∷◌, arith, Bytes, All, ◌==◌,
  bytes_eq, bytes_eq_iff, Bool-cases, inl, inr, length,
}
use mathlib.Core.Path.{subst}
use behind.Udp.{erase_entry, has_entry, count, siblings, pending_find, pending_erase}

pub All-erase_entry :
    (P : ℕ × ℕ → Type 0) (k q : ℕ) (es : List (ℕ × ℕ)) → All P es → All P (erase_entry k q es)
unfolding erase_entry
All-erase_entry P k q [] h = tt
All-erase_entry P k q ((j, r) ∷ es) h = elim (Bool-cases (j == k && r == q)) [
  | inl hit ↦ rw hit h.1
  | inr miss ↦ rw miss (h.0, All-erase_entry P k q es h.1)
]

-- Erasing an entry of one key leaves the count of another.
pub count-erase_entry :
    (k q t : ℕ) (es : List (ℕ × ℕ)) → t ≢ k → count t (erase_entry k q es) ≡ count t es
unfolding count erase_entry
count-erase_entry k q t [] h = refl
count-erase_entry k q t ((j, r) ∷ es) h = ground (arith, count-erase_entry k q t es h)

pub count-erase_entry_le :
    (k q t : ℕ) (es : List (ℕ × ℕ)) → count t (erase_entry k q es) ≤ count t es
unfolding count erase_entry
count-erase_entry_le k q t [] = omega arith
count-erase_entry_le k q t ((j, r) ∷ es) = ground (arith, count-erase_entry_le k q t es)

pub count-erase_entry_same :
    (k q : ℕ) (es : List (ℕ × ℕ))
    → has_entry k q es ≡ true
    → suc (count k (erase_entry k q es)) ≡ count k es
unfolding count erase_entry has_entry
count-erase_entry_same k q [] h = absurd (cc)
count-erase_entry_same k q ((j, r) ∷ es) h = ground (arith, count-erase_entry_same k q es)

pub All-pending_erase :
    (P : Bytes × ℕ → Type 0) (k : Bytes) (es : List (Bytes × ℕ))
    → All P es
    → All (λ e. (bytes_eq e.0 k ≡ false) × P e) (pending_erase k es)
unfolding pending_erase
All-pending_erase P k [] h = tt
All-pending_erase P k ((j, p) ∷ es) h = elim (Bool-cases (bytes_eq j k)) [
  | inl hit ↦ rw hit (All-pending_erase P k es h.1)
  | inr miss ↦ rw miss ((miss, h.0), All-pending_erase P k es h.1)
]

pub pending_find-erase :
    (k l : Bytes) (es : List (Bytes × ℕ))
    → bytes_eq l k ≡ false
    → pending_find l (pending_erase k es) ≡ pending_find l es
unfolding pending_find pending_erase
pending_find-erase k l [] h = refl
pending_find-erase k l ((j, p) ∷ es) h =
    ground
      (arith, pending_find-erase k l es h, bytes_eq_iff j k, bytes_eq_iff j l, bytes_eq_iff l k)

pub pending_find-erase_same :
    (k : Bytes) (es : List (Bytes × ℕ)) → pending_find k (pending_erase k es) ≡ none
unfolding pending_find pending_erase
pending_find-erase_same k [] = refl
pending_find-erase_same k ((j, p) ∷ es) = ground (arith, pending_find-erase_same k es)

pub siblings-count : (k : ℕ) (es : List (ℕ × ℕ)) → length (siblings k es) ≡ count k es
unfolding siblings count
siblings-count k [] = refl
siblings-count k ((j, r) ∷ es) = ground (arith, siblings-count k es)

pub All-has_entry :
    (P : ℕ × ℕ → Type 0) (k q : ℕ) (es : List (ℕ × ℕ))
    → All P es
    → has_entry k q es ≡ true
    → P (k, q)
unfolding has_entry
All-has_entry P k q [] a h = absurd (cc)
All-has_entry P k q ((j, r) ∷ es) a h = elim (Bool-cases (j == k && r == q)) [
  | inl hit ↦
      let j_is : j ≡ k = ground arith in
      let r_is : r ≡ q = ground arith in subst (λ x. P (x, q)) j_is (subst (λ x. P (j, x)) r_is a.0)
  | inr miss ↦ All-has_entry P k q es a.1 (ground arith)
]

-- The first object of a key stands in the index, and without its entry the others are left.
pub siblings-cons :
    (k q : ℕ) (qs : List ℕ) (es : List (ℕ × ℕ))
    → siblings k es ≡ q ∷ qs
    → (has_entry k q es ≡ true) × (siblings k (erase_entry k q es) ≡ qs)
unfolding siblings has_entry erase_entry
siblings-cons k q qs [] h = absurd (cc)
siblings-cons k q qs ((j, r) ∷ es) h = elim (Bool-cases (j == k)) [
  | inl hit ↦
      let e : r ∷ siblings k es ≡ q ∷ qs = ground arith in (ground (arith, e), ground (arith, e))
  | inr miss ↦
      let ih = siblings-cons k q qs es (ground arith) in
      (ground (arith, ih.0), ground (arith, ih.1))
]
