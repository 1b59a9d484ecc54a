-- ===== src/Misc/Trim.antt =====
-- `misc::trimmed` removes the space around a text and nothing else.
use behind.Base.{
  ℕ, ◌≡◌, refl, ap, ◌∙◌, Bool, true, not, ◌&&◌, [], ◌∷◌, ◌++◌, arith, Bytes, all, is_space,
  Bool-cases, inl, inr,
}
use behind.Misc.{skip_space, keep_byte, drop_space, trimmed}

-- No space at the front, and none at the back.
abbrev pub front_is_clean : Bytes → Bool
front_is_clean [] = true
front_is_clean (c ∷ cs) = not (is_space c)

abbrev pub back_is_clean : Bytes → Bool
back_is_clean [] = true
back_is_clean (c ∷ []) = not (is_space c)
back_is_clean (c ∷ d ∷ cs) = back_is_clean (d ∷ cs)

-- `t` is `s` without the space around it.
abbrev pub IsTrimmed : Bytes → Bytes → Type 0
IsTrimmed s t =
    ((l : Bytes) × (r : Bytes) × (s ≡ l ++ (t ++ r))
      × (all is_space l ≡ true)
      × (all is_space r ≡ true))
    × (front_is_clean t ≡ true)
    × (back_is_clean t ≡ true)

skip_space_lem :
    (s : Bytes)
    → ((l : Bytes) × (s ≡ l ++ skip_space s) × (all is_space l ≡ true))
      × (front_is_clean (skip_space s) ≡ true)
unfolding skip_space
skip_space_lem [] = (([], refl, refl), refl)
skip_space_lem (c ∷ cs) =
    let h = skip_space_lem cs in
    elim (Bool-cases (is_space c)) [
      | inl space ↦
          rw space
            ((c ∷ h.0.0, ap (◌∷◌ c) h.0.1, ap (λ b. b && all is_space h.0.0) space ∙ h.0.2), h.1)
      | inr other ↦ rw other (([], refl, refl), ap not other)
    ]

-- A byte that is kept in front of what is kept of the rest.
keep_byte_lem :
    (c : ℕ) (s t r : Bytes)
    → s ≡ t ++ r
    → all is_space r ≡ true
    → back_is_clean t ≡ true
    → ((r' : Bytes) × (c ∷ s ≡ keep_byte c t ++ r') × (all is_space r' ≡ true))
      × (back_is_clean (keep_byte c t) ≡ true)
keep_byte_lem c s [] r h k b = elim (Bool-cases (is_space c)) [
  | inl space ↦ rw space ((c ∷ r, ap (◌∷◌ c) h, ap (λ b. b && all is_space r) space ∙ k), refl)
  | inr other ↦ rw other ((r, ap (◌∷◌ c) h, k), ap not other)
]
keep_byte_lem c s (d ∷ ds) r h k b = ((r, ap (◌∷◌ c) h, k), b)

drop_space_lem :
    (s : Bytes)
    → ((r : Bytes) × (s ≡ drop_space s ++ r) × (all is_space r ≡ true))
      × (back_is_clean (drop_space s) ≡ true)
unfolding drop_space
drop_space_lem [] = (([], refl, refl), refl)
drop_space_lem (c ∷ cs) =
    let h = drop_space_lem cs in keep_byte_lem c cs (drop_space cs) h.0.0 h.0.1 h.0.2 h.1

keep_byte-front :
    (c : ℕ) (t : Bytes) → not (is_space c) ≡ true → front_is_clean (keep_byte c t) ≡ true
keep_byte-front c [] h = ground arith
keep_byte-front c (d ∷ ds) h = h

drop_space-front : (s : Bytes) → front_is_clean s ≡ true → front_is_clean (drop_space s) ≡ true
unfolding drop_space
drop_space-front [] h = refl
drop_space-front (c ∷ cs) h = keep_byte-front c (drop_space cs) h

-- `trimmed` takes space away at both ends, and leaves a text that has none at either end.
pub trimmed-IsTrimmed : (s : Bytes) → IsTrimmed s (trimmed s)
unfolding trimmed
trimmed-IsTrimmed s =
    let h = skip_space_lem s in
    let k = drop_space_lem (skip_space s) in
    (
      (h.0.0, k.0.0, h.0.1 ∙ ap (λ x. h.0.0 ++ x) k.0.1, h.0.2, k.0.2),
      drop_space-front (skip_space s) h.1,
      k.1,
    )
