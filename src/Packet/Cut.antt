-- ===== src/Packet/Cut.antt =====
-- Where `make_dns_packet` cuts a packet for UDP: what is left of a section is what it writes of
-- fewer records.
use behind.Base.{
  ℕ, suc, ◌≤◌, ◌<◌, ◌≡◌, refl, sym, ap, ◌∙◌, some, List, [], ◌∷◌, ◌++◌, append_assoc, append-nil,
  arith, Bytes, length, take, length-append, Option-cases, ◌⊎◌, inl, inr, All, All-mono, ltb,
  Bool-cases,
}
use mathlib.Core.Path.{subst}
use behind.Message.{Record}
use behind.Packet.Make.{Output, write_dns_answer_rr, write_records, last_fit, count_fit}
use behind.Packet.Alike.{write_dns_answer_rr-Alike}

-- ## Boundaries

-- The end that is chosen is one of those there are.
pub last_fit-holds {κ} :
    (P : ℕ → Type κ) (limit e : ℕ) (ends : List ℕ) → P e → All P ends → P (last_fit limit e ends)
unfolding last_fit
last_fit-holds P limit e [] h all = h
last_fit-holds P limit e (f ∷ ends) h all = elim (Bool-cases (ltb limit f)) [
  | inl big ↦ rw big h
  | inr fits ↦ rw fits (last_fit-holds P limit f ends all.0 all.1)
]

-- It is within the limit, or the one to start from.
pub last_fit-le :
    (limit bound e : ℕ) (ends : List ℕ) → limit ≤ bound → e ≤ bound → last_fit limit e ends ≤ bound
unfolding last_fit
last_fit-le limit bound e [] h k = k
last_fit-le limit bound e (f ∷ ends) h k = elim (Bool-cases (ltb limit f)) [
  | inl big ↦ rw big k
  | inr fits ↦ rw fits (last_fit-le limit bound f ends h (ground arith))
]

count_fit-beyond : (to : ℕ) (ends : List ℕ) → All (λ e. to < e) ends → count_fit to ends ≡ 0
unfolding count_fit
count_fit-beyond to [] h = refl
count_fit-beyond to (e ∷ ends) h = ground (arith, h.0)

-- ## Growth

pub record IsPrefix (a b : Bytes) : Type 0 where
  pub more : Bytes
  pub whole : b ≡ a ++ more

IsPrefix-refl : {a b : Bytes} → a ≡ b → IsPrefix a b
IsPrefix-refl {a} e = record { more = []; whole = sym e ∙ sym (append-nil a) }

IsPrefix-trans : {a b c : Bytes} → IsPrefix a b → IsPrefix b c → IsPrefix a c
IsPrefix-trans {a} p q = record {
  more = p.more ++ q.more;
  whole = q.whole ∙ ap (λ z. z ++ q.more) p.whole ∙ append_assoc a p.more q.more;
}

pub IsPrefix-length : {a b : Bytes} → IsPrefix a b → length a ≤ length b
IsPrefix-length {a} p = omega (arith, ap length p.whole, length-append a p.more)

write_dns_answer_rr-IsPrefix :
    (o : Output) (name : Bytes) (r : Record) (p : Output)
    → write_dns_answer_rr o name r ≡ some p
    → IsPrefix o.0 p.0
write_dns_answer_rr-IsPrefix o name r p h =
    let (_, _, (more, e, _)) = write_dns_answer_rr-Alike o.0 o.0 o.1 name r p refl h in
    record { more = more; whole = e }

-- The two runs of which a run over a record and more is made.
write_records-cons :
    (owner : Record → Bytes) (o p : Output) (r : Record) (rs : List Record) (ends : List ℕ)
    → write_records owner o (r ∷ rs) ≡ some (p, ends)
    → (q : Output) × (later : List ℕ) × (write_dns_answer_rr o (owner r) r ≡ some q)
      × (write_records owner q rs ≡ some (p, later))
      × (ends ≡ length q.0 ∷ later)
unfolding write_records
write_records-cons owner o p r rs ends h = elim (Option-cases (write_dns_answer_rr o (owner r) r)) [
  | inl failed ↦ absurd (ground arith)
  | inr (q, e1) ↦ elim (Option-cases (write_records owner q rs)) [
    | inl failed ↦ absurd (ground arith)
    | inr (t, e2) ↦
        let same : t.0 ≡ p = ground arith in
        (q, t.1, e1, e2 ∙ ap (λ x. some (x, t.1)) same, ground arith)
  ]
]

pub write_records-grows :
    (owner : Record → Bytes) (o p : Output) (rs : List Record) (ends : List ℕ)
    → write_records owner o rs ≡ some (p, ends)
    → IsPrefix o.0 p.0 × All (λ e. length o.0 ≤ e) ends
unfolding write_records
write_records-grows owner o p [] ends h =
    let same : o ≡ p = cc in
    let none_left : [] ≡ ends = cc in
    (IsPrefix-refl (ap (λ x. x.0) same), subst (All (λ e. length o.0 ≤ e)) none_left tt)
write_records-grows owner o p (r ∷ rs) ends h =
    let (q, later, e1, e2, ends_is) = write_records-cons owner o p r rs ends h in
    let first = write_dns_answer_rr-IsPrefix o (owner r) r q e1 in
    let longer = IsPrefix-length first in
    let (rest, above) = write_records-grows owner q p rs later e2 in
    (
      IsPrefix-trans first rest,
      subst (All (λ e. length o.0 ≤ e)) (sym ends_is)
          (longer, All-mono _ _ later (λ e k. omega arith) above),
    )

-- ## A section that is cut

-- `cut` goes on where the whole run is at `full`, or the whole run is beyond the cut.
abbrev pub IsSynced : ℕ → Output → Output → Type 0
IsSynced to cut full = (cut ≡ full) ⊎ (to < length full.0)

pub record Cut (to : ℕ) (owner : Record → Bytes) (cut : Output) (rs : List Record) (ends : List ℕ)
    (full' : Output) : Type 0 where
  pub cut' : Output
  pub cut_ends : List ℕ
  pub run : write_records owner cut (take (count_fit to ends) rs) ≡ some (cut', cut_ends)
  pub fits : length cut'.0 ≤ to
  pub before : IsPrefix cut'.0 full'.0
  pub largest : All (λ e. e ≤ to → e ≤ length cut'.0) ends
  pub grown : length cut.0 ≤ length cut'.0
  pub synced : IsSynced to cut' full'
  pub few : count_fit to ends ≤ length rs

pub Cut-beyond :
    (to : ℕ) (owner : Record → Bytes) (cut full full' : Output) (rs : List Record) (ends : List ℕ)
    → to < length full.0
    → length cut.0 ≤ to
    → IsPrefix cut.0 full.0
    → write_records owner full rs ≡ some (full', ends)
    → Cut to owner cut rs ends full'
unfolding write_records
Cut-beyond to owner cut full full' rs ends far fits before h =
    let (more, above) = write_records-grows owner full full' rs ends h in
    let longer = IsPrefix-length more in
    let beyond = All-mono _ (λ e. to < e) ends (λ e k. omega arith) above in
    let nothing = count_fit-beyond to ends beyond in
    record {
      cut' = cut;
      cut_ends = [];
      run = ap (λ n. write_records owner cut (take n rs)) nothing;
      fits = fits;
      before = IsPrefix-trans before more;
      largest = All-mono _ _ ends (λ e k s. absurd (omega arith)) beyond;
      grown = omega arith;
      synced = inr (omega arith);
      few = omega (arith, nothing);
    }

pub Cut-along :
    (to : ℕ) (owner : Record → Bytes) (o full' : Output) (rs : List Record) (ends : List ℕ)
    → length o.0 ≤ to
    → write_records owner o rs ≡ some (full', ends)
    → Cut to owner o rs ends full'
unfolding write_records count_fit
Cut-along to owner o full' [] ends fits h =
    let same : o ≡ full' = cc in
    let none_left : [] ≡ ends = cc in
    subst (λ x. Cut to owner o [] x full') none_left
      (record {
        cut' = o;
        cut_ends = [];
        run = refl;
        fits = fits;
        before = IsPrefix-refl (ap (λ x. x.0) same);
        largest = tt;
        grown = omega arith;
        synced = inl same;
        few = omega arith;
      })
Cut-along to owner o full' (r ∷ rs) ends fits h =
    let (q, later, e1, e2, ends_is) = write_records-cons owner o full' r rs ends h in
    let first = write_dns_answer_rr-IsPrefix o (owner r) r q e1 in
    let longer = IsPrefix-length first in
    subst (λ x. Cut to owner o (r ∷ rs) x full') (sym ends_is)
      (elim (Bool-cases (ltb to (length q.0))) [
        | inl big ↦
            let (rest, above) = write_records-grows owner q full' rs later e2 in
            let further = IsPrefix-length rest in
            let nothing : count_fit to (length q.0 ∷ later) ≡ 0 = rw (big, count_fit) refl in
            record {
              cut' = o;
              cut_ends = [];
              run = ap (λ n. write_records owner o (take n (r ∷ rs))) nothing;
              fits = fits;
              before = IsPrefix-trans first rest;
              largest = (
                λ s. absurd (ground arith),
                All-mono _ _ later (λ e k s. absurd (ground arith)) above,
              );
              grown = omega arith;
              synced = inr (ground arith);
              few = omega (arith, nothing);
            }
        | inr small ↦
            let c = Cut-along to owner q full' rs later (ground arith) e2 in
            let more : count_fit to (length q.0 ∷ later) ≡ suc (count_fit to later) =
              rw (small, count_fit) (omega arith) in
            record {
              cut' = c.cut';
              cut_ends = length q.0 ∷ c.cut_ends;
              run =
                  ap (λ n. write_records owner o (take n (r ∷ rs))) more
                  ∙ rw (e1, write_records, c.run) refl;
              fits = c.fits;
              before = c.before;
              largest = (λ s. c.grown, c.largest);
              grown = omega (arith, c.grown);
              synced = c.synced;
              few = omega (arith, more, c.few);
            }
      ])
