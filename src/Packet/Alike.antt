-- ===== src/Packet/Alike.antt =====
-- What is written depends on the length of the buffer, not on what it holds: runs from two
-- buffers of one length write the same.
use behind.Base.{
  ℕ, ◌-◌, ◌≡◌, refl, sym, ap, ◌∙◌, Option, none, some, List, [], ◌∷◌, ◌++◌, append_assoc,
  append-nil, arith, Bytes, length, length-append, Option-cases, inl, inr, ltb, false,
}
use mathlib.Core.Path.{subst}
use behind.Message.{Question, Record}
use behind.Name.{NameMap, u16_bytes, write_name}
use behind.Packet.Make.{
  Output, put, patch, write_rdata, record_head, patch_rdlen, write_dns_answer_rr, write_question,
  write_questions, write_records,
}
use behind.Packet.Written.{Alike, Alike-cons, write_name-Alike, write_pieces-Alike}
use behind.Packet.Records.{patch-append, patch_rdlen-some}
use behind.Packet.Rdata.{write_rdata-pieces, write_rdata-some}

-- A run goes from both buffers.
abbrev pub RunsAlike : Bytes → Bytes → (Bytes → Option Output) → Output → Type 0
RunsAlike a b run o = (o' : Output) × (run b ≡ some o') × Alike a b o o'

write_rdata-Alike :
    (a b : Bytes) (m : Option NameMap) (r : Record) (o : Output)
    → length a ≡ length b
    → write_rdata (a, m) r ≡ some o
    → RunsAlike a b (λ x. write_rdata (x, m) r) o
write_rdata-Alike a b m r o h e =
    let (ps, pieces, run) = write_rdata-some (a, m) r o e in
    let (o', run', alike) = write_pieces-Alike a b m ps o h run in
    (o', write_rdata-pieces (b, m) r ∙ rw pieces run', alike)

-- The patch is at the same place, and of the same length.
patch_rdlen-Alike :
    (a b : Bytes) {p q o : Output}
    → length a ≡ length b
    → Alike (a ++ u16_bytes 0) (b ++ u16_bytes 0) p q
    → patch_rdlen (length a) (some p) ≡ some o
    → (o' : Output) × (patch_rdlen (length b) (some q) ≡ some o') × Alike a b o o'
unfolding patch_rdlen
patch_rdlen-Alike a b {p} {q} {o} h (more, at_a, at_b) patched =
    let (small, o_is) = patch_rdlen-some (length a) p o patched in
    let rdlen = length p.0 - length a - 2 in
    let at_b' = ap (λ x. x.0) at_b in
    let same : length q.0 - length b - 2 ≡ rdlen = omega (
      arith,
      h,
      ap length at_a,
      ap length at_b',
      length-append (a ++ u16_bytes 0) more,
      length-append (b ++ u16_bytes 0) more,
      length-append a (u16_bytes 0),
      length-append b (u16_bytes 0),
    ) in
    let fits : ltb 65535 (length q.0 - length b - 2) ≡ false = ground (arith, same, small) in
    let first =
      ap (λ x. x.0) o_is
      ∙ ap (patch (length a) rdlen) at_a
      ∙ patch-append a more 0 0 rdlen
      ∙ append_assoc a (u16_bytes rdlen) more in
    let second =
      ap (λ n. patch (length b) n q.0) same
      ∙ ap (patch (length b) rdlen) at_b'
      ∙ patch-append b more 0 0 rdlen
      ∙ append_assoc b (u16_bytes rdlen) more in
    let table = ap (λ x. x.1) at_b ∙ sym (ap (λ x. x.1) o_is) in
    (
      (patch (length b) (length q.0 - length b - 2) q.0, q.1),
      rw fits refl,
      (u16_bytes rdlen ++ more, first, λ i. (second i, table i)),
    )

pub write_dns_answer_rr-Alike :
    (a b : Bytes) (m : Option NameMap) (name : Bytes) (r : Record) (o : Output)
    → length a ≡ length b
    → write_dns_answer_rr (a, m) name r ≡ some o
    → RunsAlike a b (λ x. write_dns_answer_rr (x, m) name r) o
unfolding write_dns_answer_rr patch_rdlen
write_dns_answer_rr-Alike a b m name r o h e = elim (Option-cases (write_name a m name)) [
  | inl failed ↦ absurd (ground arith)
  | inr (p, wrote) ↦
      let (p', wrote', (bs, at_a, at_b)) = write_name-Alike a b m name p h wrote in
      let rh = record_head r in
      let run_a : patch_rdlen (length (p.0 ++ rh)) (write_rdata ((p.0 ++ rh) ++ u16_bytes 0, p.1) r)
          ≡ some o =
        rw (wrote, write_dns_answer_rr) at e in
      let run_a' =
        subst
          (λ x.
            patch_rdlen (length (x ++ rh)) (write_rdata ((x ++ rh) ++ u16_bytes 0, p.1) r) ≡ some o)
          at_a run_a in
      let heads : length ((a ++ bs) ++ rh) ≡ length ((b ++ bs) ++ rh) = omega (
        arith,
        h,
        length-append a bs,
        length-append b bs,
        length-append (a ++ bs) rh,
        length-append (b ++ bs) rh,
      ) in
      let (o', run_b, alike) = rdata-Alike ((a ++ bs) ++ rh) ((b ++ bs) ++ rh) p.1 heads run_a' in
      let run_b' =
        subst
          (λ x.
            patch_rdlen (length (x.0 ++ rh)) (write_rdata ((x.0 ++ rh) ++ u16_bytes 0, x.1) r)
            ≡ some o')
          (sym at_b) run_b in
      (
        o',
        rw (wrote', write_dns_answer_rr) run_b',
        Alike-cons a b bs {o = o} {o' = o'}
            (Alike-cons (a ++ bs) (b ++ bs) rh {o = o} {o' = o'} alike),
      )
]
  where
    rdata-Alike :
        (x y : Bytes) (t : Option NameMap)
        → length x ≡ length y
        → patch_rdlen (length x) (write_rdata (x ++ u16_bytes 0, t) r) ≡ some o
        → RunsAlike x y (λ z. patch_rdlen (length z) (write_rdata (z ++ u16_bytes 0, t) r)) o
    rdata-Alike x y t k e' = elim (Option-cases (write_rdata (x ++ u16_bytes 0, t) r)) [
      | inl failed ↦ absurd (ground arith)
      | inr (q, wrote) ↦
          let (q', wrote', alike) =
            write_rdata-Alike (x ++ u16_bytes 0) (y ++ u16_bytes 0) t r q
              (omega (arith, k, length-append x (u16_bytes 0), length-append y (u16_bytes 0)))
              wrote in
          let (o', run, alike') = patch_rdlen-Alike x y k alike (rw wrote at e') in
          (o', rw wrote' run, alike')
    ]

-- ## Sections

Alike-nil : (a b : Bytes) (m : Option NameMap) → Alike a b (a, m) (b, m)
Alike-nil a b m = ([], sym (append-nil a), ap (λ x. (x, m)) (sym (append-nil b)))

Alike-put : (a b bs : Bytes) {o o' : Output} → Alike a b o o' → Alike a b (put o bs) (put o' bs)
Alike-put a b bs {o} (more, e, e') = (
  more ++ bs,
  ap (λ x. x ++ bs) e ∙ append_assoc a more bs,
  ap (λ x. put x bs) e' ∙ ap (λ x. (x, o.1)) (append_assoc b more bs),
)

pub write_records-Alike :
    (a b : Bytes) (m : Option NameMap) (owner : Record → Bytes) (rs : List Record) (o : Output)
    (ends : List ℕ)
    → length a ≡ length b
    → write_records owner (a, m) rs ≡ some (o, ends)
    → (o' : Output) × (write_records owner (b, m) rs ≡ some (o', ends)) × Alike a b o o'
unfolding write_records
write_records-Alike a b m owner [] o ends h e =
    let same : (a, m) ≡ o = cc in
    let none_left : [] ≡ ends = cc in
    (
      (b, m),
      ap (λ x. some ((b, m), x)) none_left,
      subst (λ x. Alike a b x (b, m)) same (Alike-nil a b m),
    )
write_records-Alike a b m owner (r ∷ rs) o ends h e =
    elim (Option-cases (write_dns_answer_rr (a, m) (owner r) r)) [
      | inl failed ↦ absurd (ground arith)
      | inr (p, e1) ↦ elim (Option-cases (write_records owner p rs)) [
        | inl failed ↦ absurd (ground arith)
        | inr (t, e2) ↦
            let (p', e1', (bs, at_a, at_b)) = write_dns_answer_rr-Alike a b m (owner r) r p h e1 in
            let grown : length (a ++ bs) ≡ length (b ++ bs) =
              omega (arith, h, length-append a bs, length-append b bs) in
            let (o', e3, alike) =
              write_records-Alike (a ++ bs) (b ++ bs) p.1 owner rs t.0 t.1 grown
                (subst (λ x. write_records owner (x, p.1) rs ≡ some t) at_a e2) in
            let e3' = subst (λ x. write_records owner x rs ≡ some (o', t.1)) (sym at_b) e3 in
            let same : t.0 ≡ o = ground arith in
            let same_ends : length p.0 ∷ t.1 ≡ ends = ground arith in
            let here : length p'.0 ≡ length p.0 =
              omega (arith, grown, ap length at_a, ap (λ x. length x.0) at_b) in
            (
              o',
              rw (e1', write_records, e3')
                  (ap (λ n. some (o', n ∷ t.1)) here ∙ ap (λ x. some (o', x)) same_ends),
              subst (λ x. Alike a b x o') same (Alike-cons a b bs {o = t.0} {o' = o'} alike),
            )
      ]
    ]

write_question-Alike :
    (a b : Bytes) (m : Option NameMap) (q : Question)
    → length a ≡ length b
    → Alike a b (write_question (a, m) q) (write_question (b, m) q)
unfolding write_question
write_question-Alike a b m q h =
    let bytes = u16_bytes q.type ++ u16_bytes q.clas in
    elim (Option-cases (write_name a m q.name)) [
      | inl failed ↦
          let failed' : write_name b m q.name ≡ none = elim (Option-cases (write_name b m q.name)) [
            | inl e ↦ e
            | inr (p, e) ↦
                let (p', e', _) = write_name-Alike b a m q.name p (sym h) e in absurd (cc)
          ] in
          rw (failed, write_question, failed') (Alike-put a b bytes (Alike-nil a b m))
      | inr (p, e) ↦
          let (p', e', alike) = write_name-Alike a b m q.name p h e in
          rw (e, write_question, e') (Alike-put a b bytes alike)
    ]

pub write_questions-Alike :
    (a b : Bytes) (m : Option NameMap) (qs : List Question)
    → length a ≡ length b
    → Alike a b (write_questions (a, m) qs) (write_questions (b, m) qs)
unfolding write_questions
write_questions-Alike a b m [] h = Alike-nil a b m
write_questions-Alike a b m (q ∷ qs) h =
    let o = write_question (a, m) q in
    let (bs, at_a, at_b) = write_question-Alike a b m q h in
    let rest =
      write_questions-Alike (a ++ bs) (b ++ bs) o.1 qs
        (omega (arith, h, length-append a bs, length-append b bs)) in
    let first =
      subst
        (λ x.
          Alike (a ++ bs) (b ++ bs) (write_questions (x, o.1) qs)
            (write_questions (b ++ bs, o.1) qs))
        (sym at_a) rest in
    let both =
      subst (λ x. Alike (a ++ bs) (b ++ bs) (write_questions o qs) (write_questions x qs))
        (sym at_b) first in
    Alike-cons a b bs both
