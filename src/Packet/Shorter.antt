-- ===== src/Packet/Shorter.antt =====
-- A packet that is cut at the end of a record is the packet of the message with fewer records.
use behind.Base.{
  ℕ, zero, suc, ◌≤◌, ◌≡◌, refl, sym, ap, ◌∙◌, some, List, [], ◌∷◌, ◌++◌, arith, Bytes, length, take,
  inl, inr, All, All-mono, take-length-append,
}
use mathlib.Core.Path.{subst}
use behind.Message.{Record, Message}
use behind.Packet.Make.{
  Output, write_questions, write_records, count_fit, owner_name, additional_name, first_question,
  limit_count, counted, Layout, write_sections, truncate_end,
}
use behind.Packet.Encodable.{length-take_of_le}
use behind.Packet.Laid.{write_sections-run}
use behind.Packet.Cut.{
  last_fit-holds, IsPrefix, IsPrefix-length, write_records-grows, IsSynced, Cut, Cut-beyond,
  Cut-along,
}

Cut-section :
    (to : ℕ) (owner : Record → Bytes) (cut full full' : Output) (rs : List Record) (ends : List ℕ)
    → IsSynced to cut full
    → length cut.0 ≤ to
    → IsPrefix cut.0 full.0
    → write_records owner full rs ≡ some (full', ends)
    → Cut to owner cut rs ends full'
Cut-section to owner cut full full' rs ends (inl same) fits before h =
    Cut-along to owner cut full' rs ends fits
      (subst (λ x. write_records owner x rs ≡ some (full', ends)) (sym same) h)
Cut-section to owner cut full full' rs ends (inr far) fits before h =
    Cut-beyond to owner cut full full' rs ends far fits before h

-- ## The records that are left

take-take_of_le {ℓ} : {A : Type ℓ} (m n : ℕ) (xs : List A) → m ≤ n → take m (take n xs) ≡ take m xs
take-take_of_le zero n xs h = refl
take-take_of_le (suc m) zero xs h = absurd (omega arith)
take-take_of_le (suc m) (suc n) [] h = refl
take-take_of_le (suc m) (suc n) (x ∷ xs) h = ap (◌∷◌ x) (take-take_of_le m n xs (omega arith))

-- The first records of those that are sent are all that is sent of them.
left :
    (n : ℕ) (rs : List Record)
    → n ≤ length (take (limit_count (length rs)) rs)
    → (n ≤ limit_count (length rs))
      × (limit_count (length (take n rs)) ≡ n)
      × (take (limit_count (length (take n rs))) (take n rs)
          ≡ take n (take (limit_count (length rs)) rs))
left n rs h =
    let all = length-take_of_le (limit_count (length rs)) rs (omega arith) in
    let some_left = length-take_of_le n rs (omega (arith, all)) in
    let count : limit_count (length (take n rs)) ≡ n = omega (arith, all, some_left) in
    (
      omega (arith, all),
      count,
      ap (λ k. take k (take n rs)) count
          ∙ take-take_of_le n n rs (omega arith)
          ∙ sym (take-take_of_le n (limit_count (length rs)) rs (omega (arith, all))),
    )

-- A message with the first records of each section.
abbrev pub shorter : ℕ → ℕ → ℕ → Message → Message
shorter a n r msg = record msg {
  answers = take a msg.answers;
  authorities = take n msg.authorities;
  additionals = take r msg.additionals;
}

pub record IsShorter (o : Output) (msg : Message) (l : Layout) (to : ℕ) : Type 0 where
  pub layout : Layout
  pub run :
      write_sections o (
        shorter
          (count_fit to l.answer_ends)
          (count_fit to l.authority_ends)
          (count_fit to l.additional_ends)
          msg)
      ≡ some layout
  pub out_is : take to l.out ≡ layout.out
  pub sized : length layout.out ≡ to
  pub answers_few : count_fit to l.answer_ends ≤ limit_count (length msg.answers)
  pub authorities_few : count_fit to l.authority_ends ≤ limit_count (length msg.authorities)
  pub additionals_few : count_fit to l.additional_ends ≤ limit_count (length msg.additionals)

pub write_sections-of :
    (o : Output) (msg : Message) {p q r : Output} {es fs gs : List ℕ}
    → (let h = counted msg in
        let owner = owner_name (first_question msg.questions).name in
        (write_records owner (write_questions o msg.questions) (take h.ancount msg.answers)
          ≡ some (p, es))
        × (write_records owner p (take h.nscount msg.authorities) ≡ some (q, fs))
        × (write_records
              (additional_name (first_question msg.questions).name)
              q
              (take h.arcount msg.additionals)
            ≡ some (r, gs)))
    → write_sections o msg
      ≡ some (record {
        out = r.0;
        question_end = length (write_questions o msg.questions).0;
        answer_ends = es;
        authority_ends = fs;
        additional_ends = gs;
      })
unfolding write_sections
write_sections-of o msg (e1, e2, e3) = rw (e1, write_sections, e2, e3) refl

truncate_end-holds {κ} :
    (P : ℕ → Type κ) (limit : ℕ) (l : Layout)
    → P l.question_end
    → All P l.answer_ends
    → All P l.authority_ends
    → All P l.additional_ends
    → P (truncate_end limit l)
unfolding truncate_end
truncate_end-holds P limit l q a n r =
    last_fit-holds P limit _ l.additional_ends
      (last_fit-holds P limit _ l.authority_ends
        (last_fit-holds P limit l.question_end l.answer_ends q a) n)
      r

-- The cut is at the end of what the three sections leave.
Cut-IsShorter :
    (o : Output) (msg : Message) (l : Layout) (to : ℕ) {p q r : Output}
    → (let h = counted msg in
        let owner = owner_name (first_question msg.questions).name in
        (c1 : Cut to owner
          (write_questions o msg.questions)
          (take h.ancount msg.answers)
          l.answer_ends
          p)
        → (c2 : Cut to owner c1.cut' (take h.nscount msg.authorities) l.authority_ends q)
        → (c3 : Cut to
            (additional_name (first_question msg.questions).name)
            c2.cut'
            (take h.arcount msg.additionals)
            l.additional_ends
            r)
        → l.out ≡ r.0
        → to ≤ length c3.cut'.0
        → IsShorter o msg l to)
unfolding counted
Cut-IsShorter o msg l to {p} {q} {r} c1 c2 c3 out_is reached =
    let a = count_fit to l.answer_ends in
    let n = count_fit to l.authority_ends in
    let x = count_fit to l.additional_ends in
    let m = shorter a n x msg in
    let owner = owner_name (first_question msg.questions).name in
    let addl = additional_name (first_question msg.questions).name in
    let (fa, ca, la) = left a msg.answers c1.few in
    let (fn, cn, ln) = left n msg.authorities c2.few in
    let (fx, cx, lx) = left x msg.additionals c3.few in
    let exact : to ≡ length c3.cut'.0 = omega (arith, c3.fits) in
    let run = write_sections-of o m (
      ap (λ rs. write_records owner (write_questions o msg.questions) rs) la ∙ c1.run,
      ap (λ rs. write_records owner c1.cut' rs) ln ∙ c2.run,
      ap (λ rs. write_records addl c2.cut' rs) lx ∙ c3.run,
    ) in
    record {
      layout = record {
        out = c3.cut'.0;
        question_end = length (write_questions o msg.questions).0;
        answer_ends = c1.cut_ends;
        authority_ends = c2.cut_ends;
        additional_ends = c3.cut_ends;
      };
      run = run;
      out_is =
          ap (take to) (out_is ∙ c3.before.whole)
          ∙ ap (λ k. take k (c3.cut'.0 ++ c3.before.more)) exact
          ∙ take-length-append c3.cut'.0 c3.before.more;
      sized = sym exact;
      answers_few = fa;
      authorities_few = fn;
      additionals_few = fx;
    }

-- Where the packet is cut, what is left of it is the packet of a shorter message.
pub write_sections-Shorter :
    (o : Output) (msg : Message) (l : Layout) (limit : ℕ)
    → write_sections o msg ≡ some l
    → IsShorter o msg l (truncate_end limit l)
write_sections-Shorter o msg l limit run =
    let (p, q, r, e1, e2, e3, l_is) = write_sections-run o msg l run in
    let h = counted msg in
    let owner = owner_name (first_question msg.questions).name in
    let addl = additional_name (first_question msg.questions).name in
    let asked = write_questions o msg.questions in
    let l1 : Layout = record {
      out = r.0.0;
      question_end = length asked.0;
      answer_ends = p.1;
      authority_ends = q.1;
      additional_ends = r.1;
    } in
    let to = truncate_end limit l1 in
    let (f1, g1) = write_records-grows owner asked p.0 (take h.ancount msg.answers) p.1 e1 in
    let (f2, g2) = write_records-grows owner p.0 q.0 (take h.nscount msg.authorities) q.1 e2 in
    let (f3, g3) = write_records-grows addl q.0 r.0 (take h.arcount msg.additionals) r.1 e3 in
    let h1 = IsPrefix-length f1 in
    let h2 = IsPrefix-length f2 in
    let above : length asked.0 ≤ to =
      truncate_end-holds (λ e. length asked.0 ≤ e) limit l1 (omega arith) g1
        (All-mono _ _ q.1 (λ e k. omega arith) g2) (All-mono _ _ r.1 (λ e k. omega arith) g3) in
    let c1 = Cut-along to owner asked p.0 (take h.ancount msg.answers) p.1 above e1 in
    let c2 =
      Cut-section to owner c1.cut' p.0 q.0 (take h.nscount msg.authorities) q.1 c1.synced c1.fits
        c1.before e2 in
    let c3 =
      Cut-section to addl c2.cut' q.0 r.0 (take h.arcount msg.additionals) r.1 c2.synced c2.fits
        c2.before e3 in
    let reached =
      truncate_end-holds (λ e. e ≤ to → e ≤ length c3.cut'.0) limit l1
        (λ s. omega (arith, c1.grown, c2.grown, c3.grown))
        (All-mono _ _ p.1 (λ e k s. omega (arith, k s, c2.grown, c3.grown)) c1.largest)
        (All-mono _ _ q.1 (λ e k s. omega (arith, k s, c3.grown)) c2.largest) c3.largest in
    subst (λ x. IsShorter o msg x (truncate_end limit x)) (sym l_is)
      (Cut-IsShorter o msg l1 to c1 c2 c3 refl (reached (omega arith)))
