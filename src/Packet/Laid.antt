-- ===== src/Packet/Laid.antt =====
-- `write_sections` as a whole: the sections stand in the packet behind its header.
use behind.Base.{
  ℕ, ◌≡◌, refl, ap, ◌∙◌, some, List, ◌++◌, arith, Bytes, length, take, Option-cases, inl, inr, All,
}
use mathlib.Core.Path.{subst}
use behind.Message.{Header, Record, Message}
use behind.Name.{NameMap}
use behind.Name.RoundTrip.{IsTable}
use behind.Packet.Make.{
  Output, header_bytes, write_questions, write_records, owner_name, additional_name, first_question,
  counted, Layout, write_sections,
}
use behind.Packet.ReadRecord.{RecordsAt, RecordsAt-append}
use behind.Packet.Sections.{
  Extends-Then, QuestionsAt, QuestionsAt-append, IsQuestion, write_questions-Extends,
  write_records-Extends,
}
use behind.Packet.ReadMessage.{SectionsAt}
use behind.Packet.Encodable.{sent}

abbrev OwnersAt : (Record → Bytes) → List Record → Bytes → ℕ → ℕ → Type 0
OwnersAt owner rs packet at end = RecordsAt packet owner at rs end

-- The three runs over records, one behind the other.
pub write_sections-run :
    (o : Output) (msg : Message) (l : Layout)
    → write_sections o msg ≡ some l
    → (let h = counted msg in
        let owner = owner_name (first_question msg.questions).name in
        (p : Output × List ℕ) × (q : Output × List ℕ) × (r : Output × List ℕ) × (write_records owner
            (write_questions o msg.questions)
            (take h.ancount msg.answers)
          ≡ some p)
        × (write_records owner p.0 (take h.nscount msg.authorities) ≡ some q)
        × (write_records
              (additional_name (first_question msg.questions).name)
              q.0
              (take h.arcount msg.additionals)
            ≡ some r)
        × (l ≡ record {
          out = r.0.0;
          question_end = length (write_questions o msg.questions).0;
          answer_ends = p.1;
          authority_ends = q.1;
          additional_ends = r.1;
        }))
unfolding write_sections
write_sections-run o msg l h =
    let c = counted msg in
    let owner = owner_name (first_question msg.questions).name in
    elim (Option-cases
      (write_records owner (write_questions o msg.questions) (take c.ancount msg.answers))) [
        | inl failed ↦ absurd (ground arith)
        | inr (p, e1) ↦
            elim (Option-cases (write_records owner p.0 (take c.nscount msg.authorities))) [
              | inl failed ↦ absurd (ground arith)
              | inr (q, e2) ↦
                  elim (Option-cases (
                    write_records (additional_name (first_question msg.questions).name) q.0
                      (take c.arcount msg.additionals))) [
                        | inl failed ↦ absurd (ground arith)
                        | inr (r, e3) ↦ (p, q, r, e1, e2, e3, ground arith)
                      ]
            ]
      ]

pub length-header_bytes : (h : Header) → length (header_bytes h) ≡ 12
unfolding header_bytes
length-header_bytes h = refl

-- The sections that are written stand behind the header.
pub write_sections-Laid :
    (header : Bytes) (h : Header) (m : NameMap) (msg : Message) (l : Layout)
    → IsTable header (header_bytes h) m
    → All IsQuestion msg.questions
    → write_sections (header ++ header_bytes h, some m) msg ≡ some l
    → (more : Bytes) × (l.out ≡ header ++ (header_bytes h ++ more))
      × SectionsAt
          (sent (counted msg) msg)
          (header_bytes h ++ more)
          12
          (length (header_bytes h ++ more))
write_sections-Laid header h m msg l t questions run =
    let c = counted msg in
    let question = (first_question msg.questions).name in
    let owner = owner_name question in
    let packet = header_bytes h in
    let rs1 = take c.ancount msg.answers in
    let rs2 = take c.nscount msg.authorities in
    let rs3 = take c.arcount msg.additionals in
    let (p, q, r, e1, e2, e3, l_is) = write_sections-run (header ++ packet, some m) msg l run in
    let w0 = write_questions-Extends header packet m msg.questions t questions in
    let w1 =
      write_records-Extends header (packet ++ w0.more) w0.map owner rs1 p.0 p.1 w0.is_table
        (subst (λ x. write_records owner x rs1 ≡ some p) w0.result_is e1) in
    let packet1 = (packet ++ w0.more) ++ w1.more in
    let w2 =
      write_records-Extends header packet1 w1.map owner rs2 q.0 q.1 w1.is_table
        (subst (λ x. write_records owner x rs2 ≡ some q) w1.result_is e2) in
    let w3 =
      write_records-Extends header (packet1 ++ w2.more) w2.map (additional_name question) rs3 r.0
        r.1 w2.is_table
        (subst (λ x. write_records (additional_name question) x rs3 ≡ some r) w2.result_is e3) in
    let whole =
      Extends-Then header packet (QuestionsAt msg.questions) _ (QuestionsAt-append msg.questions) w0
        (Extends-Then header (packet ++ w0.more) (OwnersAt owner rs1) _
          (λ x more a e. RecordsAt-append x more owner a e rs1) w1
          (Extends-Then header packet1 (OwnersAt owner rs2)
            (OwnersAt (additional_name question) rs3)
            (λ x more a e. RecordsAt-append x more owner a e rs2) w2 w3)) in
    (
      whole.more,
      ap (λ x. x.out) l_is ∙ ap (λ x. x.0) whole.result_is,
      subst (λ n. SectionsAt (sent c msg) (packet ++ whole.more) n (length (packet ++ whole.more)))
          (length-header_bytes h) whole.holds,
    )
