-- ===== src/Packet/Truncated.antt =====
-- Packets for UDP: whole, or cut at the end of a record with the flag TC set.
use behind.Base.{
  ℕ, zero, suc, ◌≤◌, ◌<◌, ◌≡◌, ◌≢◌, refl, sym, ap, ◌∙◌, Option, some, List, [], ◌∷◌, ◌++◌,
  append_assoc, arith, Bytes, length, take, drop, length-append, Option-cases, ◌⊎◌, inl, inr, max,
  ltb, true, false, Bool-cases, all,
}
use mathlib.Core.Path.{subst}
use behind.Message.{Header, Record, Message}
use behind.Name.{NameMap}
use behind.Name.RoundTrip.{IsTable}
use behind.Packet.{u16_of}
use behind.Packet.Make.{
  Output, patch, header_bytes, counted, limit_count, with_tc, Layout, write_questions,
  write_records, owner_name, additional_name, first_question, write_sections, count_fit,
  truncate_end, truncate, finish_udp, packet_of, make_dns_packet,
}
use behind.Packet.Parse.{parse_dns_message}
use behind.Packet.ReadBack.{u16_of-bytes}
use behind.Packet.ReadMessage.{parse_dns_message-IsRead}
use behind.Packet.ReadRecord.{IsWords}
use behind.Packet.Encodable.{
  IsMessage, is_not_opt, opt_count-take, All-take, length-take_of_le, sent, sent-AreEncodable,
  sent-IsCounted, IsHeaderOf,
}
use behind.Packet.Alike.{write_questions-Alike, write_records-Alike}
use behind.Packet.Cut.{last_fit-le}
use behind.Packet.Laid.{write_sections-run, length-header_bytes, write_sections-Laid}
use behind.Packet.Shorter.{shorter, IsShorter, write_sections-of, write_sections-Shorter}
use behind.Packet.RoundTrip.{ReadsAs, new_table, Laid-ReadsAs}

-- The same sections are written behind another header.
write_sections-Alike :
    (a b : Bytes) (m : Option NameMap) (msg : Message) (l : Layout)
    → length a ≡ length b
    → write_sections (a, m) msg ≡ some l
    → (l' : Layout) × (more : Bytes) × (write_sections (b, m) msg ≡ some l')
      × (l.out ≡ a ++ more)
      × (l'.out ≡ b ++ more)
write_sections-Alike a b m msg l same run =
    let (p, q, r, e1, e2, e3, l_is) = write_sections-run (a, m) msg l run in
    let h = counted msg in
    let owner = owner_name (first_question msg.questions).name in
    let addl = additional_name (first_question msg.questions).name in
    let rs1 = take h.ancount msg.answers in
    let rs2 = take h.nscount msg.authorities in
    let rs3 = take h.arcount msg.additionals in
    let asked = write_questions (a, m) msg.questions in
    let (bs, at_a, at_b) = write_questions-Alike a b m msg.questions same in
    let (p', f1, (cs, p_a, p_b)) =
      write_records-Alike (a ++ bs) (b ++ bs) asked.1 owner rs1 p.0 p.1
        (omega (arith, same, length-append a bs, length-append b bs))
        (subst (λ x. write_records owner (x, asked.1) rs1 ≡ some p) at_a e1) in
    let (q', f2, (ds, q_a, q_b)) =
      write_records-Alike ((a ++ bs) ++ cs) ((b ++ bs) ++ cs) p.0.1 owner rs2 q.0 q.1
        (omega (
          arith,
          same,
          length-append a bs,
          length-append b bs,
          length-append (a ++ bs) cs,
          length-append (b ++ bs) cs,
        ))
        (subst (λ x. write_records owner (x, p.0.1) rs2 ≡ some q) p_a e2) in
    let (r', f3, (es, r_a, r_b)) =
      write_records-Alike (((a ++ bs) ++ cs) ++ ds) (((b ++ bs) ++ cs) ++ ds) q.0.1 addl rs3 r.0 r.1
        (omega (
          arith,
          same,
          length-append a bs,
          length-append b bs,
          length-append (a ++ bs) cs,
          length-append (b ++ bs) cs,
          length-append ((a ++ bs) ++ cs) ds,
          length-append ((b ++ bs) ++ cs) ds,
        ))
        (subst (λ x. write_records addl (x, q.0.1) rs3 ≡ some r) q_a e3) in
    let flat : (x : Bytes) → (((x ++ bs) ++ cs) ++ ds) ++ es ≡ x ++ (bs ++ (cs ++ (ds ++ es))) =
      λ x.
        append_assoc ((x ++ bs) ++ cs) ds es
        ∙ append_assoc (x ++ bs) cs (ds ++ es)
        ∙ append_assoc x bs (cs ++ (ds ++ es)) in
    (
      record {
        out = r'.0;
        question_end = length (write_questions (b, m) msg.questions).0;
        answer_ends = p.1;
        authority_ends = q.1;
        additional_ends = r.1;
      },
      bs ++ (cs ++ (ds ++ es)),
      write_sections-of (b, m) msg
          (
            subst (λ x. write_records owner x rs1 ≡ some (p', p.1)) (sym at_b) f1,
            subst (λ x. write_records owner x rs2 ≡ some (q', q.1)) (sym p_b) f2,
            subst (λ x. write_records addl x rs3 ≡ some (r', r.1)) (sym q_b) f3,
          ),
      ap (λ x. x.out) l_is ∙ r_a ∙ flat a,
      ap (λ x. x.0) r_b ∙ flat b,
    )

-- ## Shorter messages

all-take : (n : ℕ) (rs : List Record) → all is_not_opt rs ≡ true → all is_not_opt (take n rs) ≡ true
all-take zero rs h = refl
all-take (suc n) [] h = refl
all-take (suc n) (r ∷ rs) h = ground (arith, all-take n rs)

shorter-IsMessage : (a n x : ℕ) (msg : Message) → IsMessage msg → IsMessage (shorter a n x msg)
shorter-IsMessage a n x msg v = record {
  id_fits = v.id_fits;
  flags_fits = v.flags_fits;
  few_questions = v.few_questions;
  questions = v.questions;
  answers = All-take IsWords a msg.answers v.answers;
  authorities = All-take IsWords n msg.authorities v.authorities;
  additionals = All-take IsWords x msg.additionals v.additionals;
  answers_opt = all-take a msg.answers v.answers_opt;
  authorities_opt = all-take n msg.authorities v.authorities_opt;
  additionals_opt = omega (arith, v.additionals_opt, opt_count-take x msg.additionals);
}

-- The header that counts a message, with TC set.
abbrev pub cut_header : Message → Header
cut_header msg = record (counted msg) { flags = with_tc msg.header.flags }

cut_header-IsHeaderOf : (msg : Message) → IsMessage msg → IsHeaderOf (cut_header msg) msg
unfolding counted
cut_header-IsHeaderOf msg v = record {
  id_fits = v.id_fits;
  flags_fits = ground (arith, v.flags_fits);
  qdcount_is = omega (arith, v.few_questions);
  few_questions = v.few_questions;
  ancount_in = omega arith;
  nscount_in = omega arith;
  arcount_in = omega arith;
}

-- The patches of `make_dns_packet` make one header of another.
patched-header :
    (h : Header) (rest : Bytes) (a n x : ℕ)
    → h.flags < 65536
    → patch 10 x (
        patch 8 n (
          patch 6 a (
            patch 2 (with_tc (u16_of (drop 2 (header_bytes h ++ rest)))) (header_bytes h ++ rest))))
      ≡ header_bytes (record h { flags = with_tc h.flags; ancount = a; nscount = n; arcount = x })
        ++ rest
unfolding header_bytes
patched-header h rest a n x fits =
    let flags : u16_of (drop 2 (header_bytes h ++ rest)) ≡ h.flags = u16_of-bytes h.flags _ fits in
    ap
      (λ f.
        header_bytes (record h { flags = with_tc f; ancount = a; nscount = n; arcount = x })
        ++ rest)
      flags

-- ## Packets for UDP

abbrev pub start : Message → Output
start msg = (header_bytes (counted msg), some (new_table 0))

-- What is sent in place of a message that does not fit: its questions and its first records,
-- under TC. Only the questions may make it larger than the limit.
pub record IsCutPacket (msg : Message) (limit : ℕ) (out : Bytes) : Type 0 where
  pub answers : ℕ
  pub authorities : ℕ
  pub additionals : ℕ
  pub layout : Layout
  pub whole_is : write_sections (start msg) msg ≡ some layout
  pub too_long : limit < length layout.out
  pub bounded : length out ≤ max limit (length (write_questions (start msg) msg.questions).0)
  pub reads :
      (let m = shorter answers authorities additionals msg in ReadsAs (sent (cut_header m) m) out)

truncated-ReadsAs :
    (msg : Message) (l : Layout) (limit : ℕ)
    → IsMessage msg
    → write_sections (start msg) msg ≡ some l
    → (s : IsShorter (start msg) msg l (truncate_end limit l))
    → (let to = truncate_end limit l in
        let m =
          shorter
            (count_fit to l.answer_ends)
            (count_fit to l.authority_ends)
            (count_fit to l.additional_ends)
            msg in
        (length (truncate limit l) ≡ to) × ReadsAs (sent (cut_header m) m) (truncate limit l))
unfolding truncate counted
truncated-ReadsAs msg l limit v run s =
    let to = truncate_end limit l in
    let a = count_fit to l.answer_ends in
    let n = count_fit to l.authority_ends in
    let x = count_fit to l.additional_ends in
    let m = shorter a n x msg in
    let h = counted msg in
    let h' = cut_header m in
    let w = shorter-IsMessage a n x msg v in
    let (l', more, run', out_is, out_is') =
      write_sections-Alike (header_bytes h) (header_bytes h') (some (new_table 0)) m s.layout
        (length-header_bytes h ∙ sym (length-header_bytes h')) s.run in
    let t : IsTable [] (header_bytes h') (new_table 0) = record { at_start = refl; entries = tt } in
    let (rest, laid_is, at) = write_sections-Laid [] h' (new_table 0) m l' t w.questions run' in
    let (got, parsed, is_read) =
      parse_dns_message-IsRead rest (sent h' m) (sent-IsCounted h' m (cut_header-IsHeaderOf m w))
        (sent-AreEncodable h' m w) at in
    let ca = length-take_of_le a msg.answers (omega (arith, s.answers_few)) in
    let cn = length-take_of_le n msg.authorities (omega (arith, s.authorities_few)) in
    let cx = length-take_of_le x msg.additionals (omega (arith, s.additionals_few)) in
    let ka : a ≡ limit_count (length (take a msg.answers)) = omega (arith, ca, s.answers_few) in
    let kn : n ≡ limit_count (length (take n msg.authorities)) =
      omega (arith, cn, s.authorities_few) in
    let kx : x ≡ limit_count (length (take x msg.additionals)) =
      omega (arith, cx, s.additionals_few) in
    let patched =
      ap (λ z. patch 10 x (patch 8 n (patch 6 a (patch 2 (with_tc (u16_of (drop 2 z))) z))))
        (s.out_is ∙ out_is)
      ∙ patched-header h more a n x v.flags_fits in
    let header_is : record h { flags = with_tc h.flags; ancount = a; nscount = n; arcount = x }
        ≡ h' =
      λ i. record h { flags = with_tc h.flags; ancount = ka i; nscount = kn i; arcount = kx i } in
    let out = patched ∙ ap (λ z. header_bytes z ++ more) header_is ∙ sym out_is' in
    (
      ap length out
          ∙ omega (
            arith,
            ap length out_is,
            ap length out_is',
            s.sized,
            length-append (header_bytes h) more,
            length-append (header_bytes h') more,
            length-header_bytes h,
            length-header_bytes h',
          ),
      record {
        got = got;
        parsed = ap parse_dns_message (out ∙ laid_is) ∙ parsed;
        is_read = is_read;
      },
    )

truncate_end-le :
    (msg : Message) (l : Layout) (limit : ℕ)
    → write_sections (start msg) msg ≡ some l
    → truncate_end limit l ≤ max limit (length (write_questions (start msg) msg.questions).0)
unfolding truncate_end
truncate_end-le msg l limit run =
    let (_, _, _, _, _, _, l_is) = write_sections-run (start msg) msg l run in
    let bound = max limit (length (write_questions (start msg) msg.questions).0) in
    let le : limit ≤ bound = omega arith in
    last_fit-le limit bound _ l.additional_ends le (
      last_fit-le limit bound _ l.authority_ends le (
        last_fit-le limit bound l.question_end l.answer_ends le
          (omega (arith, ap (λ x. x.question_end) l_is))))

-- A message that is made into a packet for UDP is read from it again. If it fits into the limit
-- of 512 bytes or what the client allows, the packet holds all that is sent of it. If it does
-- not, the packet holds its questions and its first records, in a header that counts them and
-- has TC set, and it is within the limit, if the questions are.
pub make_dns_packet-udp-parse_dns_message :
    (msg : Message) (udp_limit : ℕ)
    → IsMessage msg
    → (make_dns_packet msg false udp_limit).buffer ≢ []
    → (let out = (make_dns_packet msg false udp_limit).buffer in
        ((length out ≤ max 512 udp_limit) × ReadsAs (sent (counted msg) msg) out)
        ⊎ IsCutPacket msg (max 512 udp_limit) out)
unfolding make_dns_packet packet_of finish_udp
make_dns_packet-udp-parse_dns_message msg udp_limit v made =
    let limit = max 512 udp_limit in
    elim (Option-cases (write_sections (start msg) msg)) [
      | inl failed ↦ absurd (made (rw failed refl))
      | inr (l, run) ↦ elim (Bool-cases (ltb limit (length l.out))) [
        | inr fits ↦
            let (packet, out_is, reads) = Laid-ReadsAs [] msg l v run in
            rw (run, fits)
              (inl (ground arith, subst (ReadsAs (sent (counted msg) msg)) (sym out_is) reads))
        | inl big ↦
            let s = write_sections-Shorter (start msg) msg l limit run in
            let (size, reads) = truncated-ReadsAs msg l limit v run s in
            rw (run, big)
              (inr (record {
                answers = _;
                authorities = _;
                additionals = _;
                layout = l;
                whole_is = run;
                too_long = ground arith;
                bounded = omega (arith, size, truncate_end-le msg l limit run);
                reads = reads;
              }))
      ]
    ]
