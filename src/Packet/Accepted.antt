-- ===== src/Packet/Accepted.antt =====
-- What `parse_dns_message` accepts.
pub mod Values
use behind.Base.{
  ℕ, zero, suc, ◌+◌, ◌-◌, ◌*◌, ◌^◌, ◌≤◌, ◌<◌, ◌≡◌, ◌≢◌, refl, sym, ap, ◌∙◌, Option, none, some,
  List, [], ◌∷◌, arith, Bytes, length, take, drop, Option-cases, ◌⊎◌, inl, inr, All, ltb, true,
  false, Bool, Bool-cases, all, ◌&&◌, ◌||◌, not, if◌then◌else◌, ◌==◌,
}
use mathlib.Core.Path.{subst}
use behind.Message.DnsType
use behind.Message.{
  Question, Record, Rdata, Message, null, cname, ptr, ns, mx, soa, https, is_empty,
}
use behind.Name.{NameResult, name_ok, name_bad, out_of_fuel, decode_name}
use behind.Name.Wire.{Wire-IsLabel}
use behind.Name.Exact.{decode_name-Stands_iff}
use behind.Name.RoundTrip.{IsEncodable}
use behind.Packet.{u16_of, u32_of, are_params, are_strings, are_options}
use behind.Packet.Parse.{
  read_name, decode_rdata_name, last_name, has_pointer, parse_mx, parse_soa, parse_https, set_sp,
  set_name, parse_rdata, parse_question_section, parse_questions, parse_record, parse_records,
  parse_header, has_many, parse_sections, parse_dns_message,
}
use behind.Packet.ReadBack.{
  AreWords, null_words, cname_words, ptr_words, ns_words, mx_words, soa_words, https_words,
}
use behind.Packet.ReadRecord.{IsWords}
use behind.Packet.Sections.{IsQuestion}
use behind.Packet.ReadMessage.{Sections, IsCounted}
use behind.Packet.Make.{first_question}
use behind.Packet.Encodable.{IsMessage, is_not_opt, opt_count}
use behind.Packet.Accepted.Values.{
  IsByte, All-drop, u16_of-lt, OnSome, nothing, just, OnSome-if, OnSome-some, NameResult-cases,
  decode_name-IsEncodable, IsAccepted, u16-at, u16-later, u32-later, parse_rdata-IsAccepted,
}

module _ (packet : Bytes) (bytes : All IsByte packet) where
  -- ## Sections

  parse_record-IsAccepted :
      (at : ℕ) (add seen : Bool)
      → OnSome
          (λ p. IsAccepted p.0.type add seen p.0 × (p.2 ≡ (seen || p.0.type == DnsType.opt)))
          (parse_record packet add at seen)
  unfolding parse_record
  parse_record-IsAccepted at add seen = elim (Option-cases (read_name packet at)) [
    | inl e ↦ rw (e, parse_record) nothing
    | inr (p, e) ↦
        let d = drop p.1 packet in
        let r : Record = record {
          name = p.0;
          type = u16_of d;
          clas = u16_of (drop 2 d);
          ttl = u32_of (drop 4 d);
          expire = 0;
          bin = [];
          sp = null;
          cacheable = true;
        } in
        let w : IsWords r = record {
          type_fits = u16-at packet bytes p.1;
          clas_fits = u16-later packet bytes 2 p.1;
          ttl_fits = u32-later packet bytes 4 p.1;
          rdata_fits = null_words;
        } in
        let rdlen = u16_of (drop 8 d) in
        let inner = parse_rdata-IsAccepted packet bytes (p.1 + 10) rdlen add seen r w in
        rw (e, parse_record)
          (OnSome-if (ltb (length packet - p.1) 10) (λ _. nothing)
            λ _.
              OnSome-if (ltb (length packet - (p.1 + 10)) rdlen) (λ _. nothing)
                λ _. parsed add seen (u16_of d) (p.1 + 10 + rdlen) _ inner)
  ]
    where
      parsed :
          (add seen : Bool) (t next : ℕ) (o : Option Record)
          → OnSome (IsAccepted t add seen) o
          → OnSome
              (λ (p : Record × ℕ × Bool).
                IsAccepted p.0.type add seen p.0 × (p.2 ≡ (seen || p.0.type == DnsType.opt)))
              (elim o [ none ↦ none | some q ↦ some (q, next, seen || t == DnsType.opt) ])
      parsed add seen t next none h = nothing
      parsed add seen t next (some q) (just (words, same, opt)) = just (
        (
          words,
          refl,
          subst (λ x. (not (x == DnsType.opt) || add && not seen) ≡ true) (sym same) opt,
        ),
        ap (λ x. seen || x == DnsType.opt) (sym same),
      )

  parse_records-IsAccepted :
      (count at : ℕ) (add seen : Bool)
      → OnSome
          (λ p.
            All IsWords p.0
            × (length p.0 ≡ count)
            × (opt_count p.0 ≤ (if add && not seen then 1 else 0)))
          (parse_records packet add count at seen)
  unfolding parse_records
  parse_records-IsAccepted zero at add seen = just (tt, refl, omega arith)
  parse_records-IsAccepted (suc count) at add seen =
      elim (Option-cases (parse_record packet add at seen)) [
        | inl e ↦ rw (e, parse_records) nothing
        | inr (p, e) ↦ elim (Option-cases (parse_records packet add count p.1 p.2)) [
          | inl e' ↦ rw (e, parse_records, e') nothing
          | inr (q, e') ↦
              let (here, seen_is) = OnSome-some e (parse_record-IsAccepted at add seen) in
              let (words, size, opts) =
                OnSome-some e' (parse_records-IsAccepted count p.1 add p.2) in
              rw (e, parse_records, e')
                (just ((here.0, words), ap suc size, ground (arith, here.2, seen_is, opts)))
        ]
      ]

  parse_question_section-IsQuestion :
      (at : ℕ) → OnSome (λ p. IsQuestion p.0) (parse_question_section packet at)
  unfolding parse_question_section read_name
  parse_question_section-IsQuestion at = elim (NameResult-cases (decode_name packet at)) [
    | inr (inl e) ↦ rw (e, parse_question_section, read_name) nothing
    | inr (inr e) ↦ rw (e, parse_question_section, read_name) nothing
    | inl (n, k, e) ↦
        rw (e, parse_question_section, read_name)
          (OnSome-if (ltb (length packet - (at + k)) 4) (λ _. nothing)
            λ _. just (record {
              encodable = decode_name-IsEncodable packet at e;
              type_fits = u16-at packet bytes (at + k);
              clas_fits = u16-later packet bytes 2 (at + k);
            }))
  ]

  parse_questions-AreQuestions :
      (count at : ℕ)
      → OnSome (λ p. All IsQuestion p.0 × (length p.0 ≡ count)) (parse_questions packet count at)
  unfolding parse_questions
  parse_questions-AreQuestions zero at = just (tt, refl)
  parse_questions-AreQuestions (suc count) at =
      elim (Option-cases (parse_question_section packet at)) [
        | inl e ↦ rw (e, parse_questions) nothing
        | inr (p, e) ↦ elim (Option-cases (parse_questions packet count p.1)) [
          | inl e' ↦ rw (e, parse_questions, e') nothing
          | inr (q, e') ↦
              let here = OnSome-some e (parse_question_section-IsQuestion at) in
              let (rest, size) = OnSome-some e' (parse_questions-AreQuestions count p.1) in
              rw (e, parse_questions, e') (just ((here, rest), ap suc size))
        ]
      ]

opt_count-zero : (rs : List Record) → opt_count rs ≤ 0 → all is_not_opt rs ≡ true
opt_count-zero [] h = refl
opt_count-zero (r ∷ rs) h = ground (arith, opt_count-zero rs)

abbrev pub as_sections : Message → Sections
as_sections msg = record {
  header = msg.header;
  question = (first_question msg.questions).name;
  questions = msg.questions;
  answers = msg.answers;
  authorities = msg.authorities;
  additionals = msg.additionals;
}

parse_sections-IsMessage :
    (packet : Bytes)
    → All IsByte packet
    → has_many (parse_header packet) ≡ false
    → OnSome
        (λ m. IsMessage m × IsCounted (as_sections m))
        (parse_sections packet (parse_header packet))
unfolding parse_sections parse_header has_many
parse_sections-IsMessage packet bytes few =
    let c = parse_header packet in
    elim (Option-cases (parse_questions packet c.qdcount 12)) [
      | inl e ↦ rw (e, parse_sections) nothing
      | inr (p, e) ↦ elim (Option-cases (parse_records packet false c.ancount p.1 false)) [
        | inl e1 ↦ rw (e, parse_sections, e1) nothing
        | inr (q, e1) ↦ elim (Option-cases (parse_records packet false c.nscount q.1 q.2)) [
          | inl e2 ↦ rw (e, parse_sections, e1, e2) nothing
          | inr (r, e2) ↦ elim (Option-cases (parse_records packet true c.arcount r.1 r.2)) [
            | inl e3 ↦ rw (e, parse_sections, e1, e2, e3) nothing
            | inr (s, e3) ↦
                let (qs, n) =
                  OnSome-some e (parse_questions-AreQuestions packet bytes c.qdcount 12) in
                let (w1, n1, o1) =
                  OnSome-some e1
                    (parse_records-IsAccepted packet bytes c.ancount p.1 false false) in
                let (w2, n2, o2) =
                  OnSome-some e2 (parse_records-IsAccepted packet bytes c.nscount q.1 false q.2) in
                let (w3, n3, o3) =
                  OnSome-some e3 (parse_records-IsAccepted packet bytes c.arcount r.1 true r.2) in
                rw (e, parse_sections, e1, e2, e3)
                  (OnSome-if (s.1 == length packet)
                    (λ _. just (
                      record {
                        id_fits = u16_of-lt packet bytes;
                        flags_fits = u16_of-lt (drop 2 packet) (All-drop 2 packet bytes);
                        few_questions = ground (arith, n);
                        questions = qs;
                        answers = w1;
                        authorities = w2;
                        additionals = w3;
                        answers_opt = opt_count-zero q.0 o1;
                        authorities_opt = opt_count-zero r.0 o2;
                        additionals_opt = ground (arith, o3);
                      },
                      record {
                        id_fits = u16_of-lt packet bytes;
                        flags_fits = u16_of-lt (drop 2 packet) (All-drop 2 packet bytes);
                        qdcount_is = sym n;
                        ancount_is = sym n1;
                        nscount_is = sym n2;
                        arcount_is = sym n3;
                        few_questions = ground (arith, n);
                        few_answers = ground (arith, n1);
                        few_authorities = ground (arith, n2);
                        few_additionals = ground (arith, n3);
                      },
                    ))
                    (λ _. nothing))
          ]
        ]
      ]
    ]

-- In what the reader accepts the numbers are within their types, the names asked for can be encoded,
-- there is one OPT record at most, among the additional records, and the header counts the sections,
-- none of which has more than a hundred entries.
pub parse_dns_message-IsMessage :
    (packet : Bytes) (msg : Message)
    → All IsByte packet
    → parse_dns_message packet ≡ some msg
    → IsMessage msg × IsCounted (as_sections msg)
unfolding parse_dns_message
parse_dns_message-IsMessage packet msg bytes h =
    OnSome-some {P = λ m. IsMessage m × IsCounted (as_sections m)} h (
      OnSome-if (ltb (length packet) 12) (λ _. nothing)
        λ _.
          OnSome-if (has_many (parse_header packet)) (λ _. nothing)
            λ few. parse_sections-IsMessage packet bytes few)
