-- ===== src/Packet/RoundTrip.antt =====
-- Messages on the wire as a whole: what `make_dns_packet` writes, `parse_dns_message` reads.
use behind.Base.{
  ℕ, ◌-◌, ◌≤◌, ◌≡◌, ◌≢◌, refl, ap, ◌∙◌, some, [], ◌∷◌, ◌++◌, arith, Bytes, length, Option-cases,
  inl, inr, true, Bool-cases, ltb,
}
use behind.Message.{Message}
use behind.Name.{NameMap, u16_bytes}
use behind.Name.RoundTrip.{IsTable}
use behind.Packet.Make.{
  patch, header_bytes, counted, Layout, write_sections, finish_tcp, packet_of, make_dns_packet,
}
use behind.Packet.Parse.{parse_dns_message}
use behind.Packet.ReadMessage.{Sections, IsRead, parse_dns_message-IsRead}
use behind.Packet.Encodable.{IsMessage, sent, sent-AreEncodable, sent-IsCounted, counted-IsHeaderOf}
use behind.Packet.Laid.{write_sections-Laid}

-- The packet reads as those sections.
pub record ReadsAs (s : Sections) (packet : Bytes) : Type 0 where
  pub got : Message
  pub parsed : parse_dns_message packet ≡ some got
  pub is_read : IsRead s got

-- What is sent over TCP: the length of the packet, and the packet.
pub record IsTcpPacket (s : Sections) (out : Bytes) : Type 0 where
  pub packet : Bytes
  pub out_is : out ≡ u16_bytes (length packet) ++ packet
  pub fits : length packet ≤ 65535
  pub reads : ReadsAs s packet

abbrev pub new_table : ℕ → NameMap
new_table offset = record { offset = offset; entries = [] }

pub Laid-ReadsAs :
    (header : Bytes) (msg : Message) (l : Layout)
    → IsMessage msg
    → write_sections (header ++ header_bytes (counted msg), some (new_table (length header))) msg
      ≡ some l
    → (packet : Bytes) × (l.out ≡ header ++ packet) × ReadsAs (sent (counted msg) msg) packet
Laid-ReadsAs header msg l v run =
    let h = counted msg in
    let t : IsTable header (header_bytes h) (new_table (length header)) = record {
      at_start = refl;
      entries = tt;
    } in
    let (more, out_is, at) = write_sections-Laid header h _ msg l t v.questions run in
    let (got, parsed, is_read) =
      parse_dns_message-IsRead more (sent h msg) (sent-IsCounted h msg (counted-IsHeaderOf msg v))
        (sent-AreEncodable h msg v) at in
    (header_bytes h ++ more, out_is, record { got = got; parsed = parsed; is_read = is_read })

-- A message that is made into a packet for TCP is read from it again: what stands behind the two
-- bytes of length is parsed, and gives the header with the sections' counts, the questions, and
-- the first hundred records of each section, under the names that they were written with and
-- with the names in their data in lower case.
pub make_dns_packet-tcp-parse_dns_message :
    (msg : Message) (udp_limit : ℕ)
    → IsMessage msg
    → (make_dns_packet msg true udp_limit).buffer ≢ []
    → IsTcpPacket (sent (counted msg) msg) (make_dns_packet msg true udp_limit).buffer
unfolding make_dns_packet packet_of finish_tcp
make_dns_packet-tcp-parse_dns_message msg udp_limit v made =
    let start = (0 ∷ 0 ∷ []) ++ header_bytes (counted msg) in
    elim (Option-cases (write_sections (start, some (new_table 2)) msg)) [
      | inl failed ↦ absurd (made (rw failed refl))
      | inr (l, run) ↦ elim (Bool-cases (ltb 65535 (length l.out - 2))) [
        | inl big ↦ absurd (made (rw (run, big) refl))
        | inr fits ↦
            let (packet, out_is, reads) = Laid-ReadsAs (0 ∷ 0 ∷ []) msg l v run in
            let size = ap length out_is in
            let framed : patch 0 (length l.out - 2) l.out ≡ u16_bytes (length packet) ++ packet =
              ap (λ x. patch 0 (length l.out - 2) x) out_is
              ∙ ap (λ n. u16_bytes n ++ packet) (omega (arith, size)) in
            rw (run, fits)
              (record {
                packet = packet;
                out_is = framed;
                fits = ground (arith, size);
                reads = reads;
              })
      ]
    ]
