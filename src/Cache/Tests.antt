-- ===== src/Cache/Tests.antt =====
-- Runs of the cache, and the theorems at concrete inputs.
use behind.Base.{
  min, ◌-◌, ◌≡◌, refl, some, none, List, [], ◌∷◌, arith, codes, true, bytes_eq, to_lower, length,
}
use behind.Message.DnsType
use behind.Message.{Message, Record, class_in, null, get_soa}
use behind.Misc.{strtolower}
use behind.Message.{Rdata, normalize_negative_ttl}
use behind.Cache.Negative.{soa_ttl, message_ttl-normalize_negative_ttl}
use behind.Cache.{
  Cache, find, find_key, insert, insert_with_ttl, insert_failure, message_ttl, fits, index_find,
  index_erase, index_set, forget, erase, evict, push_entry, stamped, aged, item_at, remove_node,
  needs_room, erase_last, last_node, set_max_bytes,
}
use behind.Cache.Charge.{Sizes, make_key, key_eq, message_size}
use behind.Cache.Valid.{IsValid}
use behind.Cache.Insert.{Inserted, new_item, insert_with_ttl-Inserted}
use behind.Cache.Find.{Found, find_key-Found}
use behind.Cache.Runs.{Call, call, run, configured, run-IsValid}
use behind.Cache.Recall.{Remembered, find-insert, find-insert_expired}

program : Unit {0}
unfolding find find_key insert insert_with_ttl insert_failure message_ttl make_key key_eq index_find
    index_erase index_set forget erase evict push_entry message_size set_max_bytes stamped aged
    item_at remove_node needs_room erase_last last_node call run configured new_item strtolower
    bytes_eq to_lower get_soa
program = tt

abbrev sizes : Sizes
sizes = record {
  sizeof_item = 200;
  sizeof_question = 40;
  sizeof_record = 100;
  sizeof_cname = 32;
  sizeof_ptr = 32;
  sizeof_ns = 32;
  sizeof_mx = 40;
  sizeof_soa = 88;
  sizeof_https = 64;
}

abbrev answer_a : Record
answer_a = record {
  name = codes "a.lan";
  type = DnsType.a;
  clas = class_in;
  ttl = 300;
  expire = 0;
  bin = 10 ∷ 0 ∷ 0 ∷ 1 ∷ [];
  sp = null;
  cacheable = true;
}

abbrev message : Message
message = record {
  header = record { id = 7; flags = 0x8180; qdcount = 1; ancount = 1; nscount = 0; arcount = 0 };
  questions = record { name = codes "a.lan"; type = DnsType.a; clas = class_in } ∷ [];
  answers = answer_a ∷ [];
  authorities = [];
  additionals = [];
}

abbrev small : Cache
small = configured 65535 1_000_000 86400

abbrev calls : List Call
calls =
    Call.insert 5 (codes "A.lan") DnsType.a class_in message
    ∷ Call.find 6 (codes "a.LAN") DnsType.a class_in
    ∷ Call.insert_failure 7 (codes "b.lan") DnsType.a class_in message 5
    ∷ Call.find 9000 (codes "b.lan") DnsType.a class_in
    ∷ []

-- The failure has expired at the last look-up.
calls_left : length (run sizes small calls).items ≡ 1
unfolding program
calls_left = refl

ttl_message : message_ttl message ≡ some 300
unfolding program
ttl_message = refl

run-IsValid_example : IsValid (run sizes (configured 65535 1_000_000 86400) calls)
run-IsValid_example = run-IsValid sizes 65535 1_000_000 86400 calls (omega arith)

small-IsValid : IsValid small
unfolding run configured
small-IsValid = run-IsValid sizes 65535 1_000_000 86400 [] (omega arith)

fits_message :
    fits small
      (new_item sizes small 5 (make_key (codes "A.lan") DnsType.a class_in) message 300).charge
    ≡ true
unfolding program
fits_message = refl

same_case : strtolower (codes "a.LAN") ≡ strtolower (codes "A.lan")
unfolding program
same_case = refl

small_limit : small.max_ttl ≡ 86400
unfolding program
small_limit = refl

insert_with_ttl-Inserted_example :
    Inserted small
      (new_item sizes small 5 (make_key (codes "A.lan") DnsType.a class_in) message 300)
      (insert_with_ttl sizes small 5 (make_key (codes "A.lan") DnsType.a class_in) message 300)
insert_with_ttl-Inserted_example =
    insert_with_ttl-Inserted sizes small 5 (make_key (codes "A.lan") DnsType.a class_in) message 300
      small-IsValid (omega arith) fits_message

find_key-Found_example :
    Found small 6
      (make_key (codes "a.lan") DnsType.a class_in)
      (find_key small 6 (make_key (codes "a.lan") DnsType.a class_in))
find_key-Found_example =
    find_key-Found small 6 (make_key (codes "a.lan") DnsType.a class_in) small-IsValid

find-insert_example :
    (n : Message) × ((find
        (insert sizes small 5 (codes "A.lan") DnsType.a class_in message)
        1005
        (codes "a.LAN")
        DnsType.a
        class_in).1
      ≡ some n)
    × Remembered (min 300 small.max_ttl) (1005 - 5) message n
find-insert_example =
    find-insert sizes small 5 1005 (codes "A.lan") (codes "a.LAN") DnsType.a class_in message 300
      small-IsValid ttl_message (omega arith) (omega arith) fits_message same_case (omega arith)
      (omega (arith, small_limit)) (omega arith) (omega (arith, small_limit))

find-insert_expired_example :
    (find
      (insert sizes small 5 (codes "A.lan") DnsType.a class_in message)
      300_005
      (codes "a.LAN")
      DnsType.a
      class_in).1
    ≡ none
find-insert_expired_example =
    find-insert_expired sizes small 5 300_005 (codes "A.lan") (codes "a.LAN") DnsType.a class_in
      message 300 small-IsValid ttl_message (omega arith) (omega arith) fits_message same_case
      (omega (arith, small_limit)) (omega arith) (omega (arith, small_limit))

-- ## Negative responses

abbrev denial : Message
denial = record message {
  header = record { id = 7; flags = 0x8183; qdcount = 1; ancount = 0; nscount = 1; arcount = 0 };
  answers = [];
  authorities =
      record {
        name = codes "lan";
        type = DnsType.soa;
        clas = class_in;
        ttl = 30;
        expire = 0;
        bin = [];
        sp = Rdata.soa (record {
          nname = [];
          rname = [];
          serial = 1;
          refresh = 1;
          retry = 1;
          expire = 1;
          minimum = 20;
        });
        cacheable = true;
      }
      ∷ [];
}

message_ttl-normalize_negative_ttl_example :
    (soa_ttl (normalize_negative_ttl denial).authorities ≡ message_ttl denial)
    × (message_ttl (normalize_negative_ttl denial) ≡ message_ttl denial)
message_ttl-normalize_negative_ttl_example = message_ttl-normalize_negative_ttl denial refl
