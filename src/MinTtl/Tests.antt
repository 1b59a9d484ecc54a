-- ===== src/MinTtl/Tests.antt =====
-- The overrides on an example.
use behind.Base.{true, max, arith, ◌≡◌, refl, none, some, List, [], ◌∷◌, codes, bytes_eq, to_lower}
use behind.Misc.{strtolower}
use behind.Message.DnsType
use behind.Message.{Message, Rdata, class_in, get_soa}
use behind.Cache.{message_ttl, negative_ttl}
use behind.MinTtl.Raise.{message_ttl-raise_ttls}
use behind.MinTtl.{modify_received, raise_ttls, MinTtlOverride, best_override, min_ttl_override_for}

program : Unit {0}
unfolding best_override min_ttl_override_for bytes_eq strtolower to_lower
program = tt

abbrev overrides : List MinTtlOverride
overrides =
    record { name = codes "com"; ttl = 60 }
    ∷ record { name = codes "a.com"; ttl = 90 }
    ∷ record { name = codes "x.b.com"; ttl = 120 }
    ∷ []

overrides_test :
    (min_ttl_override_for overrides (codes "q.A.com") ≡ some 90)
    × (min_ttl_override_for overrides (codes "x.b.com") ≡ some 120)
    × (min_ttl_override_for overrides (codes "y.b.com") ≡ some 60)
    × (min_ttl_override_for overrides (codes "acom") ≡ none)
unfolding program
overrides_test = (refl, refl, refl, refl)

-- ## Raising

abbrev denial : Message
denial = record {
  header = record { id = 1; flags = 0x8183; qdcount = 1; ancount = 0; nscount = 1; arcount = 0 };
  questions = record { name = codes "q.a.com"; type = DnsType.a; clas = class_in } ∷ [];
  answers = [];
  authorities =
      record {
        name = codes "com";
        type = DnsType.soa;
        clas = class_in;
        ttl = 30;
        expire = 0;
        bin = [];
        sp = Rdata.soa (record {
          nname = [];
          rname = [];
          serial = 1;
          refresh = 1;
          retry = 1;
          expire = 1;
          minimum = 20;
        });
        cacheable = true;
      }
      ∷ [];
  additionals = [];
}

denial_ttl : message_ttl denial ≡ some 20
unfolding message_ttl negative_ttl get_soa
denial_ttl = refl

message_ttl-raise_ttls_example : message_ttl (raise_ttls 90 denial) ≡ some (max 90 20)
message_ttl-raise_ttls_example = message_ttl-raise_ttls 90 20 denial (omega arith) denial_ttl

modify_received_test :
    (modify_received overrides 86400 denial).authorities ≡ (raise_ttls 90 denial).authorities
unfolding program modify_received
modify_received_test = refl
