-- ===== src/Message/DnsType.antt =====
-- The values of `DNS_TYPE` in src/Behind.h, an enumeration over uint16_t: any number may stand in it.
use behind.Base.{ℕ}

abbrev pub a : ℕ
a = 1

abbrev pub ns : ℕ
ns = 2

abbrev pub cname : ℕ
cname = 5

abbrev pub soa : ℕ
soa = 6

abbrev pub ptr : ℕ
ptr = 12

abbrev pub mx : ℕ
mx = 15

abbrev pub txt : ℕ
txt = 16

abbrev pub aaaa : ℕ
aaaa = 28

abbrev pub opt : ℕ
opt = 41

abbrev pub https : ℕ
https = 65
