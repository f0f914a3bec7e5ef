-- ===== src/Net.antt =====
-- Socket addresses, as <sys/socket.h> and <netinet/in.h> give them to every part of the program.
use dtndht.Base.{ℕ, Bytes, Bool, true, false}

pub data Family : Type 0 where
  inet inet6 unspec : Family

-- `sin_addr` or `sin6_addr` in memory order; `port` is the number that `sin_port` or `sin6_port`
-- spells in network order, so that `ntohs` of the field is the number itself.
pub record SockAddr : Type 0 where
  pub family : Family
  pub addr : Bytes
  pub port : ℕ

abbrev pub same_family : Family → Family → Bool
same_family Family.inet Family.inet = true
same_family Family.inet6 Family.inet6 = true
same_family Family.unspec Family.unspec = true
same_family _ _ = false

-- How many bytes of address the family has.
abbrev pub addr_len : Family → ℕ
addr_len Family.inet = 4
addr_len Family.inet6 = 16
addr_len Family.unspec = 0
