-- ===== src/Libc.antt =====
-- What rules.c calls of the C library beyond plain string functions. None of it is under daemon/.
use proxiflare.Prelude.{ℕ, Bool, Option, Bytes}

pub record Libc : Type 0 where
  -- fnmatch(pattern, string, 0) == 0
  pub fnmatch : Bytes → Bytes → Bool
  -- fnmatch(pattern, string, FNM_CASEFOLD) == 0
  pub fnmatch_casefold : Bytes → Bytes → Bool
  -- inet_pton(AF_INET, s, &a), and ntohl of the address that it stores on success.
  pub inet_pton : Bytes → Option ℕ
  -- basename
  pub basename : Bytes → Bytes
