-- ===== src/Load/Bounds.antt =====
-- src/config.cpp: the range of every number that is read.
use c_item.Base.{ℕ, Option, none, some, List, ◌≤◌, ltb, if◌then◌else◌, ◌==◌, ◌||◌, arith}
use c_item.Base.Decimal.{from_chars}
use c_item.Load.Result.{Post, Post-if, Post-elim, ConfigError, throws, ok, bad_listen_port}
use c_item.Load.Scalar.{from_one_to, parse_listen_port, uint16_max, unsigned_max}

abbrev pub OneTo : ℕ → ℕ → Type 0
OneTo maximum n = (1 ≤ n) × (n ≤ maximum)

pub from_one_to-Post :
    (maximum : ℕ) (why : ConfigError) (o : Option ℕ)
    → Post (OneTo maximum) (from_one_to maximum why o)
unfolding from_one_to
from_one_to-Post maximum why none = tt
from_one_to-Post maximum why (some n) =
    Post-if (OneTo maximum) (n == 0 || ltb maximum n) (throws why) (ok n) (λ h. tt)
      (λ h. (ground arith, ground arith))

abbrev InPort : ℕ → Type 0
InPort n = n ≤ uint16_max

pub parse_listen_port-Post : (s : List ℕ) → Post (λ (n : ℕ). n ≤ uint16_max) (parse_listen_port s)
unfolding parse_listen_port
parse_listen_port-Post s =
    Post-elim InPort (from_chars unsigned_max s) (throws bad_listen_port)
      (λ (n : ℕ). if ltb uint16_max n then throws bad_listen_port else ok n) (λ h. tt)
      (λ n e.
        Post-if InPort (ltb uint16_max n) (throws bad_listen_port) (ok n) (λ h. tt)
          (λ h. ground arith))
