-- ===== src/Base/Int.antt =====
-- A C `int` as an integer over the native numbers, and the negated errno values that the
-- application returns and tests. The values are those of the C library of Zephyr.
use Prim.Native.Nat.{ℕ}
use mathlib.Core.Path.{◌≡◌}
use mathlib.Core.Logic.{◌↔◌}
use mathlib.Core.Bool.{Bool, true, false}
use native.Mathlib.Omega.{arith}
use k_fsw.Base.Tests.{◌==◌}

-- `negsuc n` is -(n + 1).
pub data ℤ : Type 0 where
  pos : ℕ → ℤ
  negsuc : ℕ → ℤ

infix 50 ◌==ℤ◌
abbrev pub ◌==ℤ◌ : ℤ → ℤ → Bool
pos a ==ℤ pos b = a == b
negsuc a ==ℤ negsuc b = a == b
_ ==ℤ _ = false

pub ==ℤ_iff : (a b : ℤ) → ((a ==ℤ b) ≡ true) ↔ (a ≡ b)
==ℤ_iff (pos a) (pos b) = ground arith
==ℤ_iff (negsuc a) (negsuc b) = ground arith
==ℤ_iff (pos a) (negsuc b) = ground arith
==ℤ_iff (negsuc a) (pos b) = ground arith

-- `result < 0`
abbrev pub is_negative : ℤ → Bool
is_negative (pos _) = false
is_negative (negsuc _) = true

-- A result of 0, and `result == 0`.
abbrev pub ok : ℤ
ok = pos 0

abbrev pub is_ok : ℤ → Bool
is_ok r = r ==ℤ ok

-- -ENOENT, and so on.
abbrev pub enoent : ℤ
enoent = negsuc 1

abbrev pub eio : ℤ
eio = negsuc 4

abbrev pub e2big : ℤ
e2big = negsuc 6

abbrev pub eagain : ℤ
eagain = negsuc 10

abbrev pub eacces : ℤ
eacces = negsuc 12

abbrev pub ebusy : ℤ
ebusy = negsuc 15

abbrev pub enodev : ℤ
enodev = negsuc 18

abbrev pub einval : ℤ
einval = negsuc 21

abbrev pub enospc : ℤ
enospc = negsuc 27

abbrev pub erange : ℤ
erange = negsuc 33

abbrev pub ebadmsg : ℤ
ebadmsg = negsuc 76

abbrev pub enametoolong : ℤ
enametoolong = negsuc 90

abbrev pub econnreset : ℤ
econnreset = negsuc 103

abbrev pub etimedout : ℤ
etimedout = negsuc 115

abbrev pub ehostunreach : ℤ
ehostunreach = negsuc 117

abbrev pub ealready : ℤ
ealready = negsuc 119

abbrev pub emsgsize : ℤ
emsgsize = negsuc 121

abbrev pub enotconn : ℤ
enotconn = negsuc 127

abbrev pub enotsup : ℤ
enotsup = negsuc 133

abbrev pub eilseq : ℤ
eilseq = negsuc 137
