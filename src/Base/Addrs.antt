-- ===== src/Base/Addrs.antt =====
-- IP addresses.
use Prim.Native.Nat.{ℕ, ◌/◌, ◌%◌, ◌^◌}
use mathlib.Core.Path.{◌≡◌}
use mathlib.Core.Logic.{◌↔◌}
use mathlib.Core.Bool.{Bool, true, false}
use native.Mathlib.Omega.{arith}
use librtmp2_server.Base.Tests.{Eq, nat_eqb, nat_eqb_iff, if◌then◌else◌}

-- An address, by its 32 or 128 bits.
pub data IpAddr : Type 0 where
  v4 v6 : ℕ → IpAddr

unfoldable pub ip_eqb : IpAddr → IpAddr → Bool
ip_eqb (v4 a) (v4 b) = nat_eqb a b
ip_eqb (v6 a) (v6 b) = nat_eqb a b
ip_eqb (v4 a) (v6 b) = false
ip_eqb (v6 a) (v4 b) = false

-- `IpAddr::to_canonical`: `::ffff:a.b.c.d` is the IPv4 address.
unfoldable pub to_canonical : IpAddr → IpAddr
to_canonical (v4 a) = v4 a
to_canonical (v6 a) = if nat_eqb (a / 2 ^ 32) 0xffff then v4 (a % 2 ^ 32) else v6 a

pub ip_eqb_iff : (a b : IpAddr) → (ip_eqb a b ≡ true) ↔ (a ≡ b)
unfolding ip_eqb
ip_eqb_iff (v4 a) (v4 b) = ground (arith, nat_eqb_iff a b)
ip_eqb_iff (v6 a) (v6 b) = ground (arith, nat_eqb_iff a b)
ip_eqb_iff (v4 a) (v6 b) = ground arith
ip_eqb_iff (v6 a) (v4 b) = ground arith

instance abbrev pub ip_eq : Eq IpAddr
ip_eq = record { eqb = ip_eqb; eqb_iff = ip_eqb_iff }
