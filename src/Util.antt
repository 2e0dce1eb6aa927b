-- ===== src/Util.antt =====
-- src/stack/util.rs: bytes to and from booleans, IPv4 addresses and the keys of the chunk table.
-- A `u8` is a number below 256.
pub mod Keys
use lora_mesh_rs.Prelude.{
  ℕ, ◌+◌, ◌/◌, ◌%◌, ◌≤◌, ◌<◌, ◌≡◌, ◌↔◌, ap, Bool, true, false, ◌&&◌, ◌||◌, List, [], ◌∷◌, ◌++◌,
  Option, none, some, arith, ltb, leb, ◌==◌, ==_iff, if◌then◌else◌, Eq, length, take, drop,
}
use lora_mesh_rs.Prelude.Outcome.{Outcome, ok, panic, out_of_range, bad_bool, ◌>>=◌}
use Prim.Native.Nat.{◌-◌}

abbrev pub IsByte : ℕ → Type 0
IsByte b = b < 256

-- `xs[i]`
abbrev pub index : List ℕ → ℕ → Outcome ℕ
index [] i = panic out_of_range
index (x ∷ xs) Prim.Native.Nat.zero = ok x
index (x ∷ xs) (Prim.Native.Nat.suc i) = index xs i

-- `xs.get(a..b)`
unfoldable pub get_range : List ℕ → ℕ → ℕ → Option (List ℕ)
get_range xs a b = if leb a b && leb b (length xs) then some (take (b - a) (drop a xs)) else none

-- `std::net::Ipv4Addr`
pub record Ipv4Addr : Type 0 where
  pub a : ℕ
  pub b : ℕ
  pub c : ℕ
  pub d : ℕ

abbrev pub ip : ℕ → ℕ → ℕ → ℕ → Ipv4Addr
ip a b c d = record { a = a; b = b; c = c; d = d }

abbrev pub octets : Ipv4Addr → List ℕ
octets x = x.a ∷ x.b ∷ x.c ∷ x.d ∷ []

-- `parse_string`, which nothing calls
abbrev pub parse_string : List ℕ → List ℕ
parse_string arr = arr

abbrev pub ip_beq : Ipv4Addr → Ipv4Addr → Bool
ip_beq x y = x.a == y.a && (x.b == y.b && (x.c == y.c && x.d == y.d))

pub ip_beq_iff : (x y : Ipv4Addr) → (ip_beq x y ≡ true) ↔ (x ≡ y)
ip_beq_iff x y = ground (arith, ==_iff x.a y.a, ==_iff x.b y.b, ==_iff x.c y.c, ==_iff x.d y.d)

instance abbrev pub ip_eq : Eq Ipv4Addr
ip_eq = record { beq = ip_beq; beq_iff = ip_beq_iff }

-- `Ipv4Addr::is_private`: 10.0.0.0/8, 172.16.0.0/12 and 192.168.0.0/16.
unfoldable pub is_private : Ipv4Addr → Bool
is_private x = x.a == 10 || (x.a == 172 && (leb 16 x.b && leb x.b 31) || (x.a == 192 && x.b == 168))

unfoldable pub parse_bool : ℕ → Outcome Bool
parse_bool byte = if byte == 0 then ok false else if byte == 1 then ok true else panic bad_bool

unfoldable pub parse_byte : Bool → ℕ
parse_byte boolean = if boolean then 1 else 0

-- `try_into` of a slice into four octets, with its `expect`.
unfoldable pub to_octets : List ℕ → Outcome Ipv4Addr
to_octets (a ∷ b ∷ c ∷ d ∷ []) = ok (ip a b c d)
to_octets _ = panic out_of_range

unfoldable pub parse_ipv4 : List ℕ → Outcome Ipv4Addr
unfolding to_octets
parse_ipv4 arr = to_octets arr

-- `Display` of a `u8`: its decimal digits in ASCII.
unfoldable pub decimal : ℕ → List ℕ
decimal n =
    if ltb n 10
    then (48 + n) ∷ []
    else if ltb n 100
    then (48 + n / 10) ∷ (48 + n % 10) ∷ []
    else (48 + n / 100) ∷ (48 + n / 10 % 10) ∷ (48 + n % 10) ∷ []

-- `format!("{}-{}", id1, id2)`, as its bytes.
unfoldable pub composite_key : ℕ → ℕ → List ℕ
unfolding decimal
composite_key id1 id2 = decimal id1 ++ b'-' ∷ decimal id2
