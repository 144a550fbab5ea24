-- ===== src/Broker/Address.antt =====
-- crates/lluma-broker/src/registry.rs: the policy on the address that a host advertises. The parsers
-- of reqwest (a URL) and of the standard library (an IP literal) are parameters; the tests on an
-- address that parsed are the standard library's.
pub mod Policy
use Prim.Native.Nat.{bit_and}
use Prim.Native.Char.{Char, code}
use text.Mathlib.Text.{◌==◌ as str_eq}
use lluma.Common.{
  ℕ, ◌+◌, ◌*◌, ◌/◌, ◌%◌, ◌<◌, ◌≤◌, ◌≡◌, ◌⊎◌, Bool, true, false, not, ◌&&◌, ◌||◌, Option, none, some,
  String, ◌==◌, leb, if◌then◌else◌, arith, refl,
}

pub record Url : Type 0 where
  pub scheme : String
  pub host_str : Option String

-- `std::net::IpAddr`: four octets, or eight segments of 16 bits.
pub data IpAddr : Type 0 where
  v4 : ℕ → ℕ → ℕ → ℕ → IpAddr
  v6 : ℕ → ℕ → ℕ → ℕ → ℕ → ℕ → ℕ → ℕ → IpAddr

-- `reqwest::Url::parse` and `str::parse::<IpAddr>`.
pub record Parsers : Type 0 where
  pub parse_url : String → Option Url
  pub parse_ip : String → Option IpAddr

-- `trim_start_matches` and `trim_end_matches` of one character.
trim_start : ℕ → String → String
trim_start c String.[] = String.[]
trim_start c (String.◌∷◌ d s) =
    let rest = trim_start c s in if code d == c then rest else String.◌∷◌ d s

trim_end : ℕ → String → String
trim_end c String.[] = String.[]
trim_end c (String.◌∷◌ d s) = elim (trim_end c s) [
  | String.[] ↦ if code d == c then String.[] else String.◌∷◌ d String.[]
  | String.◌∷◌ e r ↦ String.◌∷◌ d (String.◌∷◌ e r)
]

-- `is_loopback() || is_private() || is_link_local() || is_unspecified()` of `Ipv4Addr`.
abbrev pub internal_v4 : ℕ → ℕ → ℕ → ℕ → Bool
internal_v4 a b c d =
    a == 127
    || (a == 10 || (a == 172 && (leb 16 b && leb b 31) || a == 192 && b == 168))
    || a == 169 && b == 254
    || (a == 0 && (b == 0 && (c == 0 && d == 0)))

-- The first five segments are zero.
abbrev low_96 : ℕ → ℕ → ℕ → ℕ → ℕ → Bool
low_96 a b c d e = a == 0 && (b == 0 && (c == 0 && (d == 0 && e == 0)))

-- `seg0 & 0xfe00 != 0xfc00 && seg0 & 0xffc0 != 0xfe80`
global_segment : ℕ → Bool
global_segment a = not (bit_and a 0xfe00 == 0xfc00) && not (bit_and a 0xffc0 == 0xfe80)

-- The policy on an IP literal: an IPv4-mapped address by its IPv4 part, then `::1` and `::`, then
-- any other form with an IPv4 part, then the two local ranges.
unfoldable pub literal_ok : IpAddr → Bool
unfolding global_segment
literal_ok (v4 a b c d) = not (internal_v4 a b c d)
literal_ok (v6 a b c d e f g h) =
    if low_96 a b c d e && f == 0xffff
    then not (internal_v4 (g / 256) (g % 256) (h / 256) (h % 256))
    else if low_96 a b c d e && (f == 0 && (g == 0 && (h == 1 || h == 0)))
    then false
    else if low_96 a b c d e && (f == 0 || f == 0xffff)
    then false
    else global_segment a

module _ ⦃N : Parsers⦄ where
  abbrev host_ok : String → Bool
  host_ok host_raw = elim (N.parse_ip (trim_end b']' (trim_start b'[' host_raw))) [
    | some ip ↦ literal_ok ip
    | none ↦ true
  ]

  abbrev url_ok : Bool → Url → Bool
  url_ok allow_loopback url =
      (str_eq url.scheme "http" || str_eq url.scheme "https")
      && elim url.host_str [ none ↦ false | some host_raw ↦ allow_loopback || host_ok host_raw ]

  unfoldable pub ingress_addr_ok : String → Bool → Bool
  unfolding trim_start trim_end literal_ok
  ingress_addr_ok addr allow_loopback = elim (N.parse_url addr) [
    | none ↦ false
    | some url ↦ url_ok allow_loopback url
  ]
