-- ===== src/Broker/Address/Policy.antt =====
-- crates/lluma-broker/src/registry.rs: which IP literals a host may not advertise.
use lluma.Common.{ℕ, ◌+◌, ◌*◌, ◌<◌, ◌≤◌, ◌≡◌, ◌⊎◌, ◌↔◌, false, arith, IsByte}
use lluma.Broker.Address.{v4, v6, literal_ok}

-- An IPv4 address as a number, and the blocks that are internal: 127.0.0.0/8, 10.0.0.0/8,
-- 172.16.0.0/12, 192.168.0.0/16, 169.254.0.0/16 and 0.0.0.0.
abbrev pub v4_number : ℕ → ℕ → ℕ → ℕ → ℕ
v4_number a b c d = 16777216 * a + 65536 * b + 256 * c + d

abbrev pub InBlock : ℕ → ℕ → ℕ → Type 0
InBlock first size n = (first ≤ n) × (n < first + size)

abbrev pub IsInternal : ℕ → Type 0
IsInternal n =
    InBlock 2130706432 16777216 n
    ⊎ InBlock 167772160 16777216 n
    ⊎ InBlock 2886729728 1048576 n
    ⊎ InBlock 3232235520 65536 n
    ⊎ InBlock 2851995648 65536 n
    ⊎ (n ≡ 0)

-- An IPv4 literal is refused exactly if it lies in one of the internal blocks.
pub literal_ok-v4 :
    (a b c d : ℕ)
    → IsByte a
    → IsByte b
    → IsByte c
    → IsByte d
    → (literal_ok (v4 a b c d) ≡ false) ↔ IsInternal (v4_number a b c d)
unfolding literal_ok
literal_ok-v4 a b c d ha hb hc hd = (λ h. ground arith, λ h. ground arith)

-- No spelling as an IPv6 literal gets an internal IPv4 address accepted: neither the mapped form
-- ::ffff:a.b.c.d nor the compatible form ::a.b.c.d.
pub literal_ok-embedded :
    (f g h : ℕ)
    → (f ≡ 0) ⊎ (f ≡ 65535)
    → IsInternal (65536 * g + h)
    → g < 65536
    → h < 65536
    → literal_ok (v6 0 0 0 0 0 f g h) ≡ false
unfolding literal_ok
literal_ok-embedded f g h form inside hg hh = ground arith
