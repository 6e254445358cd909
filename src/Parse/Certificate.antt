-- ===== src/Parse/Certificate.antt =====
-- What internal/parse/chain.go reads of an x509.Certificate, and what checking a signature under
-- its key costs. A `*x509.Certificate` is an address into `World.certificate`: the code compares
-- addresses and never writes through one.
use dtp_discovery_agent.Common.{
  ℤ, pos, negsuc, ℕ, zero, suc, ◌+◌, ◌*◌, ◌/◌, ◌%◌, String, ◌≡◌, refl, Bool, not, ◌||◌, max, ◌==◌,
}

pub data PublicKey : Type 0 where
  rsa : ℕ → ℤ → PublicKey  -- N.BitLen() and E
  ecdsa : ℕ → PublicKey  -- Curve.Params().BitSize
  ed25519 : PublicKey
  other : PublicKey

pub record Certificate : Type 0 where
  pub raw : String
  pub raw_subject : String
  pub raw_issuer : String
  pub is_ca : Bool
  pub basic_constraints_valid : Bool
  pub not_before : ℕ
  pub not_after : ℕ
  pub public_key : PublicKey

-- What the walk takes from outside: the parsed certificates by address, whether the context is
-- cancelled when it is asked for the n-th time, and x509's CheckSignature of issuer and child.
pub record World : Type 0 where
  pub certificate : ℕ → Certificate
  pub cancelled : ℕ → Bool
  pub check_signature : ℕ → ℕ → Bool

-- max(e, 0), as a uint
abbrev at_least_zero : ℤ → ℕ
at_least_zero (pos n) = n
at_least_zero (negsuc n) = 0

-- bits.Len of a number below 2 ^ fuel
bits_len : ℕ → ℕ → ℕ
bits_len zero n = 0
bits_len (suc fuel) n = elim (n == 0) [ Bool.true ↦ 0 | Bool.false ↦ suc (bits_len fuel (n / 2)) ]

-- bits.OnesCount of a number below 2 ^ fuel
ones_count : ℕ → ℕ → ℕ
ones_count zero n = 0
ones_count (suc fuel) n = n % 2 + ones_count fuel (n / 2)

-- a uint has 64 bits
abbrev uint_bits : ℕ
uint_bits = 64

rsa_cost : ℕ → ℤ → ℕ
unfolding bits_len ones_count
rsa_cost bit_len exponent =
    let k = (bit_len + 1023) / 1024 in
    let e = at_least_zero exponent in
    let steps = (bits_len uint_bits e + ones_count uint_bits e + 18) / 19 in
    max 1 (k * k * k / 8) * max 1 steps

ecdsa_cost : ℕ → ℕ
ecdsa_cost bit_size = elim (bit_size == 256) [
  | Bool.true ↦ 3
  | Bool.false ↦ elim (bit_size == 384) [ Bool.true ↦ 12 | Bool.false ↦ 60 ]
]

unfoldable pub verify_cost : PublicKey → ℕ
unfolding rsa_cost ecdsa_cost
verify_cost (rsa bit_len exponent) = rsa_cost bit_len exponent
verify_cost (ecdsa bit_size) = ecdsa_cost bit_size
verify_cost ed25519 = 2
verify_cost other = 1

unfoldable pub may_issue : Certificate → Bool
may_issue cert = not cert.basic_constraints_valid || cert.is_ca

-- The usual keys: RSA-2048 with 65537 is the unit, RSA-4096 is eight of them.
verify_cost_usual :
    (verify_cost (rsa 2048 (pos 65537)) ≡ 1) × (verify_cost (rsa 4096 (pos 65537)) ≡ 8)
unfolding verify_cost
verify_cost_usual = (refl, refl)
