-- ===== src/Config/PublicIp.antt =====
-- parsePublicIPv4 of internal/config/config.go.
use homebrain.Prelude.{
  ℕ, ◌+◌, ◌-◌, ◌*◌, ◌/◌, ◌^◌, ◌≤◌, ◌<◌, Bool, false, ◌||◌, Option, none, some, List, [], ◌∷◌, ◌≡◌,
  ◌≢◌, ◌⊎◌, arith, ◌==◌, if◌then◌else◌, is_empty, not, ◌&&◌, ◌↔◌, inl, inr, Option-cases,
}
use homebrain.Text.{Text, codes, split}
use homebrain.Text.Number.{parse_uint, parse_uint_iff}

pub record Address : Type 0 where
  pub a : ℕ
  pub b : ℕ
  pub c : ℕ
  pub d : ℕ

-- A field of netip.ParseAddr: up to 255, with no leading zero.
octet : Text → Option ℕ
octet [] = none
octet (x ∷ s) = if x == b'0' && not (is_empty s) then none else parse_uint (x ∷ s) 8

octets : Option ℕ → Option ℕ → Option ℕ → Option ℕ → Option Address
octets (some a) (some b) (some c) (some d) = some (record { a = a; b = b; c = c; d = d })
octets _ _ _ _ = none

parse_fields : List Text → Option Address
unfolding octet octets
parse_fields (a ∷ b ∷ c ∷ d ∷ []) = octets (octet a) (octet b) (octet c) (octet d)
parse_fields _ = none

-- netip.ParseAddr, where it answers with an address that Is4.
unfoldable pub parse_ipv4 : Text → Option Address
unfolding parse_fields
parse_ipv4 raw = parse_fields (split raw (codes "."))

abbrev number : Address → ℕ
number x = ((x.a * 256 + x.b) * 256 + x.c) * 256 + x.d

abbrev address : ℕ → ℕ → ℕ → ℕ → Address
address a b c d = record { a = a; b = b; c = c; d = d }

-- netip.Prefix.Contains: the addresses agree in their first bits.
abbrev contains : Address → ℕ → Address → Bool
contains base bits x = number x / 2 ^ (32 - bits) == number base / 2 ^ (32 - bits)

-- nonPublicIPv4Prefixes
unfoldable pub is_non_public : Address → Bool
is_non_public x =
    contains (address 0 0 0 0) 8 x
    || contains (address 10 0 0 0) 8 x
    || contains (address 100 64 0 0) 10 x
    || contains (address 127 0 0 0) 8 x
    || contains (address 169 254 0 0) 16 x
    || contains (address 172 16 0 0) 12 x
    || contains (address 192 0 0 0) 24 x
    || contains (address 192 0 2 0) 24 x
    || contains (address 192 31 196 0) 24 x
    || contains (address 192 52 193 0) 24 x
    || contains (address 192 88 99 0) 24 x
    || contains (address 192 168 0 0) 16 x
    || contains (address 192 175 48 0) 24 x
    || contains (address 198 18 0 0) 15 x
    || contains (address 198 51 100 0) 24 x
    || contains (address 203 0 113 0) 24 x
    || contains (address 224 0 0 0) 4 x
    || contains (address 240 0 0 0) 4 x

-- parsePublicIPv4
unfoldable pub parse_public_ipv4 : Text → Option Address
unfolding parse_ipv4 is_non_public
parse_public_ipv4 raw = elim (parse_ipv4 raw) [
  | none ↦ none
  | some x ↦ if is_non_public x then none else some x
]

-- The four fields of an address fit in a byte.
abbrev pub IsBytes : Address → Type 0
IsBytes x = (x.a ≤ 255) × (x.b ≤ 255) × (x.c ≤ 255) × (x.d ≤ 255)

-- No address of the special blocks, said by the fields: this network, private networks, shared
-- space, loopback, link-local, benchmarks, documentation, multicast and reserved addresses.
pub record IsPublic (x : Address) : Type 0 where
  pub first : (x.a ≢ 0) × (x.a ≢ 10) × (x.a ≢ 127) × (x.a < 224)
  pub shared : x.a ≡ 100 → (x.b < 64) ⊎ (127 < x.b)
  pub link_local : x.a ≡ 169 → x.b ≢ 254
  pub private : x.a ≡ 172 → (x.b < 16) ⊎ (31 < x.b)
  pub home : x.a ≡ 192 → x.b ≢ 168
  pub benchmark : x.a ≡ 198 → (x.b ≢ 18) × (x.b ≢ 19)
  pub protocol : x.a ≡ 192 → x.b ≡ 0 → (x.c ≢ 0) × (x.c ≢ 2)
  pub relays : x.a ≡ 192 → (x.b ≡ 31 → x.c ≢ 196) × (x.b ≡ 52 → x.c ≢ 193)
  pub delegated : x.a ≡ 192 → (x.b ≡ 88 → x.c ≢ 99) × (x.b ≡ 175 → x.c ≢ 48)
  pub documentation : (x.a ≡ 198 → x.b ≡ 51 → x.c ≢ 100) × (x.a ≡ 203 → x.b ≡ 0 → x.c ≢ 113)

module _ (x : Address) (fits : IsBytes x) where
  is_non_public-IsPublic : is_non_public x ≡ false → IsPublic x
  unfolding is_non_public
  is_non_public-IsPublic h = record {
    first = ground arith;
    shared = ground arith;
    link_local = ground arith;
    private = ground arith;
    home = ground arith;
    benchmark = ground arith;
    protocol = ground arith;
    relays = ground arith;
    delegated = ground arith;
    documentation = ground arith;
  }

  IsPublic-is_non_public : IsPublic x → is_non_public x ≡ false
  unfolding is_non_public
  IsPublic-is_non_public h = ground arith

parse_uint_byte : (s : Text) (n : ℕ) → parse_uint s 8 ≡ some n → n ≤ 255
parse_uint_byte s n h =
    let (digits, all, e, bound) = (parse_uint_iff s 8 n).0 h in omega (arith, e, bound)

octet-byte : (s : Text) (n : ℕ) → octet s ≡ some n → n ≤ 255
unfolding octet
octet-byte [] n h = absurd (ground arith)
octet-byte (c ∷ s) n h = ground (arith, parse_uint_byte (c ∷ s) n)

octets-some :
    (p q r s : Option ℕ) (x : Address)
    → octets p q r s ≡ some x
    → (p ≡ some x.a) × (q ≡ some x.b) × (r ≡ some x.c) × (s ≡ some x.d)
unfolding octets
octets-some (some a) (some b) (some c) (some d) x h = ground arith
octets-some none q r s x h = absurd (ground arith)
octets-some (some a) none r s x h = absurd (ground arith)
octets-some (some a) (some b) none s x h = absurd (ground arith)
octets-some (some a) (some b) (some c) none x h = absurd (ground arith)

parse_fields-IsBytes : (fs : List Text) (x : Address) → parse_fields fs ≡ some x → IsBytes x
unfolding parse_fields
parse_fields-IsBytes (a ∷ b ∷ c ∷ d ∷ []) x h =
    let (p, q, r, s) = octets-some (octet a) (octet b) (octet c) (octet d) x h in
    (octet-byte a x.a p, octet-byte b x.b q, octet-byte c x.c r, octet-byte d x.d s)
parse_fields-IsBytes [] x h = absurd (ground arith)
parse_fields-IsBytes (a ∷ []) x h = absurd (ground arith)
parse_fields-IsBytes (a ∷ b ∷ []) x h = absurd (ground arith)
parse_fields-IsBytes (a ∷ b ∷ c ∷ []) x h = absurd (ground arith)
parse_fields-IsBytes (a ∷ b ∷ c ∷ d ∷ e ∷ more) x h = absurd (ground arith)

parse_ipv4-IsBytes : (raw : Text) (x : Address) → parse_ipv4 raw ≡ some x → IsBytes x
unfolding parse_ipv4
parse_ipv4-IsBytes raw x h = parse_fields-IsBytes (split raw (codes ".")) x h

-- parsePublicIPv4 answers with an address exactly if the text is that IPv4 address and the address
-- is in none of the special blocks.
pub parse_public_ipv4_iff :
    (raw : Text) (x : Address)
    → (parse_public_ipv4 raw ≡ some x) ↔ ((parse_ipv4 raw ≡ some x) × IsPublic x)
unfolding parse_public_ipv4
parse_public_ipv4_iff raw x = elim (Option-cases (parse_ipv4 raw)) [
  | inl e ↦ (λ h. absurd (ground arith), λ (p, h). absurd (ground arith))
  | inr (y, e) ↦
      let fits = parse_ipv4-IsBytes raw y e in
      (
        λ h. (ground arith, ground (arith, is_non_public-IsPublic y fits)),
        λ (p, h). ground (arith, IsPublic-is_non_public x, parse_ipv4-IsBytes raw x p),
      )
]
