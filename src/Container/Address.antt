-- ===== src/Container/Address.antt =====
-- util.go: the addresses of containers. `util.ContainerNet` is a global whose four bytes every address
-- shares, so they are a state that a call changes, and the address is read from it.
use konk.Base.{
  ℕ, ◌-◌, ◌%◌, ◌≤◌, ◌≡◌, ℤ, pos, negsuc, succ_ℤ, ltb_ℤ, Option, none, some, if◌then◌else◌, arith,
  ◌⊎◌, ◌≢◌, dec_lt, ℕ_discrete, inl, inr, ◌^◌, ◌<◌, ◌+◌,
}
use konk.Container.Types.{Rank}

pub record Ip : Type 0 where
  pub byte_0 : ℕ
  pub byte_1 : ℕ
  pub byte_2 : ℕ
  pub byte_3 : ℕ

abbrev pub container_net : Ip
container_net = record { byte_0 = 172; byte_1 = 16; byte_2 = 0; byte_3 = 0 }

-- `byte(n)`: the residue modulo 2^8.
abbrev pub byte : ℤ → ℕ
byte (pos n) = n % 2 ^ 8
byte (negsuc n) = 255 - n % 2 ^ 8

-- `none` is the panic for a rank that is too high.
unfoldable pub create_container_addr : Rank → Ip → Option Ip
create_container_addr rank base =
    if ltb_ℤ (pos 253) rank
    then none
    else some (record base { byte_2 = 1; byte_3 = byte (succ_ℤ rank) })

-- A rank up to 253 that is not negative has an address, whose last byte is neither that of the
-- network nor that of the broadcast; a higher rank has none. Two ranks with one address are the same,
-- whatever calls came before.
pub create_container_addr_lem :
    (r s : ℕ) (base base' : Ip)
    → ((253 < r) × (create_container_addr (pos r) base ≡ none))
      ⊎ ((a : Ip) × (create_container_addr (pos r) base ≡ some a)
          × (1 ≤ a.byte_3)
          × (a.byte_3 ≤ 254)
          × ((r ≡ s) ⊎ (create_container_addr (pos s) base' ≢ some a)))
unfolding create_container_addr
create_container_addr_lem r s base base' = elim (dec_lt 253 r) [
  | yes h ↦ inl (h, ground arith)
  | no h ↦ inr (
    record base { byte_2 = 1; byte_3 = (r + 1) % 2 ^ 8 },
    ground arith,
    omega arith,
    omega arith,
    elim (ℕ_discrete r s) [ yes e ↦ inl e | no ne ↦ inr (λ f. ground arith) ],
  )
]
