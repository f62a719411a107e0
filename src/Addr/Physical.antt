-- ===== src/Addr/Physical.antt =====
-- Physical addresses: `init_phy_addr` and the conversion to 32 bits.
use kaby_lake_cache_c.Base.{
  ℕ, ◌+◌, ◌/◌, ◌%◌, ◌^◌, ◌<◌, ◌≡◌, ◌⊎◌, inl, inr, some, arith, dec_lt, ℕ_discrete,
}
use kaby_lake_cache_c.Outcome.{err_none, err_bad_parameter, returned, refused}
use kaby_lake_cache_c.Addr.{PhyAddr, init_phy_addr, phy_addr_to_uint32}
use kaby_lake_cache_c.Addr.Fields.{IsPhyAddr, uint32-sum}

-- The address that `init_phy_addr` makes of arguments that it accepts.
abbrev pub located : ℕ → ℕ → PhyAddr
located page_begin offset = record { phy_page_num = page_begin / 4096; page_offset = offset }

abbrev pub Starts : ℕ → ℕ → Type 0
Starts page_begin offset = (offset < 4096) × (page_begin % 4096 ≡ 0)

pub init_phy_addr-located :
    (old : PhyAddr) (page_begin offset : ℕ)
    → page_begin < 2 ^ 32
    → Starts page_begin offset
    → init_phy_addr (some old) page_begin offset ≡ returned err_none (located page_begin offset)
unfolding init_phy_addr
init_phy_addr-located old page_begin offset small h = ground arith

pub init_phy_addr-refused :
    (old : PhyAddr) (page_begin offset : ℕ)
    → ¬ (Starts page_begin offset)
    → init_phy_addr (some old) page_begin offset ≡ refused err_bad_parameter
unfolding init_phy_addr
init_phy_addr-refused old page_begin offset h = ground arith

pub located-IsPhyAddr :
    (page_begin offset : ℕ)
    → page_begin < 2 ^ 32
    → Starts page_begin offset
    → IsPhyAddr (located page_begin offset)
located-IsPhyAddr page_begin offset small h = omega arith

pub uint32-located :
    (page_begin offset : ℕ)
    → page_begin < 2 ^ 32
    → Starts page_begin offset
    → phy_addr_to_uint32 (some (located page_begin offset)) ≡ page_begin + offset
uint32-located page_begin offset small h =
    omega
      (arith, uint32-sum (located page_begin offset) (located-IsPhyAddr page_begin offset small h))

-- For a 32-bit `page_begin`, `init_phy_addr` accepts exactly an offset inside a page and a begin that
-- is a multiple of the page size; then the fields fit and `phy_addr_t_to_uint32_t` is the sum of the
-- two. It refuses all other arguments with ERR_BAD_PARAMETER.
pub init_phy_addr_cases :
    (old : PhyAddr) (page_begin offset : ℕ)
    → page_begin < 2 ^ 32
    → (Starts page_begin offset
        × ((p : PhyAddr) × (init_phy_addr (some old) page_begin offset ≡ returned err_none p)
            × IsPhyAddr p
            × (phy_addr_to_uint32 (some p) ≡ page_begin + offset)))
      ⊎ (¬ (Starts page_begin offset)
          × (init_phy_addr (some old) page_begin offset ≡ refused err_bad_parameter))
init_phy_addr_cases old page_begin offset small = elim (dec_lt offset 4096) [
  | no big ↦
      let bad : ¬ (Starts page_begin offset) = λ s. big s.0 in
      inr (bad, init_phy_addr-refused old page_begin offset bad)
  | yes fits ↦ elim (ℕ_discrete (page_begin % 4096) 0) [
    | yes aligned ↦ inl (
      (fits, aligned),
      (
        located page_begin offset,
        init_phy_addr-located old page_begin offset small (fits, aligned),
        located-IsPhyAddr page_begin offset small (fits, aligned),
        uint32-located page_begin offset small (fits, aligned),
      ),
    )
    | no odd ↦
        let bad : ¬ (Starts page_begin offset) = λ s. odd s.1 in
        inr (bad, init_phy_addr-refused old page_begin offset bad)
  ]
]
