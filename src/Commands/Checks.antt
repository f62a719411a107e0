-- ===== src/Commands/Checks.antt =====
-- What the checks of `program_add_command` accept.
use kaby_lake_cache_c.Base.{ℕ, ◌%◌, ◌<◌, ◌≡◌, ◌⊎◌, inl, inr, arith, ◌≢◌, ℕ_discrete, dec_lt}
use kaby_lake_cache_c.Outcome.{err_bad_parameter, Outcome, refused}
use kaby_lake_cache_c.TlbHrchy.{MemAccess, instruction, access_data}
use kaby_lake_cache_c.Commands.{CommandWord, order_read, order_write, Command, Program, checked}

-- A read of an instruction, or of a word or a byte, carries no data; a write is of a word, or of a
-- byte that fits.
abbrev pub Allowed : CommandWord → MemAccess → (data_size write_data : ℕ) → Type 0
Allowed order_read instruction data_size write_data = write_data ≡ 0
Allowed order_read access_data data_size write_data =
    (write_data ≡ 0) × ((data_size ≡ 4) ⊎ (data_size ≡ 1))
Allowed order_write instruction data_size write_data = ⊥
Allowed order_write access_data data_size write_data =
    (data_size ≡ 4) ⊎ ((data_size ≡ 1) × (write_data < 256))

pub record IsCommand (c : Command) : Type 0 where
  pub aligned : c.vaddr.page_offset % 4 ≡ 0
  pub allowed : Allowed c.order c.type c.data_size c.write_data

Allowed-dec : (o : CommandWord) (t : MemAccess) (size w : ℕ) → Dec (Allowed o t size w)
Allowed-dec order_read instruction size w = ℕ_discrete w 0
Allowed-dec order_read access_data size w = elim (ℕ_discrete w 0) [
  | no ne ↦ no λ (e, _). ne e
  | yes e ↦ elim (ℕ_discrete size 4) [
    | yes four ↦ yes (e, inl four)
    | no ne4 ↦ elim (ℕ_discrete size 1) [
      | yes one ↦ yes (e, inr one)
      | no ne1 ↦ no λ (_, s). elim s [ inl f ↦ ne4 f | inr g ↦ ne1 g ]
    ]
  ]
]
Allowed-dec order_write instruction size w = no λ e. e
Allowed-dec order_write access_data size w = elim (ℕ_discrete size 4) [
  | yes four ↦ yes (inl four)
  | no ne4 ↦ elim (ℕ_discrete size 1) [
    | no ne1 ↦ no λ s. elim s [ inl f ↦ ne4 f | inr (g, _) ↦ ne1 g ]
    | yes one ↦ elim (dec_lt w 256) [
      | yes small ↦ yes (inr (one, small))
      | no large ↦ no λ s. elim s [ inl f ↦ ne4 f | inr (_, l) ↦ large l ]
    ]
  ]
]

pub checked-Allowed :
    (o : CommandWord) (t : MemAccess) (size w offset : ℕ) (rest : Outcome Program)
    → offset % 4 ≡ 0
    → Allowed o t size w
    → checked o t size w offset rest ≡ rest
unfolding checked
checked-Allowed order_read instruction size w offset rest e g = ground (arith, e, g)
checked-Allowed order_read access_data size w offset rest e (h, inl g) = ground (arith, e, g, h)
checked-Allowed order_read access_data size w offset rest e (h, inr g) = ground (arith, e, g, h)
checked-Allowed order_write instruction size w offset rest e g = elim g [ ]
checked-Allowed order_write access_data size w offset rest e (inl g) = ground (arith, e, g)
checked-Allowed order_write access_data size w offset rest e (inr (g, h)) = ground (arith, e, g, h)

refused_unless :
    (o : CommandWord) (t : MemAccess) (size w offset : ℕ) (rest : Outcome Program)
    → ¬ (Allowed o t size w)
    → checked o t size w offset rest ≡ refused err_bad_parameter
unfolding checked
refused_unless order_read instruction size w offset rest bad = ground (arith, bad)
refused_unless order_read access_data size w offset rest bad = elim (ℕ_discrete w 0) [
  | no ne ↦ ground (arith, ne)
  | yes e ↦
      let ne4 : size ≢ 4 = λ h. bad (e, inl h) in
      let ne1 : size ≢ 1 = λ h. bad (e, inr h) in ground (arith, e, ne4, ne1)
]
refused_unless order_write instruction size w offset rest bad = ground arith
refused_unless order_write access_data size w offset rest bad = elim (ℕ_discrete size 1) [
  | no ne1 ↦ let ne4 : size ≢ 4 = λ h. bad (inl h) in ground (arith, ne1, ne4)
  | yes one ↦ let large : ¬ (w < 256) = λ h. bad (inr (one, h)) in ground (arith, one, large)
]

refused_skew :
    (o : CommandWord) (t : MemAccess) (size w offset : ℕ) (rest : Outcome Program)
    → ¬ (offset % 4 ≡ 0)
    → checked o t size w offset rest ≡ refused err_bad_parameter
unfolding checked
refused_skew o t size w offset rest bad = ground arith

pub checked-cases :
    (o : CommandWord) (t : MemAccess) (size w offset : ℕ) (rest : Outcome Program)
    → ((offset % 4 ≡ 0) × Allowed o t size w × (checked o t size w offset rest ≡ rest))
      ⊎ (¬ ((offset % 4 ≡ 0) × Allowed o t size w)
          × (checked o t size w offset rest ≡ refused err_bad_parameter))
unfolding checked
checked-cases o t size w offset rest = elim (ℕ_discrete (offset % 4) 0) [
  | no skew ↦ inr (λ (e, _). skew e, refused_skew o t size w offset rest skew)
  | yes e ↦ elim (Allowed-dec o t size w) [
    | yes good ↦ inl (e, good, checked-Allowed o t size w offset rest e good)
    | no bad ↦ inr (λ (_, g). bad g, refused_unless o t size w offset rest bad)
  ]
]
