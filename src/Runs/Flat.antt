-- ===== src/Runs/Flat.antt =====
-- The commands of a program on a memory without caches, and the run of test-cache.c beside it.
use kaby_lake_cache_c.Base.{
  ◌⊎◌, ℕ, zero, suc, ◌+◌, ◌%◌, ◌^◌, ◌<◌, ◌≡◌, refl, ◌∙◌, ap, sym, subst, true, some, ◌==◌,
  Bool-cases, inl, inr,
}
use kaby_lake_cache_c.Outcome.{err_none, Outcome, returned}
use kaby_lake_cache_c.Addr.{PhyAddr, phy_addr_to_uint32}
use kaby_lake_cache_c.Addr.Fields.{IsVirtAddr, IsPhyAddr}
use kaby_lake_cache_c.Memory.{Memory, IsMemory}
use kaby_lake_cache_c.Memory.Print.{zero_paddr}
use kaby_lake_cache_c.PageWalk.{page_walk}
use kaby_lake_cache_c.PageWalk.Leaf.{page_walk-arrive}
use kaby_lake_cache_c.TlbHrchy.{MemAccess, instruction, access_data}
use kaby_lake_cache_c.TlbHrchy.Coherence.{walk-IsPage}
use kaby_lake_cache_c.Cache.{l1_dcache, Line, CacheEntry, Cache, load_line}
use kaby_lake_cache_c.Cache.Bytes.{cache_read_byte}
use kaby_lake_cache_c.Cache.Read.{Caches}
use kaby_lake_cache_c.Cache.Sound.{IsSound}
use kaby_lake_cache_c.Cache.Sound.Reads.{cache_read-SoundRead, cache_read-Returns}
use kaby_lake_cache_c.Cache.Sound.Store.{put_word, put_word-IsMemory}
use kaby_lake_cache_c.Cache.Sound.Writes.{cache_write-SoundWrite}
use kaby_lake_cache_c.Cache.Transparent.{IsEmpty, read_call}
use kaby_lake_cache_c.Commands.{Command, CommandWord, order_read, order_write}
use kaby_lake_cache_c.Runs.CacheRun.{
  System, Surroundings, Executed, done, l1_of, with_l1, and_then, execute_read, execute_write,
  execute_command, run_lines, show_caches,
}

abbrev flat_at : Outcome PhyAddr → Command → Memory → Memory
flat_at (returned err_none p) c mem = elim c.order [
  | order_read ↦ mem
  | order_write ↦ put_word mem (phy_addr_to_uint32 (some p)) c.write_data
]
flat_at _ c mem = mem

-- A command on the memory alone.
abbrev pub flat_command : Command → Memory → Memory
flat_command c mem = flat_at (page_walk (some mem) (some c.vaddr) (some zero_paddr)) c mem

abbrev pub flat_lines : (listing : ℕ → Command) → (left i : ℕ) → Memory → Memory
flat_lines listing zero i mem = mem
flat_lines listing (suc left) i mem = flat_lines listing left (i + 1) (flat_command (listing i) mem)

-- The command has a well-formed address, which the page tables of this memory translate to the begin
-- of a line of memory, and what it writes is a word.
pub record Fits (mem : Memory) (c : Command) : Type 0 where
  pub vaddr : IsVirtAddr c.vaddr
  pub value : c.write_data < 2 ^ 32
  pub size : c.order ≡ order_write → c.data_size ≡ 4
  pub paddr : PhyAddr
  pub found : page_walk (some mem) (some c.vaddr) (some zero_paddr) ≡ returned err_none paddr
  pub begin : phy_addr_to_uint32 (some paddr) % 16 ≡ 0
  pub line : Line
  pub there : load_line mem (phy_addr_to_uint32 (some paddr)) ≡ some line

-- Each command fits the memory that the commands before it leave.
abbrev pub AllFit : (listing : ℕ → Command) → (left i : ℕ) → Memory → Type 0
AllFit listing zero i mem = Unit {0}
AllFit listing (suc left) i mem =
    Fits mem (listing i) × AllFit listing left (i + 1) (flat_command (listing i) mem)

-- The machine has memory for every allocation, and a cache entry keeps its valid bit when it is read
-- as one of the other level.
pub record IsGenerous (a : Surroundings) : Type 0 where
  pub reads : a.reads.malloc ≡ true
  pub writes : (i : ℕ) → a.writes.malloc i ≡ true
  pub as_l1 : (e : CacheEntry) → (a.writes.as_l1 e).v ≡ e.v
  pub as_l2 : (e : CacheEntry) → (a.writes.as_l2 e).v ≡ e.v
  pub cell : ℕ
  pub cell_given : a.cell ≡ some cell

pub record IsSoundSystem (s : System) : Type 0 where
  pub bytes : IsMemory s.mem
  pub dcache : IsSound s.mem l1_dcache s.dcache
  pub l2 : IsEmpty s.l2

-- The run goes on in a sound system with this memory.
abbrev pub Ran : Memory → Executed → Type 0
Ran mem r = (s : System) × (r ≡ done s) × (s.mem ≡ mem) × IsSoundSystem s

with_l1-mem : (type : MemAccess) (l1 l2 : Cache) (s : System) → (with_l1 type l1 l2 s).mem ≡ s.mem
with_l1-mem instruction l1 l2 s = refl
with_l1-mem access_data l1 l2 s = refl

-- One command at a translated address, on each order.
module _ (c : Command) (around : Surroundings) (generous : IsGenerous around) (s : System)
    (sound : IsSoundSystem s) (p : PhyAddr) (hp : IsPhyAddr p)
    (begin : phy_addr_to_uint32 (some p) % 16 ≡ 0) (line : Line)
    (there : load_line s.mem (phy_addr_to_uint32 (some p)) ≡ some line) where
  abbrev caches : MemAccess → (word : ℕ) → Caches
  caches type word = record { l1 = l1_of type s; l2 = s.l2; word = word }

  read_word :
      (type : MemAccess) (word : ℕ)
      → (t : Caches) × (read_call s.mem p type around.reads (caches type word)
          ≡ returned err_none t)
        × IsSoundSystem (with_l1 type t.l1 t.l2 s)
  read_word instruction word =
      let (t, e, empty) =
        cache_read-Returns s.mem instruction around.reads (caches instruction word) p line
          generous.reads hp sound.l2 begin there in
      (t, e, record { bytes = sound.bytes; dcache = sound.dcache; l2 = empty })
  read_word access_data word =
      let (t, e, _, kept, empty) =
        cache_read-SoundRead s.mem access_data around.reads (caches access_data word) p line
          generous.reads hp sound.dcache sound.l2 begin there in
      (t, e, record { bytes = sound.bytes; dcache = kept; l2 = empty })

  execute_read-Ran : Ran s.mem (execute_read c around p s)
  unfolding execute_read
  execute_read-Ran = elim (Bool-cases (c.data_size == 4)) [
    | inl whole ↦
        let (t, e, kept) = read_word c.type around.word in
        rw (whole, e) (_, refl, with_l1-mem c.type t.l1 t.l2 s, kept)
    | inr part ↦
        let (t, e, kept) = read_word c.type generous.cell in
        rw part (
          unfold cache_read_byte in
          rw (generous.cell_given, e) (_, refl, with_l1-mem c.type t.l1 t.l2 s, kept))
  ]

  execute_write-Ran :
      c.write_data < 2 ^ 32
      → c.data_size ≡ 4
      → Ran (put_word s.mem (phy_addr_to_uint32 (some p)) c.write_data) (execute_write c around p s)
  unfolding execute_write
  execute_write-Ran value size =
      let addr = phy_addr_to_uint32 (some p) in
      let (w, e, changed, kept, empty) =
        cache_write-SoundWrite s.mem sound.bytes p hp around.writes generous.writes generous.as_l1
          generous.as_l2 s.dcache s.l2 line c.write_data sound.dcache sound.l2 value begin there in
      rw (size, e)
        (
          _,
          refl,
          changed,
          record {
            bytes =
                subst IsMemory (sym changed)
                  (put_word-IsMemory s.mem addr c.write_data sound.bytes);
            dcache = subst (λ x. IsSound x l1_dcache w.l1) (sym changed) kept;
            l2 = empty;
          },
        )

CommandWord-cases : (o : CommandWord) → (o ≡ order_read) ⊎ (o ≡ order_write)
CommandWord-cases order_read = inl refl
CommandWord-cases order_write = inr refl

-- One command of `execute_command` is the command on the memory alone.
execute_command-Ran :
    (c : Command) (around : Surroundings) (s : System)
    → IsGenerous around
    → IsSoundSystem s
    → Fits s.mem c
    → Ran (flat_command c s.mem) (execute_command c around s)
unfolding execute_command
execute_command-Ran c around s generous sound fit =
    let same : page_walk (some s.mem) (some c.vaddr) (some around.paddr)
        ≡ returned err_none fit.paddr =
      page_walk-arrive s.mem sound.bytes c.vaddr around.paddr fit.vaddr.offset
      ∙ sym (page_walk-arrive s.mem sound.bytes c.vaddr zero_paddr fit.vaddr.offset)
      ∙ fit.found in
    let hp = (walk-IsPage s.mem sound.bytes c.vaddr fit.vaddr zero_paddr fit.paddr fit.found).0 in
    elim (CommandWord-cases c.order) [
      | inl read ↦
          rw (same, fit.found, read)
            (execute_read-Ran c around generous s sound fit.paddr hp fit.begin fit.line fit.there)
      | inr write ↦
          rw (same, fit.found, write)
            (execute_write-Ran c around generous s sound fit.paddr hp fit.begin fit.line fit.there
              fit.value (fit.size write))
    ]

-- The output of the loop changes no cache.
shown_mem : (s : System) → (show_caches s).mem ≡ s.mem
unfolding show_caches
shown_mem s = refl

shown_sound : (s : System) → IsSoundSystem s → IsSoundSystem (show_caches s)
unfolding show_caches
shown_sound s sound = record { bytes = sound.bytes; dcache = sound.dcache; l2 = sound.l2 }

shown_fit :
    (listing : ℕ → Command) (left i : ℕ) (s : System) {mem : Memory}
    → s.mem ≡ mem
    → AllFit listing left i mem
    → AllFit listing left i (show_caches s).mem
shown_fit listing left i s same fit =
    subst (AllFit listing left i) (sym same ∙ sym (shown_mem s)) fit

-- For a machine that has memory for every allocation, from a memory of bytes, a level-1 data cache
-- that is sound for it and an empty level-2 cache: the loop of test-cache.c over lines whose
-- addresses are well-formed and are translated, when their turn comes, to begins of lines of
-- memory, and whose writes are of words, goes through all of them, and leaves the memory that the
-- commands make without caches, a level-1 data cache that is sound for it, and an empty level-2
-- cache.
pub run_lines-Ran :
    (listing : ℕ → Command) (around : ℕ → Surroundings)
    → ((i : ℕ) → IsGenerous (around i))
    → (left i : ℕ) (s : System) → IsSoundSystem s
    → AllFit listing left i s.mem
    → Ran (flat_lines listing left i s.mem) (run_lines listing around left i s)
unfolding run_lines
run_lines-Ran listing around generous zero i s sound fit = (s, refl, refl, sound)
run_lines-Ran listing around generous (suc left) i s sound (fit, rest) =
    let (s', e, mem, sound') =
      execute_command-Ran (listing i) (around i) s (generous i) sound fit in
    let (s2, e2, mem2, sound2) =
      run_lines-Ran listing around generous left (i + 1) (show_caches s') (shown_sound s' sound')
        (shown_fit listing left (i + 1) s' mem rest) in
    (
      s2,
      ap (λ r. and_then r λ t. run_lines listing around left (i + 1) (show_caches t)) e ∙ e2,
      mem2 ∙ ap (flat_lines listing left (i + 1)) (shown_mem s' ∙ mem),
      sound2,
    )
