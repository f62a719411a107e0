-- ===== src/TlbMng/Search.antt =====
-- `replacement_policy_t` of tlb_mng.h, and `tlb_hit` and `tlb_search` of tlb_mng.c: a look at the lines
-- in the order of the policy's list, then the page walk.
use kaby_lake_cache_c.Base.{
  ℕ, zero, suc, Bool, ◌&&◌, Option, none, some, ◌==◌, ltb, not_zero, if◌then◌else◌,
}
use kaby_lake_cache_c.Outcome.{
  err_none, err_mem, err_bad_parameter, code_number, Outcome, returned, refused, fault,
}
use kaby_lake_cache_c.Addr.{VirtAddr, PhyAddr, page_number}
use kaby_lake_cache_c.Memory.{Memory}
use kaby_lake_cache_c.PageWalk.{page_walk}
use kaby_lake_cache_c.Lists.{Ptr, LinkedList, load, ◌>>=◌}
use kaby_lake_cache_c.TlbMng.{tlb_lines, FullEntry, FullTlb, tlb_entry_init, tlb_insert}

-- The function pointers work on the list and on what `malloc` gives.
pub record ReplacementPolicy : Type 0 where
  pub ll : Option LinkedList
  pub push_back : Option LinkedList → ℕ → (malloc : Ptr) → Option (Ptr × Option LinkedList)
  pub move_back : Option LinkedList → (node malloc : Ptr) → Option (Option LinkedList)

-- The test of `tlb_hit` at a line.
abbrev pub matches : FullTlb → (page line : ℕ) → Bool
matches tlb page line = (tlb line).tag == page && not_zero (tlb line).v

-- The loop of `tlb_hit` from `node` on: the node that it stops at and its line. `none` outside is what
-- C leaves undefined, a node or a line that is not there; or the rounds do not suffice.
unfoldable pub find_node :
    (rounds : ℕ) → LinkedList → FullTlb → (page : ℕ) → (node : Ptr) → Option (Option (ℕ × ℕ))
find_node rounds l tlb page none = some none
find_node zero l tlb page (some at) = none
find_node (suc rounds) l tlb page (some at) = do
  n ← l.heap at
  let rest = find_node rounds l tlb page n.previous in
      if ltb n.value tlb_lines
      then (if matches tlb page n.value then some (some (at, n.value)) else rest)
      else none

-- What `tlb_hit` does with the node it found.
unfoldable pub on_found :
    VirtAddr
    → PhyAddr
    → FullTlb
    → ReplacementPolicy
    → (malloc : Ptr) → Option (ℕ × ℕ)
    → Option (ℕ × PhyAddr × ReplacementPolicy)
on_found vaddr paddr tlb policy malloc none = some (0, paddr, policy)
on_found vaddr paddr tlb policy malloc (some (at, line)) = do
  ll' ← policy.move_back policy.ll (some at) malloc
  some (
    1,
    record { phy_page_num = (tlb line).phy_page_num; page_offset = vaddr.page_offset },
    record policy { ll = ll' },
  )

-- `tlb_hit` past its NULL checks.
unfoldable pub probe :
    (rounds : ℕ)
    → VirtAddr
    → PhyAddr
    → FullTlb
    → ReplacementPolicy
    → (malloc : Ptr) → Option (ℕ × PhyAddr × ReplacementPolicy)
unfolding find_node on_found
probe rounds vaddr paddr tlb policy malloc = do
  l ← policy.ll
  found ← find_node rounds l tlb (page_number vaddr) l.back
  on_found vaddr paddr tlb policy malloc found

-- A NULL pointer is answered with the error code as an `int`.
unfoldable pub tlb_hit :
    (rounds : ℕ)
    → Option VirtAddr
    → Option PhyAddr
    → Option FullTlb
    → Option ReplacementPolicy
    → (malloc : Ptr) → Option (ℕ × Option PhyAddr × Option ReplacementPolicy)
unfolding probe
tlb_hit rounds (some vaddr) (some paddr) (some tlb) (some policy) malloc = do
  (hit, p, policy') ← probe rounds vaddr paddr tlb policy malloc
  some (hit, some p, some policy')
tlb_hit rounds _ paddr _ policy malloc = some (code_number err_bad_parameter, paddr, policy)

-- The objects that `tlb_search` writes through its pointers.
pub record Managed : Type 0 where
  pub paddr : PhyAddr
  pub tlb : FullTlb
  pub policy : ReplacementPolicy
  pub hit_or_miss : ℕ

-- What `malloc` gives to `tlb_search`: for the entry, memory with any contents, and for the node that
-- `move_back` may push.
pub record Allocated : Type 0 where
  pub entry : Option FullEntry
  pub node : Ptr

-- `move_back` of the front of the list.
unfoldable pub use_front : LinkedList → Allocated → Managed → Outcome Managed
use_front l given s = elim (s.policy.move_back (some l) l.front given.node) [
  | none ↦ fault
  | some ll' ↦ returned err_none (record s { policy = record s.policy { ll = ll' } })
]

-- What `tlb_search` does with the outcome of `tlb_insert`.
abbrev pub after_insert : Outcome FullTlb → LinkedList → Allocated → Managed → Outcome Managed
after_insert (returned err_none t) l given s = use_front l given (record s { tlb = t })
after_insert (returned _ t) l given s = returned err_mem (record s { tlb = t })
after_insert (refused _) l given s = returned err_mem s
after_insert fault l given s = fault

-- The list and the line of its front node.
abbrev pub front_line : Option LinkedList → Option (LinkedList × ℕ)
front_line ll = do l ← ll; n ← load l.heap l.front; some (l, n.value)

-- The entry goes to the line of the front node.
unfoldable pub replace : FullEntry → Allocated → Managed → Outcome Managed
unfolding tlb_insert use_front
replace e given s = elim (front_line s.policy.ll) [
  | none ↦ fault
  | some (l, line) ↦ after_insert (tlb_insert line (some e) (some s.tlb)) l given s
]

-- What `tlb_search` does with the outcome of `tlb_entry_init`.
abbrev pub after_init : Outcome FullEntry → Allocated → Managed → Outcome Managed
after_init (returned err_none e) given s = replace e given s
after_init (returned _ e) given s = returned err_mem s
after_init (refused _) given s = returned err_mem s
after_init fault given s = fault

-- The rest of a miss, once `page_walk` has set `s.paddr`.
unfoldable pub fill : VirtAddr → Allocated → Managed → Outcome Managed
unfolding tlb_entry_init
fill vaddr given s = elim given.entry [
  | none ↦ returned err_bad_parameter s
  | some e ↦ after_init (tlb_entry_init (some vaddr) (some s.paddr) (some e)) given s
]

-- What `tlb_search` does with the outcome of `page_walk`.
abbrev pub after_walk : Outcome PhyAddr → VirtAddr → Allocated → Managed → Outcome Managed
after_walk (returned err_none p) vaddr given s = fill vaddr given (record s { paddr = p })
after_walk (returned _ p) vaddr given s = returned err_mem (record s { paddr = p })
after_walk (refused _) vaddr given s = returned err_mem s
after_walk fault vaddr given s = fault

-- What `tlb_search` does with what `tlb_hit` comes to.
abbrev pub after_probe :
    Option (ℕ × PhyAddr × ReplacementPolicy)
    → Memory
    → VirtAddr
    → Allocated
    → Managed
    → Outcome Managed
after_probe none mem vaddr given s = fault
after_probe (some (hit, p, policy')) mem vaddr given s =
    let s1 = record s { paddr = p; policy = policy'; hit_or_miss = hit } in
    if not_zero hit
    then returned err_none s1
    else after_walk (page_walk (some mem) (some vaddr) (some p)) vaddr given s1

-- The body of `tlb_search`, past its NULL checks.
unfoldable pub search : (rounds : ℕ) → Memory → VirtAddr → Allocated → Managed → Outcome Managed
unfolding probe
search rounds mem vaddr given s =
    after_probe (probe rounds vaddr s.paddr s.tlb s.policy given.node) mem vaddr given s

unfoldable pub tlb_search :
    (rounds : ℕ)
    → Option Memory
    → Option VirtAddr
    → Option PhyAddr
    → Option FullTlb
    → Option ReplacementPolicy
    → Option ℕ
    → Allocated
    → Outcome Managed
unfolding search
tlb_search rounds (some mem) (some vaddr) (some p) (some t) (some r) (some h) given =
    search rounds mem vaddr given (record { paddr = p; tlb = t; policy = r; hit_or_miss = h })
tlb_search rounds _ _ _ _ _ _ _ = refused err_bad_parameter
