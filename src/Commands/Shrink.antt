-- ===== src/Commands/Shrink.antt =====
-- `program_shrink` confuses bytes with commands.
use kaby_lake_cache_c.Base.{ℕ, ◌*◌, some, ltb, if◌then◌else◌}
use kaby_lake_cache_c.Commands.{Command, Program}

-- The program after `program_shrink`: the block has space for `n` commands, and `allocated` is the
-- number of its bytes.
abbrev shrunk : (ℕ → Command) → Program → (fresh : ℕ → Command) → (n : ℕ) → Program
shrunk l p fresh n = record p {
  listing = some (λ i. if ltb i p.room then l i else fresh i);
  allocated = n * 32;
  room = n;
}
