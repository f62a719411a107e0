-- ===== src/Outcome.antt =====
-- Error codes (error.h) and what a call comes to. A pointer argument is an `Option`, with `none` for
-- NULL. The guards M_REQUIRE and M_REQUIRE_NON_NULL are steps of a `do` block.
use kaby_lake_cache_c.Base.{ℕ, Bool, true, false, Option, none, some, get_elem?}
use mathlib.Core.List.{List, [], ◌∷◌}

pub data ErrorCode : Type 0 where
  err_none err_mem err_io err_bad_parameter err_eof err_addr err_size err_policy err_last :
      ErrorCode

-- The number that C gives an enumerator of `error_code`.
unfoldable pub code_number : ErrorCode → ℕ
code_number err_none = 0
code_number err_mem = 1
code_number err_io = 2
code_number err_bad_parameter = 3
code_number err_eof = 4
code_number err_addr = 5
code_number err_size = 6
code_number err_policy = 7
code_number err_last = 8

-- The texts of ERR_MESSAGES (error.c).
pub data Message : Type 0 where
  no_text not_enough_memory io_error bad_parameter end_of_file wrong_address wrong_size not_found :
      Message
  no_error : Message

abbrev pub err_messages : List Message
err_messages =
    no_text ∷ not_enough_memory ∷ io_error ∷ bad_parameter ∷ end_of_file ∷ wrong_address
    ∷ wrong_size ∷ wrong_size ∷ not_found ∷ no_error ∷ []

-- ERR_MESSAGES[error_code - ERR_NONE], as M_EXIT_ERR and M_EXIT_ERR_NOMSG read it.
unfoldable pub message_of : ErrorCode → Option Message
unfolding code_number
message_of e = get_elem? err_messages (code_number e)

-- A call returns a code and leaves `s` in the objects that it was given, or refuses its arguments
-- with a code and has written nothing, or does what C leaves undefined.
pub data Outcome (S : Type 0) : Type 0 where
  returned : ErrorCode → S → Outcome S
  refused : ErrorCode → Outcome S
  fault : Outcome S

pub data Guard : Type 0 where
  pass : Guard
  stop : ErrorCode → Guard

-- M_REQUIRE(test, code, …)
abbrev pub require : Bool → ErrorCode → Guard
require true e = pass
require false e = stop e

infixl 5 ◌>>=◌ ◌>>◌
-- M_REQUIRE_NON_NULL: the pointer's object is bound.
abbrev pub ◌>>=◌ : {A S : Type 0} → Option A → (A → Outcome S) → Outcome S
none >>= k = refused err_bad_parameter
some a >>= k = k a

abbrev pub ◌>>◌ : {S : Type 0} → Guard → Outcome S → Outcome S
pass >> k = k
stop e >> k = refused e
