-- ===== src/Prelude/Exits.antt =====
-- Results of code that may end the process: `exit_cleanup` with a code of errcode.h is `exit`.

-- The exit codes that the modelled code uses, and `stuck`, which is no exit of the program: a loop of
-- the model ran out of its fuel.
pub data Exit : Type 0 where
  rerr_protocol rerr_fileio rerr_streamio rerr_unsupported rerr_messageio rerr_syntax stuck : Exit

pub data Result {ℓ} (A : Type ℓ) : Type ℓ where
  ok : A → Result A
  exit : Exit → Result A

-- A run that has ended stays ended; otherwise the next step takes the result.
infixl 5 ◌>>=◌
abbrev pub ◌>>=◌ {ℓ κ} : {A : Type ℓ} {B : Type κ} → Result A → (A → Result B) → Result B
exit code >>= next = exit code
ok result >>= next = next result
