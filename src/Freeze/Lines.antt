-- ===== src/Freeze/Lines.antt =====
-- `freeze_write` against a description that splits the buffer first.
use prl_tools.Base.{
  ℕ, zero, suc, ◌<◌, ◌≡◌, refl, List, [], ◌∷◌, Option, none, some, arith, ◌==◌, if◌then◌else◌,
  length, ℤ, pos, negsuc, ◌==ℤ◌, inl, inr, true, Option-cases,
}
use prl_tools.Freeze.{Kernel, State, newline, next_line, command, write_loop}
use prl_tools.Freeze.Balance.{length-next_line}

-- The lines up to the first NUL; there is always one, which may be empty.
abbrev pub cons_head : ℕ → List (List ℕ) → List (List ℕ)
cons_head c [] = (c ∷ []) ∷ []
cons_head c (l ∷ ls) = (c ∷ l) ∷ ls

pub lines : List ℕ → List (List ℕ)
lines [] = [] ∷ []
lines (c ∷ cs) =
    if c == 0 then [] ∷ [] else if c == newline then [] ∷ lines cs else cons_head c (lines cs)

abbrev rest_lines : Option (List ℕ) → List (List ℕ)
rest_lines none = []
rest_lines (some rest) = lines rest

lines-next_line : (buf : List ℕ) → lines buf ≡ (next_line buf).0 ∷ rest_lines (next_line buf).1
unfolding lines next_line
lines-next_line [] = refl
lines-next_line (c ∷ cs) = ground (arith, lines-next_line cs)

==ℤ-zero : (r : ℤ) → (r ==ℤ pos 0) ≡ true → r ≡ pos 0
==ℤ-zero (pos n) h = ground arith
==ℤ-zero (negsuc n) h = cc

module _ (k : Kernel) where
  -- The commands in order, up to the first that fails.
  pub commands : List (List ℕ) → State → ℤ × State
  commands [] s = (pos 0, s)
  commands (l ∷ ls) s =
      let (ret, s') = command k l s in
      let more = commands ls s' in if ret ==ℤ pos 0 then more else (ret, s')

  -- With more fuel than bytes the loop of freeze_write runs the commands of the lines up to the first
  -- NUL in order, up to the first that fails, and returns what that one or the last returned.
  pub write_loop-commands :
      (fuel : ℕ) (buf : List ℕ) (s : State)
      → length buf < fuel
      → write_loop k fuel buf s ≡ some (commands (lines buf) s)
  unfolding write_loop commands
  write_loop-commands zero buf s enough = absurd (omega arith)
  write_loop-commands (suc fuel) buf s enough = elim (Option-cases (next_line buf).1) [
    | inl last ↦ ground (arith, lines-next_line buf, ==ℤ-zero (command k (next_line buf).0 s).0)
    | inr (rest, more) ↦ ground (
      arith,
      lines-next_line buf,
      write_loop-commands fuel rest (command k (next_line buf).0 s).1
          (omega (arith, length-next_line buf rest more)),
    )
  ]
