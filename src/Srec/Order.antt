-- ===== src/Srec/Order.antt =====
-- The lines of a file one after the other.
use pugputer6309_emulator.Base.{
  ℕ, ◌+◌, ◌≡◌, refl, ap, ◌∙◌, inl, inr, none, some, List, [], ◌∷◌, ◌++◌, arith, length,
  Outcome-cases,
}
use pugputer6309_emulator.Srec.Load.{SrecLoadResult, Loaded, load_line, load_lines}

-- What a load does with more lines, after the lines that gave `r`.
abbrev pub resume : ℕ → ℕ → List (List ℕ) → SrecLoadResult → SrecLoadResult
resume mem_size line_no more r = elim r.error [
  | some e ↦ r
  | none ↦ load_lines mem_size line_no r.loaded more
]

-- A file in two parts: an error in the first part ends the load with that part's result, and
-- otherwise the second part is loaded on top of it, its line numbers following on.
pub load_lines-append :
    (mem_size line_no : ℕ) (l : Loaded) (first more : List (List ℕ))
    → load_lines mem_size line_no l (first ++ more)
      ≡ resume mem_size (line_no + length first) more (load_lines mem_size line_no l first)
unfolding load_lines
load_lines-append mem_size line_no l [] more = ap (λ n. load_lines mem_size n l more) (omega arith)
load_lines-append mem_size line_no l (line ∷ first) more =
    elim (Outcome-cases (load_line mem_size l line)) [
      | inr (l', e) ↦
          rw (e, load_lines)
            (load_lines-append mem_size (line_no + 1) l' first more
              ∙ ap (λ n. resume mem_size n more (load_lines mem_size (line_no + 1) l' first))
                  (omega arith))
      | inl (m, e) ↦ rw (e, load_lines) refl
    ]
