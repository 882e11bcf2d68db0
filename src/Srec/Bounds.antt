-- ===== src/Srec/Bounds.antt =====
-- Where `load_srec_file` writes.
use mathlib.Core.Path.{subst}
use pugputer6309_emulator.Base.{
  ℕ, zero, suc, ◌+◌, ◌-◌, ◌≤◌, ◌<◌, ◌^◌, ◌≡◌, refl, ap, ◌∙◌, ◌==◌, ◌⊎◌, inl, inr, true, false, ◌&&◌,
  some, List, [], ◌∷◌, ltb, if◌then◌else◌, u32, length, get_or, Outcome, ok, ◌>>=◌, arith,
  Bool-cases, bind-eq-ok, Outcome-cases, bind-eq-ok, Outcome-cases, All, leb, u32,
}
use pugputer6309_emulator.Bus.Types.{update}
use pugputer6309_emulator.Srec.Text.{is_empty, rstrip}
use pugputer6309_emulator.Srec.Parse.{LineError, SrecRecord, parse_line}
use pugputer6309_emulator.Srec.Load.{
  nothing_loaded, Loaded, apply_record, load_line, load_lines, write_bytes, widen, load_srec_file,
}

get_or_step : (b : ℕ) (bs : List ℕ) (k : ℕ) → 0 < k → get_or 0 (b ∷ bs) k ≡ get_or 0 bs (k - 1)
get_or_step b bs zero h = absurd (omega arith)
get_or_step b bs (suc k) h = ap (get_or 0 bs) (omega arith)

-- A record's bytes stand in memory where it says, and the rest of memory is as it was.
pub write_bytes_lem :
    (mem : ℕ → ℕ) (address : ℕ) (bs : List ℕ) (i : ℕ)
    → address + length bs ≤ 2 ^ 32
    → write_bytes mem address bs i
      ≡ (if leb address i && ltb i (address + length bs) then get_or 0 bs (i - address) else mem i)
unfolding write_bytes update
write_bytes_lem mem address [] i h = ground arith
write_bytes_lem mem address (b ∷ bs) i h =
    let here : u32 address ≡ address = omega arith in
    let first : i ≡ address → get_or 0 (b ∷ bs) (i - address) ≡ b =
      λ e. let none_before : i - address ≡ 0 = omega arith in rw none_before in
    let same : i - (address + 1) ≡ i - address - 1 = omega arith in
    rw (write_bytes_lem (update mem (u32 address) b) (address + 1) bs i (omega arith))
      (ground (arith, get_or_step b bs (i - address), ap (get_or 0 bs) same))

-- Memory is as before outside of the addresses that the result names, and these are in range.
pub record IsWithin (mem_size : ℕ) (before : ℕ → ℕ) (l : Loaded) : Type 0 where
  pub span : l.any_data ≡ true → (l.min_addr ≤ l.max_addr) × (l.max_addr < mem_size)
  pub rest :
      (i : ℕ) → (l.any_data ≡ true → (i < l.min_addr) ⊎ (l.max_addr < i)) → l.mem i ≡ before i

-- The record's end does not reach 2 ^ 32.
abbrev pub Fits : SrecRecord → Type 0
Fits r = r.address + length r.bytes < 2 ^ 32

apply_record-IsWithin :
    (mem_size : ℕ) (before : ℕ → ℕ) (l l' : Loaded) (r : SrecRecord)
    → IsWithin mem_size before l
    → Fits r
    → apply_record mem_size l r ≡ ok l'
    → IsWithin mem_size before l'
unfolding apply_record widen
apply_record-IsWithin mem_size before l l' r w f h = record {
  span = ground (arith, w.span);
  rest = λ i out. ground (arith, w.rest i, write_bytes_lem l.mem r.address r.bytes i, out);
}

ok_injective : {l l' : Loaded} → ◌≡◌ {A = Outcome LineError Loaded} (ok l) (ok l') → l ≡ l'
ok_injective h = cc

load_line-IsWithin :
    (mem_size : ℕ) (before : ℕ → ℕ) (l l' : Loaded) (line : List ℕ)
    → IsWithin mem_size before l
    → ((r : SrecRecord) → parse_line (rstrip line) ≡ ok r → Fits r)
    → load_line mem_size l line ≡ ok l'
    → IsWithin mem_size before l'
unfolding load_line
load_line-IsWithin mem_size before l l' line w f h = elim (Bool-cases (is_empty (rstrip line))) [
  | inl e ↦ subst (IsWithin mem_size before) (ok_injective (rw e at h)) w
  | inr e ↦
      let step : (parse_line (rstrip line) >>= apply_record mem_size l) ≡ ok l' = rw e at h in
      let found = bind-eq-ok (parse_line (rstrip line)) (apply_record mem_size l) step in
      apply_record-IsWithin mem_size before l l' found.0 w (f found.0 found.2) found.1
]

-- Every record of the file ends below 2 ^ 32.
abbrev pub LinesFit : List (List ℕ) → Type 0
LinesFit lines = All (λ line. (r : SrecRecord) → parse_line (rstrip line) ≡ ok r → Fits r) lines

load_lines-IsWithin :
    (mem_size : ℕ) (before : ℕ → ℕ) (line_no : ℕ) (l : Loaded) (lines : List (List ℕ))
    → IsWithin mem_size before l
    → LinesFit lines
    → IsWithin mem_size before (load_lines mem_size line_no l lines).loaded
unfolding load_lines
load_lines-IsWithin mem_size before line_no l [] w f = w
load_lines-IsWithin mem_size before line_no l (line ∷ lines) w f =
    elim (Outcome-cases (load_line mem_size l line)) [
      | inr (l', e) ↦
          rw (e, load_lines)
            (load_lines-IsWithin mem_size before (line_no + 1) l' lines
              (load_line-IsWithin mem_size before l l' line w f.0 e) f.1)
      | inl (m, e) ↦ rw (e, load_lines) w
    ]

-- Where no record ends at or past address 2 ^ 32, a load, also one that an error ends, changes no
-- byte outside of `[min_addr, max_addr]`, and none at all where it reports no data; and that range
-- lies in the target memory.
pub load_srec_file-IsWithin :
    (file : List (List ℕ)) (mem : ℕ → ℕ) (mem_size : ℕ)
    → LinesFit file
    → IsWithin mem_size mem (load_srec_file (some file) mem mem_size).loaded
unfolding load_srec_file
load_srec_file-IsWithin file mem mem_size f =
    load_lines-IsWithin mem_size mem 0 (nothing_loaded mem) file
      (record { span = λ e. cc; rest = λ i out. refl }) f

write_bytes_miss :
    (mem : ℕ → ℕ) (address : ℕ) (bs : List ℕ) (i : ℕ)
    → i < address
    → address + length bs ≤ i + 2 ^ 32
    → write_bytes mem address bs i ≡ mem i
unfolding write_bytes update
write_bytes_miss mem address [] i h k = refl
write_bytes_miss mem address (b ∷ bs) i h k =
    let other : (i == u32 address) ≡ false = ground arith in
    write_bytes_miss (update mem (u32 address) b) (address + 1) bs i (omega arith) (omega arith)
    ∙ rw other

-- A data record that starts past the end of the memory and ends past address 2 ^ 32 is accepted
-- where its end, less 2 ^ 32, is in the memory; its first byte is written past the end.
pub apply_record-past_end :
    (mem_size : ℕ) (l : Loaded) (address b : ℕ) (bs : List ℕ)
    → mem_size ≤ address
    → address < 2 ^ 32
    → length bs < 255
    → 2 ^ 32 ≤ address + length (b ∷ bs)
    → address + length (b ∷ bs) ≤ 2 ^ 32 + mem_size
    → (l' : Loaded) × (apply_record mem_size l
          (record { is_data = true; address = address; bytes = b ∷ bs })
        ≡ ok l')
      × (l'.mem address ≡ b)
unfolding apply_record widen write_bytes update
apply_record-past_end mem_size l address b bs h k s p q =
    let here : u32 address ≡ address = omega arith in
    let first : update l.mem (u32 address) b address ≡ b = ground arith in
    (
      widen address (u32 (address + length (b ∷ bs) + 0xffffffff))
          (record l { mem = write_bytes l.mem address (b ∷ bs) }),
      ground arith,
      ground (arith, write_bytes_miss (update l.mem (u32 address) b) (address + 1) bs address),
    )
