-- ===== src/Fat/NameField.antt =====
-- The name field of a directory entry.
use pugputer6309_emulator.Base.{
  ◌++◌, Option, none, some, length, All, Bool-cases, leb, ◌&&◌, ◌==◌, ℕ, zero, suc, ◌+◌, ◌≤◌, ◌<◌,
  ◌≡◌, refl, ap, ◌∙◌, ◌⊎◌, false, ◌||◌, List, [], ◌∷◌, arith, inl, inr,
}
use pugputer6309_emulator.Bus.Types.{update, same_name}
use pugputer6309_emulator.Fat.Entries
use pugputer6309_emulator.Fat.Entries.{Entries, to_upper, put_upper, fill}

-- Character `i` of a text in upper case, or what stood there.
abbrev pub upper_at : List ℕ → ℕ → ℕ → ℕ
upper_at [] i old = old
upper_at (c ∷ text) zero old = to_upper c
upper_at (c ∷ text) (suc i) old = upper_at text i old

put_upper-outside :
    (buf : ℕ → ℕ) (off limit : ℕ) (text : List ℕ) (i : ℕ)
    → (i < off) ⊎ (off + limit ≤ i)
    → put_upper buf off limit text i ≡ buf i
unfolding put_upper update
put_upper-outside buf off zero text i h = refl
put_upper-outside buf off (suc limit) [] i h = refl
put_upper-outside buf off (suc limit) (c ∷ text) i h =
    put_upper-outside (update buf off (to_upper c)) (off + 1) limit text i (ground arith)
    ∙ ground arith

put_upper_at :
    (buf : ℕ → ℕ) (off limit : ℕ) (text : List ℕ) (i : ℕ)
    → i < limit
    → put_upper buf off limit text (off + i) ≡ upper_at text i (buf (off + i))
unfolding put_upper update
put_upper_at buf off zero text i h = absurd (omega arith)
put_upper_at buf off (suc limit) [] i h = refl
put_upper_at buf off (suc limit) (c ∷ text) zero h =
    put_upper-outside (update buf off (to_upper c)) (off + 1) limit text (off + 0)
      (inl (omega arith))
    ∙ ground arith
put_upper_at buf off (suc limit) (c ∷ text) (suc i) h =
    let there : off + suc i ≡ off + 1 + i = omega arith in
    let old : update buf off (to_upper c) (off + 1 + i) ≡ buf (off + 1 + i) = ground arith in
    rw there (
      put_upper_at (update buf off (to_upper c)) (off + 1) limit text i (omega arith)
      ∙ ap (upper_at text i) old)

-- Only the eleven bytes of the name field change.
pub put_name-outside :
    (buf : ℕ → ℕ) (off : ℕ) (name : List ℕ) (i : ℕ)
    → (i < off) ⊎ (off + 11 ≤ i)
    → Entries.put_name buf off name i ≡ buf i
unfolding Entries.put_name Entries.put_short_name update
put_name-outside buf off name i h = ground (
  arith,
  put_upper-outside (fill buf off 11 32) off 8 (Entries.base_of name) i,
  put_upper-outside (put_upper (fill buf off 11 32) off 8 (Entries.base_of name)) (off + 8) 3
      (Entries.extension_of name) i,
)

module _ (buf : ℕ → ℕ) (off : ℕ) (name : List ℕ) where
  abbrev blank : ℕ → ℕ
  blank = fill buf off 11 32

  blank_at : (i : ℕ) → i < 11 → blank (off + i) ≡ 32
  blank_at i h = ground arith

  pub base_at :
      (i : ℕ)
      → i < 8
      → Entries.put_short_name buf off name (off + i) ≡ upper_at (Entries.base_of name) i 32
  unfolding Entries.put_short_name
  base_at i h =
      put_upper-outside (put_upper blank off 8 (Entries.base_of name)) (off + 8) 3
        (Entries.extension_of name) (off + i) (inl (omega arith))
      ∙ put_upper_at blank off 8 (Entries.base_of name) i h
      ∙ ap (upper_at (Entries.base_of name) i) (blank_at i (omega arith))

  pub extension_at :
      (i : ℕ)
      → i < 3
      → Entries.put_short_name buf off name (off + 8 + i)
        ≡ upper_at (Entries.extension_of name) i 32
  unfolding Entries.put_short_name
  extension_at i h =
      let free : put_upper blank off 8 (Entries.base_of name) (off + 8 + i) ≡ 32 =
        put_upper-outside blank off 8 (Entries.base_of name) (off + 8 + i) (inr (omega arith))
        ∙ ap blank (omega arith)
        ∙ blank_at (8 + i) (omega arith) in
      put_upper_at (put_upper blank off 8 (Entries.base_of name)) (off + 8) 3
        (Entries.extension_of name) i h
      ∙ ap (upper_at (Entries.extension_of name) i) free

-- `u` is the character `c` in upper case: a letter from a to z is 32 above its capital, and any other
-- character stays.
abbrev pub IsUpperOf : ℕ → ℕ → Type 0
IsUpperOf c u = (97 ≤ c) × (c ≤ 122) × (u + 32 ≡ c) ⊎ ((c < 97) ⊎ (122 < c)) × (u ≡ c)

-- Byte `i` of a field that holds a text: its character in upper case, or a space behind its end.
abbrev pub IsFieldByte : List ℕ → ℕ → ℕ → Type 0
IsFieldByte [] i u = u ≡ 32
IsFieldByte (c ∷ text) zero u = IsUpperOf c u
IsFieldByte (c ∷ text) (suc i) u = IsFieldByte text i u

pub to_upper-IsUpperOf : (c : ℕ) → IsUpperOf c (to_upper c)
to_upper-IsUpperOf c = elim (Bool-cases (leb 97 c && leb c 122)) [
  | inl t ↦ inl (ground arith)
  | inr t ↦ inr (elim (Bool-cases (leb 97 c)) [
    | inl k ↦ (inr (ground arith), ground arith)
    | inr k ↦ (inl (ground arith), ground arith)
  ])
]

pub upper_at-IsFieldByte : (text : List ℕ) (i : ℕ) → IsFieldByte text i (upper_at text i 32)
upper_at-IsFieldByte [] i = refl
upper_at-IsFieldByte (c ∷ text) zero = to_upper-IsUpperOf c
upper_at-IsFieldByte (c ∷ text) (suc i) = upper_at-IsFieldByte text i

-- A file name of a base and, behind a dot, an extension if there is one.
abbrev pub join_name : List ℕ → Option (List ℕ) → List ℕ
join_name base none = base
join_name base (some extension) = base ++ b'.' ∷ extension

abbrev pub text_of : Option (List ℕ) → List ℕ
text_of none = []
text_of (some extension) = extension

abbrev pub HasNoDot : List ℕ → Type 0
HasNoDot base = All (λ c. (c == b'.') ≡ false) base

pub base_of-join_name :
    (base : List ℕ) (e : Option (List ℕ))
    → HasNoDot base
    → Entries.base_of (join_name base e) ≡ base
unfolding Entries.base_of
base_of-join_name [] none h = refl
base_of-join_name [] (some x) h = refl
base_of-join_name (c ∷ base) none h = rw (h.0, base_of-join_name base none h.1)
base_of-join_name (c ∷ base) (some x) h = rw (h.0, base_of-join_name base (some x) h.1)

pub extension_of-join_name :
    (base : List ℕ) (e : Option (List ℕ))
    → HasNoDot base
    → Entries.extension_of (join_name base e) ≡ text_of e
unfolding Entries.extension_of
extension_of-join_name [] none h = refl
extension_of-join_name [] (some x) h = refl
extension_of-join_name (c ∷ base) none h = rw (h.0, extension_of-join_name base none h.1)
extension_of-join_name (c ∷ base) (some x) h = rw (h.0, extension_of-join_name base (some x) h.1)

pub named_plainly :
    (base : List ℕ) (e : Option (List ℕ))
    → 0 < length base
    → HasNoDot base
    → (same_name (join_name base e) Entries.dot || same_name (join_name base e) Entries.dot_dot)
      ≡ false
unfolding same_name
named_plainly [] e l h = absurd (omega arith)
named_plainly (c ∷ base) none l h = rw h.0
named_plainly (c ∷ base) (some x) l h = rw h.0
