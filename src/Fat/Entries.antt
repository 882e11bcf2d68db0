-- ===== src/Fat/Entries.antt =====
-- Directory entries: `put_short_name`, and `add_entry` of `build_fat16_image`.
use pugputer6309_emulator.Base.{
  ℕ, zero, suc, ◌+◌, ◌-◌, ◌&&◌, ◌||◌, List, [], ◌∷◌, leb, ltb, ◌==◌, if◌then◌else◌,
}
use pugputer6309_emulator.Bus.Types.{update, same_name}
use pugputer6309_emulator.Fat.Boot.{put_le16, put_le32}

-- `std::toupper` in the "C" locale.
abbrev pub to_upper : ℕ → ℕ
to_upper c = if leb b'a' c && leb c b'z' then c - 32 else c

-- A name up to its first dot, and what follows that dot.
unfoldable pub base_of : List ℕ → List ℕ
base_of [] = []
base_of (c ∷ name) = let rest = base_of name in if c == b'.' then [] else c ∷ rest

unfoldable pub extension_of : List ℕ → List ℕ
extension_of [] = []
extension_of (c ∷ name) = let rest = extension_of name in if c == b'.' then name else rest

-- At most `limit` characters of a text, in upper case.
unfoldable pub put_upper : (ℕ → ℕ) → ℕ → ℕ → List ℕ → ℕ → ℕ
put_upper buf off zero text = buf
put_upper buf off (suc limit) [] = buf
put_upper buf off (suc limit) (c ∷ text) =
    put_upper (update buf off (to_upper c)) (off + 1) limit text

abbrev pub fill : (ℕ → ℕ) → ℕ → ℕ → ℕ → ℕ → ℕ
fill buf off count value i = if leb off i && ltb i (off + count) then value else buf i

unfoldable pub put_short_name : (ℕ → ℕ) → ℕ → List ℕ → ℕ → ℕ
put_short_name buf off name =
    put_upper (put_upper (fill buf off 11 32) off 8 (base_of name)) (off + 8) 3 (extension_of name)

-- The entries of a directory, `size` bytes.
pub record Entries : Type 0 where
  pub bytes : ℕ → ℕ
  pub size : ℕ

abbrev pub dot : List ℕ
dot = b'.' ∷ []

abbrev pub dot_dot : List ℕ
dot_dot = b'.' ∷ b'.' ∷ []

-- The name field of an entry; "." and ".." are written as they are.
unfoldable pub put_name : (ℕ → ℕ) → ℕ → List ℕ → ℕ → ℕ
put_name buf off name =
    if same_name name dot || same_name name dot_dot
    then (let blank = update (fill (put_short_name buf off name) off 11 32) off b'.' in
        if same_name name dot_dot then update blank (off + 1) b'.' else blank)
    else put_short_name buf off name

unfoldable pub add_entry : Entries → List ℕ → ℕ → ℕ → ℕ → Entries
add_entry d name attr cluster size =
    let off = d.size in
    let named = put_name (fill d.bytes off 32 0) off name in
    record {
      bytes = put_le32 (put_le16 (update named (off + 11) attr) (off + 26) cluster) (off + 28) size;
      size = off + 32;
    }
