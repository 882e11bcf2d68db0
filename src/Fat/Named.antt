-- ===== src/Fat/Named.antt =====
-- What `add_entry` writes.
use mathlib.Core.Path.{subst}
use pugputer6309_emulator.Base.{
  sym, Option, length, ℕ, ◌+◌, ◌^◌, ◌<◌, ◌≡◌, refl, ap, ◌∙◌, false, ◌||◌, List, arith, inl,
}
use pugputer6309_emulator.Bus.Types.{update, same_name}
use pugputer6309_emulator.Fat.Boot.{put_le16, put_le32}
use pugputer6309_emulator.Fat.Entries
use pugputer6309_emulator.Fat.Entries.{Entries, to_upper, put_upper, fill}
use pugputer6309_emulator.Fat.Linked.{le16}
use pugputer6309_emulator.Fat.Fields.{le32, split16, split32}
use pugputer6309_emulator.Fat.NameField.{
  upper_at, put_name-outside, base_at, extension_at, IsFieldByte, upper_at-IsFieldByte, join_name,
  text_of, HasNoDot, base_of-join_name, extension_of-join_name, named_plainly,
}

-- `after` is `before` with an entry of 32 bytes at its end: the base in 8 and the extension in 3
-- bytes, and the attributes, the first cluster and the size.
pub record Holds (before after : Entries) (base extension : List ℕ) (attr cluster size : ℕ)
    : Type 0 where
  pub grown : after.size ≡ before.size + 32
  pub kept : (i : ℕ) → i < before.size → after.bytes i ≡ before.bytes i
  pub base_field : (i : ℕ) → i < 8 → IsFieldByte base i (after.bytes (before.size + i))
  pub extension_field :
      (i : ℕ) → i < 3 → IsFieldByte extension i (after.bytes (before.size + 8 + i))
  pub attributes : after.bytes (before.size + 11) ≡ attr
  pub first_cluster : le16 after.bytes (before.size + 26) ≡ cluster
  pub length_field : le32 after.bytes (before.size + 28) ≡ size

-- The fields behind the name.
fields_outside :
    (named : ℕ → ℕ) (off attr cluster size i : ℕ)
    → i < off + 11
    → put_le32 (put_le16 (update named (off + 11) attr) (off + 26) cluster) (off + 28) size i
      ≡ named i
unfolding put_le16 put_le32 update
fields_outside named off attr cluster size i h = ground arith

attributes_written :
    (named : ℕ → ℕ) (off attr cluster size : ℕ)
    → put_le32
        (put_le16 (update named (off + 11) attr) (off + 26) cluster)
        (off + 28)
        size
        (off + 11)
      ≡ attr
unfolding put_le16 put_le32 update
attributes_written named off attr cluster size = ground arith

cluster_written :
    (named : ℕ → ℕ) (off attr cluster size : ℕ)
    → le16
        (put_le32 (put_le16 (update named (off + 11) attr) (off + 26) cluster) (off + 28) size)
        (off + 26)
      ≡ cluster
unfolding put_le16 put_le32 update
cluster_written named off attr cluster size = ground (arith, split16 cluster)

size_written :
    (named : ℕ → ℕ) (off attr cluster size : ℕ)
    → size < 2 ^ 32
    → le32
        (put_le32 (put_le16 (update named (off + 11) attr) (off + 26) cluster) (off + 28) size)
        (off + 28)
      ≡ size
unfolding put_le16 put_le32 update
size_written named off attr cluster size h = ground (arith, split32 size)

plain_name :
    (buf : ℕ → ℕ) (off : ℕ) (name : List ℕ)
    → (same_name name Entries.dot || same_name name Entries.dot_dot) ≡ false
    → Entries.put_name buf off name ≡ Entries.put_short_name buf off name
unfolding Entries.put_name
plain_name buf off name h = rw h

-- An entry whose name is a base of at least one character and no dot, alone or with a dot and an
-- extension of any characters, is added at the end of its directory. Its name field holds the first
-- 8 characters of the base and the first 3 of the extension, each letter from a to z as its capital
-- and all else as it is, filled up with spaces; its attributes, first cluster and size can be read
-- back, and the entries before it stay as they are; the size is below 2 ^ 32.
pub add_entry-Holds :
    (d : Entries) (base : List ℕ) (extension : Option (List ℕ)) (attr cluster size : ℕ)
    → 0 < length base
    → HasNoDot base
    → size < 2 ^ 32
    → Holds d
        (Entries.add_entry d (join_name base extension) attr cluster size)
        base
        (text_of extension)
        attr
        cluster
        size
unfolding Entries.add_entry
add_entry-Holds d base extension attr cluster size some_base no_dot small =
    let off = d.size in
    let name = join_name base extension in
    let cleared = fill d.bytes off 32 0 in
    let named = Entries.put_name cleared off name in
    let same : named ≡ Entries.put_short_name cleared off name =
      plain_name cleared off name (named_plainly base extension some_base no_dot) in
    record {
      grown = refl;
      kept = λ i l.
          fields_outside named off attr cluster size i (omega arith)
          ∙ put_name-outside cleared off name i (inl l)
          ∙ ground arith;
      base_field = λ i l.
          subst (IsFieldByte base i)
            (sym (
              fields_outside named off attr cluster size (off + i) (omega arith)
              ∙ ap (λ (g : ℕ → ℕ). g (off + i)) same
              ∙ base_at cleared off name i l
              ∙ ap (λ (t : List ℕ). upper_at t i 32) (base_of-join_name base extension no_dot)))
            (upper_at-IsFieldByte base i);
      extension_field = λ i l.
          subst (IsFieldByte (text_of extension) i)
            (sym (
              fields_outside named off attr cluster size (off + 8 + i) (omega arith)
              ∙ ap (λ (g : ℕ → ℕ). g (off + 8 + i)) same
              ∙ extension_at cleared off name i l
              ∙ ap (λ (t : List ℕ). upper_at t i 32)
                  (extension_of-join_name base extension no_dot)))
            (upper_at-IsFieldByte (text_of extension) i);
      attributes = attributes_written named off attr cluster size;
      first_cluster = cluster_written named off attr cluster size;
      length_field = size_written named off attr cluster size small;
    }
