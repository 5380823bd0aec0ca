-- ===== src/OffsetIndex.antt =====
-- src/offset_index.rs: where in its file each message of a segment starts. Ids are `u64` counts of
-- messages and offsets are `u32`; neither is computed on here but by a subtraction that is guarded.
pub mod Bytes
use floki.Prelude.{
  ℕ, ◌+◌, ◌-◌, List, [], ◌∷◌, ◌++◌, Option, none, Outcome, done, assert, ◌>>◌, ◌==◌, leb,
  if◌then◌else◌, length, get_elem?,
}

pub record OffsetIndex : Type 0 where
  pub id_offset : ℕ
  pub index : List ℕ

unfoldable pub new : ℕ → OffsetIndex
new id_offset = record { id_offset = id_offset; index = [] }

-- `debug_assert!` is compiled out of the release profile: there an id below `id_offset` wraps to an index that no list reaches.
unfoldable pub get_offset : OffsetIndex → ℕ → Option ℕ
get_offset x id = if leb x.id_offset id then get_elem? x.index (id - x.id_offset) else none

unfoldable pub push_offset : OffsetIndex → ℕ → ℕ → Outcome OffsetIndex
push_offset x id offset = do
  assert (id == x.id_offset + length x.index)
  done (record x { index = x.index ++ offset ∷ [] })
