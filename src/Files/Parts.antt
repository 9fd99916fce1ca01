-- ===== src/Files/Parts.antt =====
-- The parts of a file by their numbers (`IndexedParts`), `min_max`, and the stream of a download
-- (`PartsStream`).
pub mod Stream
pub mod Numbered
use doka_one.Prelude.{
  ℕ, zero, suc, ◌+◌, ◌-◌, Bool, true, false, Option, none, some, List, [], ◌∷◌, ◌++◌, Bytes, length,
  drop, get_elem?, leb, ◌==◌, if◌then◌else◌, Outcome, ok, panic, Failure,
}
use doka_one.Prelude.Sorting.{sort_asc}

-- A `HashMap<u32, A>`.
abbrev pub Indexed : Type 0 → Type 0
Indexed A = List (ℕ × A)

abbrev pub IndexedParts : Type 0
IndexedParts = Indexed Bytes

module _ {A : Type 0} where
  unfoldable pub part_get : ℕ → Indexed A → Option A
  part_get i [] = none
  part_get i ((j, a) ∷ m) = if j == i then some a else part_get i m

  unfoldable pub part_insert : ℕ → A → Indexed A → Indexed A
  part_insert i a [] = (i, a) ∷ []
  part_insert i a ((j, b) ∷ m) = if j == i then (i, a) ∷ m else (j, b) ∷ part_insert i a m

  abbrev pub part_number : ℕ × A → ℕ
  part_number p = p.0

  abbrev pub part_content : ℕ × A → A
  part_content p = p.1

abbrev u32_max : ℕ
u32_max = 4294967295

-- `min_max`: the pair starts at (u32::MAX, u32::MIN).
unfoldable pub min_max_from : {A : Type 0} → ℕ × ℕ → Indexed A → ℕ × ℕ
min_max_from m [] = m
min_max_from (least, most) ((i, a) ∷ map) =
    min_max_from (if leb i least then i else least, if leb most i then i else most) map

unfoldable pub min_max : {A : Type 0} → Indexed A → ℕ × ℕ
unfolding min_max_from
min_max map = min_max_from (u32_max, 0) map

pub record PartsStream : Type 0 where
  pub parts : List Bytes
  pub current_index : ℕ
  pub current_offset : ℕ

abbrev pub contents : {A : Type 0} → Indexed A → List A
contents [] = []
contents ((i, a) ∷ m) = a ∷ contents m

-- `PartsStream::new`, of the parts in the order in which the map iterates.
unfoldable pub new_stream : IndexedParts → PartsStream
new_stream map_order = record {
  parts = contents (sort_asc part_number map_order);
  current_index = 0;
  current_offset = 0;
}

-- The part in use; a slice that starts past the end of the part panics.
unfoldable pub read_chunk : PartsStream → Bytes → Outcome Failure (Option Bytes × PartsStream)
read_chunk s current_part =
    let chunk = drop s.current_offset current_part in
    let offset = s.current_offset + length chunk in
    if leb s.current_offset (length current_part)
    then ok (
      some chunk,
      (if leb (length current_part) offset
          then record s { current_index = s.current_index + 1; current_offset = 0 }
          else record s { current_offset = offset }),
    )
    else panic

abbrev poll_part : PartsStream → Option Bytes → Outcome Failure (Option Bytes × PartsStream)
poll_part s none = ok (none, s)
poll_part s (some part) = read_chunk s part

-- `poll_next`
unfoldable pub poll_next : PartsStream → Outcome Failure (Option Bytes × PartsStream)
unfolding read_chunk
poll_next s = poll_part s (get_elem? s.parts s.current_index)
