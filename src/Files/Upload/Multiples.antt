-- ===== src/Files/Upload/Multiples.antt =====
-- file_delegate.rs: about an upload of a whole number of blocks.
use doka_one.Prelude.{
  ℕ, zero, suc, ◌+◌, ◌*◌, ◌≤◌, ◌<◌, ◌≡◌, refl, ap, ◌∙◌, Bool, true, false, [], ◌∷◌, Text, Bytes,
  length, length-append, take, drop, take-append-drop, length-take, leb, Failure, Outcome, ok,
  arith,
}
use doka_one.Prelude.Int.{u32_mod}
use doka_one.Prelude.Effects.{pure, resume}
use doka_one.Pg.Transaction.{Database}
use doka_one.Files.Parts.{IndexedParts, part_insert}
use doka_one.Files.Environment.{Environment}
use doka_one.Files.Store.{Store}
use doka_one.Files.Upload.{
  Uploader, Upload, done, chunk, no_more, field, flush_full, push_block, write_full_blocks,
  read_chunks, write_rest, read_fields, read_and_write_incoming_data,
}

length-part_insert :
    (n : ℕ) (b : Bytes) (m : IndexedParts) → length (part_insert n b m) ≤ suc (length m)
unfolding part_insert
length-part_insert n b [] = omega arith
length-part_insert n b ((j, c) ∷ m) = ground (arith, length-part_insert n b m)

length-drop : (n : ℕ) (s : Bytes) → n ≤ length s → length (drop n s) + n ≡ length s
length-drop n s h = omega (
  arith,
  length-take n s h,
  ap length (take-append-drop n s),
  length-append (take n s) (drop n s),
)

length-eq-zero : (s : Bytes) → length s ≡ 0 → s ≡ []
length-eq-zero [] e = refl
length-eq-zero (x ∷ s) e = absurd (omega arith)

module _ (env : Environment) (fails : ℕ → Bool) (block_size : ℕ) (who : Uploader)
    (item_info file_ref : Text) (positive : 0 < block_size) (d : Database Store) where
  module _ (b : Bytes) (u : Upload) where
    abbrev pushed : Upload
    pushed = push_block env fails block_size who item_info file_ref b u

    pushed-room : length pushed.block_set ≤ suc (length u.block_set)
    unfolding push_block
    pushed-room = length-part_insert u.block_num b u.block_set

    pushed-count : u.block_num + 1 < u32_mod → pushed.block_num ≡ u.block_num + 1
    unfolding push_block
    pushed-count h = omega arith

    pushed-size : pushed.total_size ≡ u.total_size + length b
    unfolding push_block
    pushed-size = refl

  flush_full-waits :
      (u : Upload)
      → length u.block_set < 10
      → flush_full env fails block_size who item_info file_ref u d ≡ (ok u, d)
  unfolding flush_full
  flush_full-waits u h = let few : leb 10 (length u.block_set) ≡ false = ground arith in rw few refl

  -- Cutting `n` blocks off, of which the set of blocks takes all, touches no table.
  record Cuts (n : ℕ) (u : Upload) (r : Bytes × Upload) : Type 0 where
    empty : r.0 ≡ []
    count : r.1.block_num ≡ u.block_num + n
    size : r.1.total_size ≡ u.total_size + n * block_size

  write_full_blocks-Cuts :
      (n f : ℕ) (buffer : Bytes) (u : Upload)
      → length buffer ≡ n * block_size
      → length buffer < f
      → length u.block_set + n < 10
      → u.block_num + n < u32_mod
      → (r : Bytes × Upload) × ((write_full_blocks env fails block_size who item_info file_ref f
              buffer u d
            ≡ (ok r, d))
          × Cuts n u r)
  unfolding write_full_blocks
  write_full_blocks-Cuts n zero buffer u e lt room small = absurd (omega arith)
  write_full_blocks-Cuts zero (suc f) buffer u e lt room small = (
    (buffer, u),
    (
      rw (short) refl,
      record {
        empty = length-eq-zero buffer (omega (arith, e));
        count = omega arith;
        size = omega arith;
      },
    ),
  )
    where
      short : leb block_size (length buffer) ≡ false
      short = ground arith
  write_full_blocks-Cuts (suc n) (suc f) buffer u e lt room small =
      let b = take block_size buffer in
      let v = pushed b u in
      let le : block_size ≤ length buffer = grind arith in
      let long : leb block_size (length buffer) ≡ true = ground arith in
      let size : length b ≡ block_size = length-take block_size buffer le in
      let (r, (h, c)) =
        write_full_blocks-Cuts n f (drop block_size buffer) v
          (grind (arith, length-drop block_size buffer le))
          (omega (arith, length-drop block_size buffer le)) (omega (arith, pushed-room b u))
          (omega (arith, pushed-count b u (omega arith))) in
      (
        r,
        (
          rw long (
              ap
                (resume (
                  write_full_blocks env fails block_size who item_info file_ref f
                    (drop block_size buffer)))
                (flush_full-waits v (omega (arith, pushed-room b u)))
              ∙ h),
          record {
            empty = c.empty;
            count = omega (arith, c.count, pushed-count b u (omega arith));
            size = grind (arith, c.size, pushed-size b u, size);
          },
        ),
      )

-- A form of one field that is read in one chunk, of a whole number of blocks below ten, a block not being empty, is answered
-- with its size and the number of its blocks, while nothing at all is stored.
pub read_and_write_incoming_data-stores_nothing :
    (env : Environment) (fails : ℕ → Bool) (block_size : ℕ) (who : Uploader)
    (item_info file_ref : Text) (n : ℕ) (content : Bytes) (d : Database Store)
    → 0 < block_size
    → n < 10
    → length content ≡ n * block_size
    → read_and_write_incoming_data env fails block_size who item_info file_ref
        (field (chunk content done) no_more)
        d
      ≡ (ok (n * block_size, n), d)
unfolding read_and_write_incoming_data read_fields read_chunks write_rest
read_and_write_incoming_data-stores_nothing env fails block_size who item_info file_ref n content d
      positive few e =
    let start : Upload = record { block_set = []; total_size = 0; block_num = 0 } in
    let (r, (h, c)) =
      write_full_blocks-Cuts env fails block_size who item_info file_ref positive d n
        (suc (length content)) content start e (omega arith) (omega arith) (omega arith) in
    ap finish h ∙ close r c.empty (omega (arith, c.size)) (omega (arith, c.count))
  where
    finish :
        Outcome Failure (Bytes × Upload) × Database Store → Outcome Failure (ℕ × ℕ) × Database Store
    finish w =
        resume (λ u. pure (u.total_size, u.block_num))
          (resume (read_fields env fails block_size who item_info file_ref no_more) (
            resume (write_rest env fails block_size who item_info file_ref)
              (resume (read_chunks env fails block_size who item_info file_ref done) w)))

    close :
        (r : Bytes × Upload)
        → r.0 ≡ []
        → r.1.total_size ≡ n * block_size
        → r.1.block_num ≡ n
        → finish (ok r, d) ≡ (ok (n * block_size, n), d)
    close ([], u) e size count = λ i. (ok (size i, count i), d)
    close (x ∷ b, u) e size count = absurd (cc)
