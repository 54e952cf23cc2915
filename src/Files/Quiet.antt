-- ===== src/Files/Quiet.antt =====
-- `performIO` of internal/handlers/io.go where nothing fails, nothing is cut short, and nobody cancels.
use hotpod.Prelude.{
  ℕ, zero, suc, ◌+◌, ◌-◌, ◌*◌, ◌/◌, ◌≤◌, ◌<◌, ◌≡◌, refl, Bool, true, false, Option, none, some, ltb,
  if◌then◌else◌, min, arith, Bool-cases, Option-cases, inl, inr, ◌⊎◌, ltb→lt, subst, ltb,
}
use hotpod.Files.Defs.{
  io_block_size, File, Round, Rounds, write, sync, read, advance, Written, write_loop, Read,
  read_loop, Done, mixed_loop, Operation, writes, reads, mixes, Disk, new_file, write_file,
  read_file, then_read, perform_io, full,
}

abbrev pub calm : Round
calm = record { done = false; write_error = none; read = full }

-- Every round is calm.
abbrev pub AreCalm : Rounds → Type 0
AreCalm rounds = (i : ℕ) → rounds i ≡ calm

abbrev pub count_syncs : Bool → ℕ → ℕ
count_syncs do_sync n = if do_sync then n else 0

abbrev pub AllWritten : ℕ → ℕ → Option Written → Type 0
AllWritten size syncs none = ⊥
AllWritten size syncs (some w) =
    (w.bytes_written ≡ size) × (w.cancelled ≡ false) × (w.file.size ≡ size) × (w.file.syncs ≡ syncs)

write_loop-AllWritten :
    (fuel : ℕ) (rounds : Rounds) (do_sync : Bool) (i size remaining bytes_written : ℕ) (f : File)
    → AreCalm rounds
    → remaining < fuel
    → bytes_written + remaining ≡ size
    → f.size ≡ bytes_written
    → f.offset ≡ bytes_written
    → AllWritten size
        (f.syncs + count_syncs do_sync 1)
        (write_loop fuel rounds do_sync i remaining bytes_written f)
unfolding write_loop
write_loop-AllWritten zero rounds do_sync i size remaining bytes_written f c h e s o = elim h [ ]
write_loop-AllWritten (suc fuel) rounds do_sync i size remaining bytes_written f c h e s o =
    rw (c i) (
      ground (
        arith,
        write_loop-AllWritten fuel rounds do_sync (suc i) size
            (remaining - min io_block_size remaining) (bytes_written + min io_block_size remaining)
            (write (min io_block_size remaining) f) c,
      ))

abbrev pub AllRead : ℕ → Option Read → Type 0
AllRead size none = ⊥
AllRead size (some r) = (r.bytes_read ≡ size) × (r.cancelled ≡ false)

read_full : (n : ℕ) (f : File) → 0 < n → f.offset + n ≤ f.size → read full n f ≡ some n
unfolding read
read_full n f p h = ground arith

read_loop-AllRead :
    (fuel : ℕ) (rounds : Rounds) (i size remaining bytes_read : ℕ) (f : File)
    → AreCalm rounds
    → remaining < fuel
    → bytes_read + remaining ≡ size
    → f.offset ≡ bytes_read
    → f.size ≡ size
    → AllRead size (read_loop fuel rounds i remaining bytes_read f)
unfolding read_loop
read_loop-AllRead zero rounds i size remaining bytes_read f c h e o l = elim h [ ]
read_loop-AllRead (suc fuel) rounds i size remaining bytes_read f c h e o l =
    elim (Bool-cases (ltb 0 remaining)) [
      | inr done ↦ rw done (ground arith)
      | inl more ↦
          let n = min io_block_size remaining in
          let p : 0 < n = ltb→lt 0 n (ground arith) in
          rw (c i, more, read_full n f p (ground arith), read_loop)
            (read_loop-AllRead fuel rounds (suc i) size (remaining - n) (bytes_read + n)
              (advance n f) c (ground arith) (ground arith) (ground arith) l)
    ]

abbrev pub AllDone : ℕ → ℕ → ℕ → Option Done → Type 0
AllDone written read syncs none = ⊥
AllDone written read syncs (some r) =
    (r.bytes_written ≡ written)
    × (r.bytes_read ≡ read)
    × (r.cancelled ≡ false)
    × (r.file.size ≡ written)
    × (r.file.syncs ≡ syncs)

-- The number of blocks in so many bytes.
abbrev pub blocks : ℕ → ℕ
blocks n = (n + 65535) / 65536

-- What is read from the start of a phase on: of every block that is not the first one to be written.
abbrev reads_left : Bool → ℕ → ℕ
reads_left true remaining = remaining - min io_block_size remaining
reads_left false remaining = remaining

abbrev add_syncs : Bool → ℕ → ℕ → ℕ
add_syncs do_sync n m = n + count_syncs do_sync m

mixed_loop-AllDone :
    (fuel : ℕ) (rounds : Rounds) (do_sync write_phase : Bool)
    (i size remaining bytes_written bytes_read : ℕ) (f : File)
    → AreCalm rounds
    → 2 * remaining < fuel
    → (write_phase ≡ true) ⊎ (2 * remaining + 1 < fuel)
    → bytes_written + remaining ≡ size
    → (write_phase ≡ true) ⊎ (min io_block_size remaining ≤ bytes_written)
    → f.size ≡ bytes_written
    → f.offset ≡ bytes_written
    → AllDone size
        (bytes_read + reads_left write_phase remaining)
        (add_syncs do_sync f.syncs (blocks remaining))
        (mixed_loop fuel rounds do_sync i write_phase remaining bytes_written bytes_read f)
unfolding mixed_loop
mixed_loop-AllDone zero rounds do_sync p i size remaining bytes_written bytes_read f c h h' e b s
      o =
    elim h [ ]
mixed_loop-AllDone (suc fuel) rounds do_sync true i size remaining bytes_written bytes_read f c h h'
      e b s o =
    let block = min io_block_size remaining in
    rw (c i) (
      ground (
        arith,
        mixed_loop-AllDone fuel rounds do_sync false (suc i) size (remaining - block)
            (bytes_written + block) bytes_read (sync do_sync (write block f)) c,
      ))
mixed_loop-AllDone (suc fuel) rounds do_sync false i size remaining bytes_written bytes_read f c h
      h' e b s o =
    elim (Bool-cases (ltb 0 remaining)) [
      | inr done ↦ rw done (ground arith)
      | inl more ↦
          let n = min io_block_size remaining in
          let back = record f { offset = f.offset - n } in
          let p : 0 < n = ltb→lt 0 n (ground arith) in
          let q : ltb f.offset n ≡ false = ground arith in
          rw (c i, more, q, read_full n back p (ground arith), mixed_loop)
            (ground (
              arith,
              mixed_loop-AllDone fuel rounds do_sync true (suc i) size remaining bytes_written
                  (bytes_read + n) (record f { offset = f.size }) c,
            ))
    ]

-- The rounds are calm, and no call outside them fails.
abbrev pub IsCalm : Disk → Type 0
IsCalm d =
    (d.mkdir_fails ≡ false)
    × (d.create_fails ≡ false)
    × (d.open_fails ≡ false)
    × AreCalm d.writing
    × AreCalm d.reading

-- What each operation comes to, for a size.
abbrev pub DoneAs : Operation → Bool → ℕ → Option Done → Type 0
DoneAs writes do_sync size = AllDone size 0 (count_syncs do_sync 1)
DoneAs reads do_sync size = AllDone size size 0
DoneAs mixes do_sync size =
    AllDone size (size - min io_block_size size) (count_syncs do_sync (blocks size))

write_file-AllWritten :
    (fuel : ℕ) (d : Disk) (do_sync : Bool) (size : ℕ)
    → IsCalm d
    → size < fuel
    → AllWritten size (count_syncs do_sync 1) (write_file fuel d do_sync size)
unfolding write_file new_file
write_file-AllWritten fuel d do_sync size (m, k, o, w, r) h = rw k (
    subst (λ n. AllWritten size n (write_loop fuel d.writing do_sync 0 size 0 new_file))
      (omega arith)
      (write_loop-AllWritten fuel d.writing do_sync 0 size size 0 new_file w h (omega arith) refl
        refl))

then_read-AllDone :
    (fuel : ℕ) (d : Disk) (size syncs : ℕ) (w : Written)
    → IsCalm d
    → size < fuel
    → AllWritten size syncs (some w)
    → AllDone size size syncs (then_read fuel d size w)
unfolding then_read read_file
then_read-AllDone fuel d size syncs w (m, k, o, c, r) h a = ground (
  arith,
  read_loop-AllRead fuel d.reading 0 size size 0 (record w.file { offset = 0 }) r h (omega arith)
      refl,
)

-- Where nothing fails, nothing is cut short and nobody cancels, with fuel for two rounds a byte and one
-- more, `performIO` writes exactly the bytes that were asked for. Writing syncs once when it is told to;
-- reading reads them all and never syncs; the mixed operation syncs once a block of 64 KiB when it is told
-- to, and reads everything but one first block, so that it reads nothing for a size of up to 64 KiB.
pub perform_io-AllDone :
    (fuel : ℕ) (d : Disk) (op : Operation) (do_sync : Bool) (size : ℕ)
    → IsCalm d
    → 2 * size < fuel
    → DoneAs op do_sync size (perform_io fuel d op do_sync size)
unfolding perform_io new_file
perform_io-AllDone fuel d writes do_sync size (m, k, o, w, r) h =
    ground (arith, write_file-AllWritten fuel d do_sync size (m, k, o, w, r))
perform_io-AllDone fuel d reads do_sync size (m, k, o, w, r) h =
    elim (Option-cases (write_file fuel d false size)) [
      | inl e ↦ ground (arith, write_file-AllWritten fuel d false size (m, k, o, w, r))
      | inr (v, e) ↦
          let a : AllWritten size 0 (some v) =
            subst (AllWritten size 0) e
              (write_file-AllWritten fuel d false size (m, k, o, w, r) (ground arith)) in
          rw (m, e) (then_read-AllDone fuel d size 0 v (m, k, o, w, r) (ground arith) a)
    ]
perform_io-AllDone fuel d mixes do_sync size (m, k, o, w, r) h =
    rw (m, k)
      (subst
        (λ (n : ℕ).
          AllDone size (size - min io_block_size size) n
            (mixed_loop fuel d.writing do_sync 0 true size 0 0 new_file))
        (omega arith)
        (subst
          (λ (n : ℕ).
            AllDone size n (add_syncs do_sync 0 (blocks size))
              (mixed_loop fuel d.writing do_sync 0 true size 0 0 new_file))
          (omega arith)
          (mixed_loop-AllDone fuel d.writing do_sync true 0 size size 0 0 new_file w h (inl refl)
            (omega arith) (inl refl) refl refl)))
