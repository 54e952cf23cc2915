-- ===== src/Files/Bounds.antt =====
-- Bounds on `performIO` of internal/handlers/io.go, whatever the operating system and the context do.
use hotpod.Prelude.{
  ℕ, zero, suc, ◌+◌, ◌-◌, ◌*◌, ◌≤◌, ◌<◌, ◌≡◌, Bool, true, false, Option, none, some, min, arith,
  Option-cases, inl, inr, ◌⊎◌,
}
use hotpod.Files.Defs.{
  io_block_size, File, ReadLook, Rounds, write, sync, read, advance, Written, write_loop, Read,
  read_loop, Done, mixed_loop, Operation, writes, reads, mixes, Disk, new_file, write_file,
  read_file, then_read, perform_io, full, fails, short,
}

-- A write returned: it counted no more than was asked for, and what it counted is in the file.
abbrev pub WrittenWithin : ℕ → Option Written → Type 0
WrittenWithin size none = ⊥
WrittenWithin size (some w) = (w.bytes_written ≤ w.file.size) × (w.file.size ≤ size)

write_loop-WrittenWithin :
    (fuel : ℕ) (rounds : Rounds) (do_sync : Bool) (i size remaining bytes_written : ℕ) (f : File)
    → remaining < fuel
    → bytes_written + remaining ≡ size
    → f.size ≡ bytes_written
    → f.offset ≡ bytes_written
    → WrittenWithin size (write_loop fuel rounds do_sync i remaining bytes_written f)
unfolding write_loop
write_loop-WrittenWithin zero rounds do_sync i size remaining bytes_written f h e s o = elim h [ ]
write_loop-WrittenWithin (suc fuel) rounds do_sync i size remaining bytes_written f h e s o =
    ground (
      arith,
      write_loop-WrittenWithin fuel rounds do_sync (suc i) size
          (remaining - min io_block_size remaining) (bytes_written + min io_block_size remaining)
          (write (min io_block_size remaining) f),
    )

abbrev pub ReadWithin : ℕ → ℕ → Option Read → Type 0
ReadWithin size there none = ⊥
ReadWithin size there (some r) = (r.bytes_read ≤ size) × (r.bytes_read ≤ there)

-- A read that succeeds returns from one byte to what was asked for and what is there.
pub read_some :
    (l : ReadLook) (n k : ℕ) (f : File)
    → read l n f ≡ some k
    → (0 < k) × (k ≤ n) × (f.offset + k ≤ f.size)
unfolding read
read_some full n k f e = ground arith
read_some fails n k f e = cc
read_some (short m) n k f e = ground arith

read_loop-ReadWithin :
    (fuel : ℕ) (rounds : Rounds) (i size remaining bytes_read : ℕ) (f : File)
    → remaining < fuel
    → bytes_read + remaining ≡ size
    → f.offset ≡ bytes_read
    → bytes_read ≤ f.size
    → ReadWithin size f.size (read_loop fuel rounds i remaining bytes_read f)
unfolding read_loop
read_loop-ReadWithin zero rounds i size remaining bytes_read f h e o l = elim h [ ]
read_loop-ReadWithin (suc fuel) rounds i size remaining bytes_read f h e o l =
    elim (Option-cases (read (rounds i).read (min io_block_size remaining) f)) [
      | inl n ↦ rw (n, read_loop) (ground arith)
      | inr (k, n) ↦
          let (p, q, r) = read_some (rounds i).read (min io_block_size remaining) k f n in
          rw (n, read_loop)
            (ground (
              arith,
              read_loop-ReadWithin fuel rounds (suc i) size (remaining - k) (bytes_read + k)
                  (advance k f),
            ))
    ]

-- An operation returned: what it counted is in the file, and is no more than was asked for.
abbrev pub DoneWithin : ℕ → Option Done → Type 0
DoneWithin size none = ⊥
DoneWithin size (some r) =
    (r.bytes_written ≤ r.file.size) × (r.bytes_read ≤ r.file.size) × (r.file.size ≤ size)

mixed_loop-DoneWithin :
    (fuel : ℕ) (rounds : Rounds) (do_sync write_phase : Bool)
    (i size remaining bytes_written bytes_read : ℕ) (f : File)
    → 2 * remaining < fuel
    → (write_phase ≡ true) ⊎ (2 * remaining + 1 < fuel)
    → bytes_written + remaining ≡ size
    → (write_phase ≡ true) ⊎ (bytes_read + min io_block_size remaining ≤ bytes_written)
    → bytes_read ≤ bytes_written
    → f.size ≡ bytes_written
    → f.offset ≡ bytes_written
    → DoneWithin size
        (mixed_loop fuel rounds do_sync i write_phase remaining bytes_written bytes_read f)
unfolding mixed_loop
mixed_loop-DoneWithin zero rounds do_sync p i size remaining bytes_written bytes_read f h h' e b c s
      o =
    elim h [ ]
mixed_loop-DoneWithin (suc fuel) rounds do_sync true i size remaining bytes_written bytes_read f h
      h' e b c s o =
    let block = min io_block_size remaining in
    ground (
      arith,
      mixed_loop-DoneWithin fuel rounds do_sync false (suc i) size (remaining - block)
          (bytes_written + block) bytes_read (sync do_sync (write block f)),
    )
mixed_loop-DoneWithin (suc fuel) rounds do_sync false i size remaining bytes_written bytes_read f h
      h' e b c s o =
    let block = min io_block_size remaining in
    let back = record f { offset = f.offset - block } in
    elim (Option-cases (read (rounds i).read block back)) [
      | inl n ↦ rw (n, mixed_loop) (ground arith)
      | inr (k, n) ↦
          let (p, q, r) = read_some (rounds i).read block k back n in
          rw (n, mixed_loop)
            (ground (
              arith,
              mixed_loop-DoneWithin fuel rounds do_sync true (suc i) size remaining bytes_written
                  (bytes_read + k) (record f { offset = f.size }),
            ))
    ]

read_file-ReadWithin :
    (fuel : ℕ) (d : Disk) (size : ℕ) (f : File)
    → size < fuel
    → ReadWithin size f.size (read_file fuel d size f)
unfolding read_file
read_file-ReadWithin fuel d size f h =
    ground (arith, read_loop-ReadWithin fuel d.reading 0 size size 0 (record f { offset = 0 }))

write_file-WrittenWithin :
    (fuel : ℕ) (d : Disk) (do_sync : Bool) (size : ℕ)
    → size < fuel
    → WrittenWithin size (write_file fuel d do_sync size)
unfolding write_file new_file
write_file-WrittenWithin fuel d do_sync size h =
    ground (arith, write_loop-WrittenWithin fuel d.writing do_sync 0 size size 0 new_file)

then_read-DoneWithin :
    (fuel : ℕ) (d : Disk) (size : ℕ) (w : Written)
    → size < fuel
    → w.bytes_written ≤ w.file.size
    → w.file.size ≤ size
    → DoneWithin size (then_read fuel d size w)
unfolding then_read
then_read-DoneWithin fuel d size w h l u = ground (arith, read_file-ReadWithin fuel d size w.file)

-- `performIO` returns, whatever the operating system and the context do, with fuel for two rounds a byte
-- and one more: the bytes that it reports as written are in the file, those that it reports as read were
-- there, and the file is never longer than the size that was asked for.
pub perform_io-DoneWithin :
    (fuel : ℕ) (d : Disk) (op : Operation) (do_sync : Bool) (size : ℕ)
    → 2 * size < fuel
    → DoneWithin size (perform_io fuel d op do_sync size)
unfolding perform_io new_file
perform_io-DoneWithin fuel d writes do_sync size h =
    ground (arith, write_file-WrittenWithin fuel d do_sync size)
perform_io-DoneWithin fuel d reads do_sync size h =
    elim (Option-cases (write_file fuel d false size)) [
      | inl e ↦ ground (arith, write_file-WrittenWithin fuel d false size)
      | inr (w, e) ↦
          ground
            (arith, write_file-WrittenWithin fuel d false size, then_read-DoneWithin fuel d size w)
    ]
perform_io-DoneWithin fuel d mixes do_sync size h =
    ground (arith, mixed_loop-DoneWithin fuel d.writing do_sync true 0 size size 0 0 new_file)
