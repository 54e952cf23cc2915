-- ===== src/Files/Defs.antt =====
-- `performIO`, `writeFile`, `readFile` and `mixedIO` of internal/handlers/io.go. The bytes are left out: a
-- file is its size and the offset of its handle. What the operating system and the context do in a round
-- of a loop is an argument. Bytes that come with an error of a read, which the source counts, are none here,
-- as `os.File` returns none. A size is not negative here, since `IO` refuses the others; the loops take
-- fuel, and `none` means that it ran out.
use hotpod.Prelude.{
  ℕ, zero, suc, ◌+◌, ◌-◌, Bool, true, false, ◌||◌, Option, none, some, ltb, if◌then◌else◌, min,
}

abbrev pub io_block_size : ℕ
io_block_size = 65536

pub record File : Type 0 where
  pub size : ℕ
  pub offset : ℕ
  -- How often `Sync` was called.
  pub syncs : ℕ

-- What a call of `Read` meets: all that there is, fewer bytes than that, or an error.
pub data ReadLook : Type 0 where
  full fails : ReadLook
  short : ℕ → ReadLook

-- A round: whether the context is done, whether the write fails, and after how many bytes, and the read.
pub record Round : Type 0 where
  pub done : Bool
  pub write_error : Option ℕ
  pub read : ReadLook

abbrev pub Rounds : Type 0
Rounds = ℕ → Round

-- `f.Write` of `n` bytes: bytes behind the end make the file longer.
unfoldable pub write : ℕ → File → File
write n f = record f {
  offset = f.offset + n;
  size = if ltb f.size (f.offset + n) then f.offset + n else f.size;
}

unfoldable pub sync : Bool → File → File
sync do_sync f = if do_sync then record f { syncs = f.syncs + 1 } else f

-- `f.Read` of `n` bytes, which returns at least one byte unless it fails: at the end of the file with
-- `io.EOF`. `none` is an error.
unfoldable pub read : ReadLook → ℕ → File → Option ℕ
read fails n f = none
read full n f = let there = min n (f.size - f.offset) in if ltb 0 there then some there else none
read (short k) n f =
    let there = min n (f.size - f.offset) in
    if ltb 0 there then some (if ltb 0 (min k there) then min k there else 1) else none

abbrev pub advance : ℕ → File → File
advance n f = record f { offset = f.offset + n }

pub record Written : Type 0 where
  pub bytes_written : ℕ
  pub cancelled : Bool
  pub file : File

-- The loop of `writeFile`, with `Sync` behind it.
unfoldable pub write_loop : ℕ → Rounds → Bool → ℕ → ℕ → ℕ → File → Option Written
unfolding write sync
write_loop zero rounds do_sync i remaining bytes_written f = none
write_loop (suc fuel) rounds do_sync i remaining bytes_written f =
    let to_write = min io_block_size remaining in
    let rest =
      write_loop fuel rounds do_sync (suc i) (remaining - to_write) (bytes_written + to_write)
        (write to_write f) in
    if ltb 0 remaining
    then (if (rounds i).done
        then some (record { bytes_written = bytes_written; cancelled = true; file = f })
        else elim (rounds i).write_error [
          | some n ↦ some (record {
            bytes_written = bytes_written;
            cancelled = false;
            file = write (min n to_write) f;
          })
          | none ↦ rest
        ])
    else some (record { bytes_written = bytes_written; cancelled = false; file = sync do_sync f })

pub record Read : Type 0 where
  pub bytes_read : ℕ
  pub cancelled : Bool

-- The loop of `readFile`.
unfoldable pub read_loop : ℕ → Rounds → ℕ → ℕ → ℕ → File → Option Read
unfolding read
read_loop zero rounds i remaining bytes_read f = none
read_loop (suc fuel) rounds i remaining bytes_read f =
    if ltb 0 remaining
    then (if (rounds i).done
        then some (record { bytes_read = bytes_read; cancelled = true })
        else elim (read (rounds i).read (min io_block_size remaining) f) [
          | none ↦ some (record { bytes_read = bytes_read; cancelled = false })
          | some n ↦ read_loop fuel rounds (suc i) (remaining - n) (bytes_read + n) (advance n f)
        ])
    else some (record { bytes_read = bytes_read; cancelled = false })

pub record Done : Type 0 where
  pub bytes_written : ℕ
  pub bytes_read : ℕ
  pub cancelled : Bool
  pub file : File

abbrev stop : ℕ → ℕ → Bool → File → Option Done
stop bytes_written bytes_read cancelled f = some (record {
  bytes_written = bytes_written;
  bytes_read = bytes_read;
  cancelled = cancelled;
  file = f;
})

-- The loop of `mixedIO`. A seek to before the start of the file is an error.
unfoldable pub mixed_loop : ℕ → Rounds → Bool → ℕ → Bool → ℕ → ℕ → ℕ → File → Option Done
unfolding write sync read
mixed_loop zero rounds do_sync i write_phase remaining bytes_written bytes_read f = none
mixed_loop (suc fuel) rounds do_sync i true remaining bytes_written bytes_read f =
    let block_size = min io_block_size remaining in
    let rest =
      mixed_loop fuel rounds do_sync (suc i) false (remaining - block_size)
        (bytes_written + block_size) bytes_read (sync do_sync (write block_size f)) in
    if ltb 0 remaining
    then (if (rounds i).done
        then stop bytes_written bytes_read true f
        else elim (rounds i).write_error [
          | some n ↦ stop bytes_written bytes_read false (write (min n block_size) f)
          | none ↦ rest
        ])
    else stop bytes_written bytes_read false f
mixed_loop (suc fuel) rounds do_sync i false remaining bytes_written bytes_read f =
    let block_size = min io_block_size remaining in
    let back = record f { offset = f.offset - block_size } in
    if ltb 0 remaining
    then (if (rounds i).done
        then stop bytes_written bytes_read true f
        else if ltb f.offset block_size
        then stop bytes_written bytes_read false f
        else elim (read (rounds i).read block_size back) [
          | none ↦ stop bytes_written bytes_read false back
          | some n ↦
              mixed_loop fuel rounds do_sync (suc i) true remaining bytes_written (bytes_read + n)
                (record f { offset = f.size })
        ])
    else stop bytes_written bytes_read false f

pub data Operation : Type 0 where
  writes reads mixes : Operation

-- What `performIO` meets outside its loops, and in them.
pub record Disk : Type 0 where
  pub mkdir_fails : Bool
  pub create_fails : Bool
  pub open_fails : Bool
  pub writing : Rounds
  pub reading : Rounds

unfoldable pub new_file : File
new_file = record { size = 0; offset = 0; syncs = 0 }

unfoldable pub write_file : ℕ → Disk → Bool → ℕ → Option Written
unfolding write_loop new_file
write_file fuel d do_sync size =
    if d.create_fails
    then some (record { bytes_written = 0; cancelled = false; file = new_file })
    else write_loop fuel d.writing do_sync 0 size 0 new_file

unfoldable pub read_file : ℕ → Disk → ℕ → File → Option Read
unfolding read_loop
read_file fuel d size f =
    if d.open_fails || d.create_fails
    then some (record { bytes_read = 0; cancelled = false })
    else read_loop fuel d.reading 0 size 0 (record f { offset = 0 })

-- The reading after the writing, for the operation `read`.
unfoldable pub then_read : ℕ → Disk → ℕ → Written → Option Done
unfolding read_file
then_read fuel d size w =
    if w.cancelled
    then stop w.bytes_written 0 true w.file
    else elim (read_file fuel d size w.file) [
      | none ↦ none
      | some r ↦ stop w.bytes_written r.bytes_read r.cancelled w.file
    ]

unfoldable pub perform_io : ℕ → Disk → Operation → Bool → ℕ → Option Done
unfolding write_file then_read mixed_loop new_file
perform_io fuel d op do_sync size = if d.mkdir_fails then stop 0 0 false new_file else elim op [
  | writes ↦ elim (write_file fuel d do_sync size) [
    | none ↦ none
    | some w ↦ stop w.bytes_written 0 w.cancelled w.file
  ]
  | reads ↦ elim (write_file fuel d false size) [ none ↦ none | some w ↦ then_read fuel d size w ]
  | mixes ↦
      if d.create_fails
      then stop 0 0 false new_file
      else mixed_loop fuel d.writing do_sync 0 true size 0 0 new_file
]
