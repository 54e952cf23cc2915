-- ===== src/Files/Examples.antt =====
-- The loops of internal/handlers/io.go on small files: witnesses and tests.
use hotpod.Prelude.{◌≡◌, refl, none, some, true, false, ltb, if◌then◌else◌, arith}
use hotpod.Files.Defs.{
  Disk, reads, mixes, perform_io, short, write, read, write_loop, read_loop, mixed_loop, new_file,
  write_file, read_file, then_read, sync,
}
use hotpod.Files.Bounds.{DoneWithin, perform_io-DoneWithin}
use hotpod.Files.Quiet.{DoneAs, calm, perform_io-AllDone}

abbrev calm_disk : Disk
calm_disk = record {
  mkdir_fails = false;
  create_fails = false;
  open_fails = false;
  writing = λ i. calm;
  reading = λ i. calm;
}

-- The third block is not written whole, and reads are short.
abbrev full_disk : Disk
full_disk = record {
  mkdir_fails = false;
  create_fails = false;
  open_fails = false;
  writing = λ i. record {
    done = false;
    write_error = if ltb 1 i then some 7 else none;
    read = short 1000;
  };
  reading = λ i. record { done = ltb 5 i; write_error = none; read = short 1000 };
}

perform_io-DoneWithin_example : DoneWithin 200000 (perform_io 400001 full_disk reads true 200000)
perform_io-DoneWithin_example =
    perform_io-DoneWithin 400001 full_disk reads true 200000 (omega arith)

perform_io-AllDone_example :
    DoneAs mixes true 200000 (perform_io 400001 calm_disk mixes true 200000)
perform_io-AllDone_example =
    perform_io-AllDone 400001 calm_disk mixes true 200000 (refl, refl, refl, λ i. refl, λ i. refl)
      (omega arith)

-- A short write counts nothing of the block that it broke off in.
broken_off :
    perform_io 8 full_disk reads true 200000
    ≡ some (record {
      bytes_written = 131072;
      bytes_read = 6000;
      cancelled = true;
      file = record { size = 131079; offset = 131079; syncs = 0 };
    })
unfolding perform_io write_file then_read read_file write_loop read_loop write read new_file
broken_off = refl

-- Nothing of a file of one block is read by the mixed operation.
one_block :
    perform_io 8 calm_disk mixes true 65536
    ≡ some (record {
      bytes_written = 65536;
      bytes_read = 0;
      cancelled = false;
      file = record { size = 65536; offset = 65536; syncs = 1 };
    })
unfolding perform_io mixed_loop write sync read new_file
one_block = refl
