-- ===== src/Kernel/BlockDevice/MemoryDisk.antt =====
-- A disk in memory, on which the tests run: it keeps the promise that a driver makes.
use stuos.Prelude.{ℕ, ◌==◌, ltb, ◌&&◌, if◌then◌else◌, arith}
use stuos.Kernel.BlockDevice.{Driver}

abbrev pub Disk : Type 0
Disk = ℕ → ℕ → ℕ

instance abbrev pub memory_disk : Driver Disk
memory_disk = record {
  block_read = λ d n. d n;
  block_write = λ d n v m i. if (m == n) && ltb i 512 then v i else d m i;
  block_read-block_write = λ d n v m i small. ground arith;
}
