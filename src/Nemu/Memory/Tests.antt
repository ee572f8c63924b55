-- ===== src/Nemu/Memory/Tests.antt =====
-- The theorems of Memory at concrete machines.
use projects_demonstration.Base.{◌≡◌, refl, some, [], inl, arith}
use projects_demonstration.Nemu.{Machine, ◌>>◌}
use projects_demonstration.Nemu.Example.{machine_with}
use projects_demonstration.Nemu.Memory.{store, paddr_read, paddr_write}
use projects_demonstration.Nemu.Memory.Laws.{paddr_write_then_read}

abbrev nothing : Machine
nothing = machine_with []

abbrev written : Machine
written = record nothing { host = store nothing.host 0x100 0x12345678 4 }

paddr_write_then_read_example :
    ((paddr_write 0x100 0x12345678 4 >> paddr_read 0x100 4) nothing ≡ some (0x12345678, written))
    × ((paddr_write 0x100 0x12345678 4 >> paddr_read 0x104 2) nothing ≡ some (0, written))
paddr_write_then_read_example =
    paddr_write_then_read 0x100 0x12345678 4 0x104 2 nothing refl refl (omega arith) (omega arith)
      (omega arith) (inl (omega arith))
