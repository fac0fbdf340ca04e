-- ===== src/MemoryMap/Tests.antt =====
-- Tests of kernel/src/arch/memory/impl/memory.c.
use kess_os_paranoid_edition.Base.{◌*◌, ◌≡◌, refl, arith, some, ◌==◌, if◌then◌else◌, u64}
use kess_os_paranoid_edition.Memory.{Memory, load64}
use kess_os_paranoid_edition.Memory.Same.{Same}
use kess_os_paranoid_edition.MemoryMap.{get_mem_size}
use kess_os_paranoid_edition.MemoryMap.Size.{overlapping, get_mem_size-Overlaps}

-- Three descriptors of 48 bytes at 0x1000, of 1, 2 and 3 pages.
unfoldable three_descs : Memory
three_descs q = if q == 0x1018 then 1 else if q == 0x1048 then 2 else if q == 0x1078 then 3 else 0

-- The same with the first and the last left empty.
unfoldable one_desc : Memory
one_desc q = if q == 0x1048 then 2 else 0

sizes : get_mem_size three_descs 0x1000 3 48 ≡ some (2 * 4096)
unfolding get_mem_size three_descs load64
sizes = refl

three_descs-Same : Same one_desc three_descs 0x1048 10
unfolding one_desc three_descs
three_descs-Same k less = ground arith

get_mem_size-Overlaps_example :
    get_mem_size three_descs 0x1000 3 48 ≡ some (u64 (4096 * overlapping one_desc 0x1048 3))
get_mem_size-Overlaps_example =
    get_mem_size-Overlaps one_desc three_descs 0x1000 3 48 (omega arith) (omega arith)
      three_descs-Same
