-- ===== src/MemoryMap.antt =====
-- kernel/src/arch/memory: the memory map that the boot loader hands over.
pub mod Size
mod Tests
use Prim.Native.String.{String}
use kess_os_paranoid_edition.Base.{
  List, [], ◌∷◌, ℕ, zero, suc, ◌+◌, ◌*◌, ◌/◌, ◌-◌, ◌^◌, Option, none, some, ◌≡◌, arith, ◌==◌,
  if◌then◌else◌, u64,
}
use kess_os_paranoid_edition.Memory.{Memory, load32, load64}

abbrev pub page_size : ℕ
page_size = 4096

-- `mem_type_t`
pub data MemType : Type 0 where
  mmap_reserved mmap_efi_loader_code mmap_efi_loader_data : MemType
  mmap_efi_bootservices_code mmap_efi_bootservices_data : MemType
  mmap_efi_runtime_services_code mmap_efi_runtime_services_data : MemType
  usable_memory mmap_unusable_memory mmap_acpi_reclaim_memory mmap_acpi_memory_nvs : MemType
  mmap_memory_mapped_io mmap_memory_mapped_io_port_space mmap_efi_pal_code : MemType

-- The numbers of an enumeration go by the order of its names.
unfoldable pub number : MemType → ℕ
number mmap_reserved = 0
number mmap_efi_loader_code = 1
number mmap_efi_loader_data = 2
number mmap_efi_bootservices_code = 3
number mmap_efi_bootservices_data = 4
number mmap_efi_runtime_services_code = 5
number mmap_efi_runtime_services_data = 6
number usable_memory = 7
number mmap_unusable_memory = 8
number mmap_acpi_reclaim_memory = 9
number mmap_acpi_memory_nvs = 10
number mmap_memory_mapped_io = 11
number mmap_memory_mapped_io_port_space = 12
number mmap_efi_pal_code = 13

-- `MMAP_USABLE_MEMORY`
abbrev pub mmap_usable_memory : ℕ
mmap_usable_memory = 7

-- It is the number of no other type.
pub number-usable : (t : MemType) → number t ≡ mmap_usable_memory → t ≡ usable_memory
unfolding number
number-usable t e = ground arith

-- The names of the types, for people.
unfoldable pub msegments : List String
msegments =
    "EfiReservedMemoryType" ∷ "EfiLoaderCode" ∷ "EfiLoaderData" ∷ "EfiBootServicesCode"
    ∷ "EfiBootServicesData" ∷ "EfiRuntimeServicesCode" ∷ "EfiRuntimeServicesData"
    ∷ "EfiConventionalMemory" ∷ "EfiUnusableMemory" ∷ "EfiACPIReclaimMemory" ∷ "EfiACPIMemoryNVS"
    ∷ "EfiMemoryMappedIO" ∷ "EfiMemoryMappedIOPortSpace" ∷ "EfiPalCode" ∷ []

-- `memdesc_t`
pub record MemDesc : Type 0 where
  pub type : ℕ
  pub phys_addr : ℕ
  pub virt_addr : ℕ
  pub n_pages : ℕ
  pub attr : ℕ

-- The struct at an address: four bytes of padding follow `type`.
unfoldable pub load_desc : Memory → ℕ → MemDesc
load_desc m p = record {
  type = load32 m p;
  phys_addr = load64 m (p + 8);
  virt_addr = load64 m (p + 16);
  n_pages = load64 m (p + 24);
  attr = load64 m (p + 32);
}

-- `meminfo_t`
pub record MemInfo : Type 0 where
  pub m_map : ℕ
  pub m_size : ℕ
  pub m_descriptor_size : ℕ

-- `none` is the divide error of a descriptor size of zero.
unfoldable pub get_mmap_entries : MemInfo → Option ℕ
get_mmap_entries i =
    if i.m_descriptor_size == 0 then none else some (i.m_size / i.m_descriptor_size)

unfoldable pub mmap_iterator_helper : ℕ → MemInfo → ℕ
mmap_iterator_helper i info = u64 (info.m_map + i * info.m_descriptor_size)

-- The loop of `getMemSize` at `entry`, with `left` rounds to go. `entry` is an int:
-- `none` is the signed overflow of its increment.
unfoldable pub mem_size_loop : Memory → ℕ → ℕ → ℕ → ℕ → ℕ → Option ℕ
mem_size_loop m m_map desc_size zero entry total = some total
mem_size_loop m m_map desc_size (suc left) entry total =
    let desc = load_desc m (u64 (m_map + (entry + desc_size))) in
    let rest =
      mem_size_loop m m_map desc_size left (entry + 1) (u64 (total + desc.n_pages * 4096)) in
    if entry == 2 ^ 31 - 1 then none else rest

unfoldable pub get_mem_size : Memory → ℕ → ℕ → ℕ → Option ℕ
unfolding mem_size_loop load_desc
get_mem_size m m_map entry_count desc_size = mem_size_loop m m_map desc_size entry_count 0 0
