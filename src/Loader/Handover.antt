-- ===== src/Loader/Handover.antt =====
-- The structs that gnu-efi/bootloader/main.c fills or takes from the firmware, and those of the
-- kernel that read them.
use kess_os_paranoid_edition.Base.{[], ◌∷◌, ◌++◌, ℕ, ◌+◌, ◌≡◌, refl}
use native.Mathlib.Nat.{add-zero}
use kess_os_paranoid_edition.Memory.{Memory, load16, load64}
use kess_os_paranoid_edition.MemoryMap.{msegments, MemDesc, load_desc}
use kess_os_paranoid_edition.Screen.{Framebuffer, Font}
use kess_os_paranoid_edition.Layout.{Struct, field}
use kess_os_paranoid_edition.Kernel.Structs as Kernel
use kess_os_paranoid_edition.Loader.Structs as Loader
use kess_os_paranoid_edition.Loader.Structs.{
  efi_loaded_image_protocol, efi_graphics_output_mode_information,
  efi_graphics_output_protocol_mode, efi_graphics_output_protocol, efi_memory_descriptor,
  efi_configuration_table, efi_system_table, efi_boot_services, efi_simple_file_system_protocol,
  efi_file_protocol, simple_input_interface, efi_input_key, efi_memory_types,
}
use kess_os_paranoid_edition.Loader.Load.{
  framebuffer_at, font_at, mode_framebuffer, device_handle, number_of_table_entries,
  configuration_table,
}
use kess_os_paranoid_edition.Loader.{vendor_table_at}

-- The kernel's names of the types of memory are the firmware's, by number.
abbrev pub SameNames : Type 0
SameNames = efi_memory_types ≡ msegments ++ ("EfiMaxMemoryType" ∷ [])

-- The records that hold the fields of a struct at `p`.
module _ (m : Memory) (p : ℕ) where
  abbrev framebuffer_of : Struct → Framebuffer
  framebuffer_of s = record {
    base_addr = field s "baseAddr" m p;
    buffer_size = field s "bufferSize" m p;
    width = field s "width" m p;
    height = field s "height" m p;
    ppsl = field s "ppsl" m p;
  }

  abbrev font_of : Struct → Struct → Font
  font_of s header_struct =
      let header = field s "header" m p in
      record {
        magic0 = m header;
        magic1 = m (header + 1);
        mode = field header_struct "mode" m header;
        chsize = field header_struct "chsize" m header;
        glyph_buffer = field s "glyphBuffer" m p;
      }

  abbrev kernel_desc : MemDesc
  kernel_desc = record {
    type = field Kernel.memdesc_t "type" m p;
    phys_addr = field Kernel.memdesc_t "physAddr" m p;
    virt_addr = field Kernel.memdesc_t "virtAddr" m p;
    n_pages = field Kernel.memdesc_t "nPages" m p;
    attr = field Kernel.memdesc_t "attr" m p;
  }

  abbrev firmware_desc : MemDesc
  firmware_desc = record {
    type = field efi_memory_descriptor "Type" m p;
    phys_addr = field efi_memory_descriptor "PhysicalStart" m p;
    virt_addr = field efi_memory_descriptor "VirtualStart" m p;
    n_pages = field efi_memory_descriptor "NumberOfPages" m p;
    attr = field efi_memory_descriptor "Attribute" m p;
  }

  abbrev mode_of : Framebuffer
  mode_of =
      let mode = field efi_graphics_output_protocol "Mode" m p in
      let info = field efi_graphics_output_protocol_mode "Info" m mode in
      record {
        base_addr = field efi_graphics_output_protocol_mode "FrameBufferBase" m mode;
        buffer_size = field efi_graphics_output_protocol_mode "FrameBufferSize" m mode;
        width = field efi_graphics_output_mode_information "HorizontalResolution" m info;
        height = field efi_graphics_output_mode_information "VerticalResolution" m info;
        ppsl = field efi_graphics_output_mode_information "PixelsPerScanLine" m info;
      }

  -- Both sides read the same of the frame buffer, of the font and of a memory descriptor.
  pub record IsShared : Type 0 where
    pub framebuffer_filled : framebuffer_at m p ≡ framebuffer_of Loader.framebuffer_t
    pub framebuffer_read : framebuffer_at m p ≡ framebuffer_of Kernel.framebuffer_t
    pub font_filled : font_at m p ≡ font_of Loader.psf1_font_t Loader.psf1_header_t
    pub font_read : font_at m p ≡ font_of Kernel.psf1_font_t Kernel.psf1_header_t
    pub desc_filled : load_desc m p ≡ firmware_desc
    pub desc_read : load_desc m p ≡ kernel_desc
    pub mode_read : mode_framebuffer m p ≡ mode_of

  -- Where the loader looks for the device of its image and for the firmware's tables.
  pub record IsLocated : Type 0 where
    pub device : device_handle m p ≡ field efi_loaded_image_protocol "DeviceHandle" m p
    pub entries : number_of_table_entries m p ≡ field efi_system_table "NumberOfTableEntries" m p
    pub config_table : configuration_table m p ≡ field efi_system_table "ConfigurationTable" m p
    pub vendor_table : vendor_table_at m p ≡ field efi_configuration_table "VendorTable" m p

  -- Where the compiled loader takes the services that are the parameter of Loader.Firmware from.
  pub record IsServed : Type 0 where
    pub boot_services : load64 m (p + 96) ≡ field efi_system_table "BootServices" m p
    pub con_in : load64 m (p + 48) ≡ field efi_system_table "ConIn" m p
    pub allocate_pages : load64 m (p + 40) ≡ field efi_boot_services "AllocatePages" m p
    pub get_memory_map : load64 m (p + 56) ≡ field efi_boot_services "GetMemoryMap" m p
    pub allocate_pool : load64 m (p + 64) ≡ field efi_boot_services "AllocatePool" m p
    pub handle_protocol : load64 m (p + 152) ≡ field efi_boot_services "HandleProtocol" m p
    pub exit_boot_services : load64 m (p + 232) ≡ field efi_boot_services "ExitBootServices" m p
    pub locate_protocol : load64 m (p + 320) ≡ field efi_boot_services "LocateProtocol" m p
    pub open_volume : load64 m (p + 8) ≡ field efi_simple_file_system_protocol "OpenVolume" m p
    pub open_file : load64 m (p + 8) ≡ field efi_file_protocol "Open" m p
    pub read : load64 m (p + 32) ≡ field efi_file_protocol "Read" m p
    pub set_position : load64 m (p + 56) ≡ field efi_file_protocol "SetPosition" m p
    pub get_info : load64 m (p + 64) ≡ field efi_file_protocol "GetInfo" m p
    pub read_key_stroke : load64 m (p + 8) ≡ field simple_input_interface "ReadKeyStroke" m p
    pub scan_code : load16 m p ≡ field efi_input_key "ScanCode" m p

  -- The services are at those fields.
  pub served : IsServed
  unfolding field efi_system_table efi_boot_services efi_simple_file_system_protocol
      efi_file_protocol simple_input_interface efi_input_key
  served = record {
    boot_services = refl;
    con_in = refl;
    allocate_pages = refl;
    get_memory_map = refl;
    allocate_pool = refl;
    handle_protocol = refl;
    exit_boot_services = refl;
    locate_protocol = refl;
    open_volume = refl;
    open_file = refl;
    read = refl;
    set_position = refl;
    get_info = refl;
    read_key_stroke = refl;
    scan_code = rw add-zero refl;
  }
