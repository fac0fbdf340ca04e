-- ===== src/Loader/Structs.antt =====
-- The structs of gnu-efi/bootloader/main.c, and those of the firmware that it reads, from gnu-efi/inc.
use Prim.Native.String.{String}
use kess_os_paranoid_edition.Base.{List, false, [], ◌∷◌}
use kess_os_paranoid_edition.Layout.{Struct, uint8, uint16, uint32, uint64, pointer, array, nested}

unfoldable pub framebuffer_t : Struct
framebuffer_t = record {
  packed = false;
  fields =
      ("baseAddr", pointer)
      ∷ ("bufferSize", uint64)
      ∷ ("width", uint32)
      ∷ ("height", uint32)
      ∷ ("ppsl", uint32)
      ∷ [];
}

unfoldable pub psf1_header_t : Struct
psf1_header_t = record {
  packed = false;
  fields = ("magic", array 2 uint8) ∷ ("mode", uint8) ∷ ("chsize", uint8) ∷ [];
}

unfoldable pub psf1_font_t : Struct
psf1_font_t = record {
  packed = false;
  fields = ("header", pointer) ∷ ("glyphBuffer", pointer) ∷ [];
}

unfoldable pub meminfo_t : Struct
meminfo_t = record {
  packed = false;
  fields = ("mMap", pointer) ∷ ("mSize", uint64) ∷ ("mDescriptorSize", uint64) ∷ [];
}

unfoldable pub efi_guid : Struct
efi_guid = record {
  packed = false;
  fields =
      ("Data1", uint32) ∷ ("Data2", uint16) ∷ ("Data3", uint16) ∷ ("Data4", array 8 uint8) ∷ [];
}

unfoldable pub efi_memory_descriptor : Struct
efi_memory_descriptor = record {
  packed = false;
  fields =
      ("Type", uint32)
      ∷ ("Pad", uint32)
      ∷ ("PhysicalStart", uint64)
      ∷ ("VirtualStart", uint64)
      ∷ ("NumberOfPages", uint64)
      ∷ ("Attribute", uint64)
      ∷ [];
}

-- EFI_MEMORY_TYPE is an enumeration.
unfoldable pub efi_loaded_image_protocol : Struct
efi_loaded_image_protocol = record {
  packed = false;
  fields =
      ("Revision", uint32)
      ∷ ("ParentHandle", pointer)
      ∷ ("SystemTable", pointer)
      ∷ ("DeviceHandle", pointer)
      ∷ ("FilePath", pointer)
      ∷ ("Reserved", pointer)
      ∷ ("LoadOptionsSize", uint32)
      ∷ ("LoadOptions", pointer)
      ∷ ("ImageBase", pointer)
      ∷ ("ImageSize", uint64)
      ∷ ("ImageCodeType", uint32)
      ∷ ("ImageDataType", uint32)
      ∷ ("Unload", pointer)
      ∷ [];
}

unfoldable pub efi_pixel_bitmask : Struct
efi_pixel_bitmask = record {
  packed = false;
  fields =
      ("RedMask", uint32)
      ∷ ("GreenMask", uint32)
      ∷ ("BlueMask", uint32)
      ∷ ("ReservedMask", uint32)
      ∷ [];
}

-- EFI_GRAPHICS_PIXEL_FORMAT is an enumeration.
unfoldable pub efi_graphics_output_mode_information : Struct
unfolding nested efi_pixel_bitmask
efi_graphics_output_mode_information = record {
  packed = false;
  fields =
      ("Version", uint32)
      ∷ ("HorizontalResolution", uint32)
      ∷ ("VerticalResolution", uint32)
      ∷ ("PixelFormat", uint32)
      ∷ ("PixelInformation", nested efi_pixel_bitmask)
      ∷ ("PixelsPerScanLine", uint32)
      ∷ [];
}

unfoldable pub efi_graphics_output_protocol_mode : Struct
efi_graphics_output_protocol_mode = record {
  packed = false;
  fields =
      ("MaxMode", uint32)
      ∷ ("Mode", uint32)
      ∷ ("Info", pointer)
      ∷ ("SizeOfInfo", uint64)
      ∷ ("FrameBufferBase", uint64)
      ∷ ("FrameBufferSize", uint64)
      ∷ [];
}

unfoldable pub efi_graphics_output_protocol : Struct
efi_graphics_output_protocol = record {
  packed = false;
  fields =
      ("QueryMode", pointer) ∷ ("SetMode", pointer) ∷ ("Blt", pointer) ∷ ("Mode", pointer) ∷ [];
}

unfoldable pub efi_table_header : Struct
efi_table_header = record {
  packed = false;
  fields =
      ("Signature", uint64)
      ∷ ("Revision", uint32)
      ∷ ("HeaderSize", uint32)
      ∷ ("CRC32", uint32)
      ∷ ("Reserved", uint32)
      ∷ [];
}

unfoldable pub efi_configuration_table : Struct
unfolding nested efi_guid
efi_configuration_table = record {
  packed = false;
  fields = ("VendorGuid", nested efi_guid) ∷ ("VendorTable", pointer) ∷ [];
}

unfoldable pub efi_system_table : Struct
unfolding nested efi_table_header
efi_system_table = record {
  packed = false;
  fields =
      ("Hdr", nested efi_table_header)
      ∷ ("FirmwareVendor", pointer)
      ∷ ("FirmwareRevision", uint32)
      ∷ ("ConsoleInHandle", pointer)
      ∷ ("ConIn", pointer)
      ∷ ("ConsoleOutHandle", pointer)
      ∷ ("ConOut", pointer)
      ∷ ("StandardErrorHandle", pointer)
      ∷ ("StdErr", pointer)
      ∷ ("RuntimeServices", pointer)
      ∷ ("BootServices", pointer)
      ∷ ("NumberOfTableEntries", uint64)
      ∷ ("ConfigurationTable", pointer)
      ∷ [];
}

-- The services, as pointers to functions.
unfoldable pub efi_boot_services : Struct
unfolding nested efi_table_header
efi_boot_services = record {
  packed = false;
  fields =
      ("Hdr", nested efi_table_header)
      ∷ ("RaiseTPL", pointer)
      ∷ ("RestoreTPL", pointer)
      ∷ ("AllocatePages", pointer)
      ∷ ("FreePages", pointer)
      ∷ ("GetMemoryMap", pointer)
      ∷ ("AllocatePool", pointer)
      ∷ ("FreePool", pointer)
      ∷ ("CreateEvent", pointer)
      ∷ ("SetTimer", pointer)
      ∷ ("WaitForEvent", pointer)
      ∷ ("SignalEvent", pointer)
      ∷ ("CloseEvent", pointer)
      ∷ ("CheckEvent", pointer)
      ∷ ("InstallProtocolInterface", pointer)
      ∷ ("ReinstallProtocolInterface", pointer)
      ∷ ("UninstallProtocolInterface", pointer)
      ∷ ("HandleProtocol", pointer)
      ∷ ("PCHandleProtocol", pointer)
      ∷ ("RegisterProtocolNotify", pointer)
      ∷ ("LocateHandle", pointer)
      ∷ ("LocateDevicePath", pointer)
      ∷ ("InstallConfigurationTable", pointer)
      ∷ ("LoadImage", pointer)
      ∷ ("StartImage", pointer)
      ∷ ("Exit", pointer)
      ∷ ("UnloadImage", pointer)
      ∷ ("ExitBootServices", pointer)
      ∷ ("GetNextMonotonicCount", pointer)
      ∷ ("Stall", pointer)
      ∷ ("SetWatchdogTimer", pointer)
      ∷ ("ConnectController", pointer)
      ∷ ("DisconnectController", pointer)
      ∷ ("OpenProtocol", pointer)
      ∷ ("CloseProtocol", pointer)
      ∷ ("OpenProtocolInformation", pointer)
      ∷ ("ProtocolsPerHandle", pointer)
      ∷ ("LocateHandleBuffer", pointer)
      ∷ ("LocateProtocol", pointer)
      ∷ ("InstallMultipleProtocolInterfaces", pointer)
      ∷ ("UninstallMultipleProtocolInterfaces", pointer)
      ∷ ("CalculateCrc32", pointer)
      ∷ ("CopyMem", pointer)
      ∷ ("SetMem", pointer)
      ∷ ("CreateEventEx", pointer)
      ∷ [];
}

unfoldable pub efi_simple_file_system_protocol : Struct
efi_simple_file_system_protocol = record {
  packed = false;
  fields = ("Revision", uint64) ∷ ("OpenVolume", pointer) ∷ [];
}

unfoldable pub efi_file_protocol : Struct
efi_file_protocol = record {
  packed = false;
  fields =
      ("Revision", uint64)
      ∷ ("Open", pointer)
      ∷ ("Close", pointer)
      ∷ ("Delete", pointer)
      ∷ ("Read", pointer)
      ∷ ("Write", pointer)
      ∷ ("GetPosition", pointer)
      ∷ ("SetPosition", pointer)
      ∷ ("GetInfo", pointer)
      ∷ ("SetInfo", pointer)
      ∷ ("Flush", pointer)
      ∷ ("OpenEx", pointer)
      ∷ ("ReadEx", pointer)
      ∷ ("WriteEx", pointer)
      ∷ ("FlushEx", pointer)
      ∷ [];
}

unfoldable pub simple_input_interface : Struct
simple_input_interface = record {
  packed = false;
  fields = ("Reset", pointer) ∷ ("ReadKeyStroke", pointer) ∷ ("WaitForKey", pointer) ∷ [];
}

unfoldable pub efi_input_key : Struct
efi_input_key = record {
  packed = false;
  fields = ("ScanCode", uint16) ∷ ("UnicodeChar", uint16) ∷ [];
}

-- EFI_MEMORY_TYPE, in the order of its numbers.
unfoldable pub efi_memory_types : List String
efi_memory_types =
    "EfiReservedMemoryType" ∷ "EfiLoaderCode" ∷ "EfiLoaderData" ∷ "EfiBootServicesCode"
    ∷ "EfiBootServicesData" ∷ "EfiRuntimeServicesCode" ∷ "EfiRuntimeServicesData"
    ∷ "EfiConventionalMemory" ∷ "EfiUnusableMemory" ∷ "EfiACPIReclaimMemory" ∷ "EfiACPIMemoryNVS"
    ∷ "EfiMemoryMappedIO" ∷ "EfiMemoryMappedIOPortSpace" ∷ "EfiPalCode" ∷ "EfiMaxMemoryType" ∷ []
