-- ===== src/Kernel/Structs.antt =====
-- The structs of the kernel that the boot loader or the CPU fills: kernel/src/arch/memory/memory.h,
-- kernel/src/drivers/video/FrameBuffer.h and kernel/src/interrupts/IDT.h.
use kess_os_paranoid_edition.Base.{true, false, [], ◌∷◌}
use kess_os_paranoid_edition.Layout.{Struct, uint8, uint16, uint32, uint64, pointer, array}

unfoldable pub memdesc_t : Struct
memdesc_t = record {
  packed = false;
  fields =
      ("type", uint32)
      ∷ ("physAddr", pointer)
      ∷ ("virtAddr", pointer)
      ∷ ("nPages", uint64)
      ∷ ("attr", uint64)
      ∷ [];
}

unfoldable pub meminfo_t : Struct
meminfo_t = record {
  packed = false;
  fields = ("mMap", pointer) ∷ ("mSize", uint64) ∷ ("mDescriptorSize", uint64) ∷ [];
}

unfoldable pub framebuffer_t : Struct
framebuffer_t = record {
  packed = false;
  fields =
      ("baseAddr", pointer)
      ∷ ("bufferSize", uint64)
      ∷ ("width", uint32)
      ∷ ("height", uint32)
      ∷ ("ppsl", uint32)
      ∷ [];
}

unfoldable pub psf1_header_t : Struct
psf1_header_t = record {
  packed = false;
  fields = ("magic", array 2 uint8) ∷ ("mode", uint8) ∷ ("chsize", uint8) ∷ [];
}

unfoldable pub psf1_font_t : Struct
psf1_font_t = record {
  packed = false;
  fields = ("header", pointer) ∷ ("glyphBuffer", pointer) ∷ [];
}

-- What the CPU pushes before it enters a handler.
unfoldable pub interrupt_frame : Struct
interrupt_frame = record {
  packed = false;
  fields =
      ("rip", uint64) ∷ ("cs", uint64) ∷ ("flags", uint64) ∷ ("rsp", uint64) ∷ ("ss", uint64) ∷ [];
}

unfoldable pub idt_ptr : Struct
idt_ptr = record { packed = true; fields = ("limit", uint16) ∷ ("base", uint64) ∷ [] }
