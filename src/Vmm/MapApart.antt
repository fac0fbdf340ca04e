-- ===== src/Vmm/MapApart.antt =====
-- A memory map that lies apart from the frame buffer is read the same where text is drawn.
use kess_os_paranoid_edition.Base.{ℕ, zero, suc, ◌+◌, ◌≤◌, ◌<◌, ◌≡◌, refl, arith}
use kess_os_paranoid_edition.Memory.{Memory}
use kess_os_paranoid_edition.Memory.Same.{Same, Same-part, load32-Same, load64-Same}
use kess_os_paranoid_edition.MemoryMap.{MemDesc, load_desc, MemInfo, mmap_iterator_helper}
use kess_os_paranoid_edition.Screen.{Framebuffer}
use kess_os_paranoid_edition.Screen.Glyph.{IsOutside}
use kess_os_paranoid_edition.Screen.Room.{Agrees}
use kess_os_paranoid_edition.Vmm.{biggest_loop}
use kess_os_paranoid_edition.Vmm.Segment.{desc}

-- The first `n` descriptors share no byte with the frame buffer.
pub record IsMapApart (fb : Framebuffer) (info : MemInfo) (n : ℕ) : Type 0 where
  pub outside : (j k : ℕ) → j < n → k < 40 → IsOutside fb (mmap_iterator_helper j info + k)

load_desc-Same : (m m' : Memory) (p : ℕ) → Same m m' p 40 → load_desc m' p ≡ load_desc m p
unfolding load_desc
load_desc-Same m m' p h =
    let type = load32-Same m m' p (Same-part m m' p 40 p 4 h 0 (omega arith) (omega arith)) in
    let field = λ (d : ℕ) (room : d + 8 < 41).
      load64-Same m m' (p + d) (Same-part m m' p 40 (p + d) 8 h d refl room) in
    rw
      (
        type,
        field 8 (omega arith),
        field 16 (omega arith),
        field 24 (omega arith),
        field 32 (omega arith),
      )
      refl

module _ (fb : Framebuffer) (info : MemInfo) (n : ℕ) (apart : IsMapApart fb info n) (m m' : Memory)
    (same : Agrees fb m m') where
  desc-Agrees : (j : ℕ) → j < n → desc m' info j ≡ desc m info j
  desc-Agrees j less =
      load_desc-Same m m' (mmap_iterator_helper j info) (λ k h. same _ (apart.outside j k less h))

  pub biggest_loop-Agrees :
      (left i : ℕ) (b : MemDesc)
      → i + left ≤ n
      → biggest_loop m' info left i b ≡ biggest_loop m info left i b
  unfolding biggest_loop
  biggest_loop-Agrees zero i b h = refl
  biggest_loop-Agrees (suc left) i b h =
      rw (desc-Agrees i (omega arith)) (biggest_loop-Agrees left (i + 1) _ (omega arith))
