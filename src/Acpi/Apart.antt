-- ===== src/Acpi/Apart.antt =====
-- Tables of ACPI that lie apart from the frame buffer are read the same where text is drawn.
use kess_os_paranoid_edition.Base.{
  ℕ, zero, suc, ◌+◌, ◌-◌, ◌*◌, ◌/◌, ◌^◌, ◌≤◌, ◌<◌, ◌≡◌, refl, arith, u32,
}
use kess_os_paranoid_edition.Memory.{Memory}
use kess_os_paranoid_edition.Memory.Same.{Same, Same-part, at-Same, load32-Same}
use kess_os_paranoid_edition.Screen.{Framebuffer}
use kess_os_paranoid_edition.Screen.Glyph.{IsOutside}
use kess_os_paranoid_edition.Screen.Room.{Agrees}
use kess_os_paranoid_edition.Strings.{strncmp, strncmp_loop}
use kess_os_paranoid_edition.Acpi.{header_size, header_length, rsdt_addr, table_at}
use kess_os_paranoid_edition.Acpi.Search.{byte_sum}

module _ (m m' : Memory) where
  strncmp_loop-Same :
      (n p q : ℕ) → Same m m' p n → Same m m' q n → strncmp_loop n p q m' ≡ strncmp_loop n p q m
  unfolding strncmp_loop
  strncmp_loop-Same zero p q hp hq = refl
  strncmp_loop-Same (suc n) p q hp hq =
      let here = at-Same m m' p (suc n) p hp 0 (omega arith) (omega arith) in
      let there = at-Same m m' q (suc n) q hq 0 (omega arith) (omega arith) in
      let rest =
        strncmp_loop-Same n (p + 1) (q + 1)
          (Same-part m m' p (suc n) (p + 1) n hp 1 refl (omega arith))
          (Same-part m m' q (suc n) (q + 1) n hq 1 refl (omega arith)) in
      rw (here, there, rest) refl

  pub strncmp-Same :
      (p q n : ℕ) → n < 2 ^ 32 → Same m m' p n → Same m m' q n → strncmp p q n m' ≡ strncmp p q n m
  unfolding strncmp
  strncmp-Same p q n small hp hq =
      let same : u32 n ≡ n = omega arith in rw same (strncmp_loop-Same n p q hp hq)

  pub byte_sum-Same : (n p : ℕ) → Same m m' p n → byte_sum m' p n ≡ byte_sum m p n
  byte_sum-Same zero p h = refl
  byte_sum-Same (suc n) p h =
      let here = at-Same m m' p (suc n) p h 0 (omega arith) (omega arith) in
      let rest =
        byte_sum-Same n (p + 1) (Same-part m m' p (suc n) (p + 1) n h 1 refl (omega arith)) in
      omega arith

-- What `acpi_init` reads shares no byte with the frame buffer: the literals, the RSDP, the RSDT and
-- the signatures of the tables that it lists.
pub record IsTablesApart (fb : Framebuffer) (apic_signature rsdp_signature rsdp : ℕ) (m : Memory)
    : Type 0 where
  pub apic : (k : ℕ) → k < 4 → IsOutside fb (apic_signature + k)
  pub signature : (k : ℕ) → k < 7 → IsOutside fb (rsdp_signature + k)
  pub pointer : (k : ℕ) → k < 20 → IsOutside fb (rsdp + k)
  pub table : (k : ℕ) → k < header_length m (rsdt_addr m rsdp) → IsOutside fb (rsdt_addr m rsdp + k)
  pub listed :
      (j k : ℕ)
      → j < (header_length m (rsdt_addr m rsdp) - header_size) / 4
      → k < 4
      → IsOutside fb (table_at m (rsdt_addr m rsdp) j + k)

module _ {fb : Framebuffer} {apic_signature rsdp_signature rsdp : ℕ} {m : Memory}
    (apart : IsTablesApart fb apic_signature rsdp_signature rsdp m) (m' : Memory)
    (same : Agrees fb m m') where
  abbrev root : ℕ
  root = rsdt_addr m rsdp

  pub rsdt_addr-Agrees : rsdt_addr m' rsdp ≡ rsdt_addr m rsdp
  unfolding rsdt_addr
  rsdt_addr-Agrees = load32-Same m m' (rsdp + 16) (
      Same-part m m' rsdp 20 (rsdp + 16) 4 (λ k h. same _ (apart.pointer k h)) 16 refl
        (omega arith))

  pub signature-Agrees : strncmp rsdp rsdp_signature 7 m' ≡ strncmp rsdp rsdp_signature 7 m
  signature-Agrees =
      strncmp-Same m m' rsdp rsdp_signature 7 (omega arith)
        (λ k h. same _ (apart.pointer k (omega arith))) (λ k h. same _ (apart.signature k h))

  module _ (covers : header_size ≤ header_length m root) where
    whole : Same m m' root (header_length m root)
    whole k h = same _ (apart.table k h)

    pub header_length-Agrees : header_length m' root ≡ header_length m root
    unfolding header_length
    header_length-Agrees =
        load32-Same m m' (root + 4)
          (Same-part m m' root (header_length m root) (root + 4) 4 whole 4 refl (omega arith))

    pub byte_sum-Agrees :
        byte_sum m' root (header_length m root) ≡ byte_sum m root (header_length m root)
    byte_sum-Agrees = byte_sum-Same m m' (header_length m root) root whole

    module _ (j : ℕ) (less : j < (header_length m root - header_size) / 4) where
      pub table_at-Agrees : table_at m' root j ≡ table_at m root j
      unfolding table_at
      table_at-Agrees = load32-Same m m' (root + header_size + 4 * j) (
          Same-part m m' root (header_length m root) (root + header_size + 4 * j) 4 whole
            (header_size + 4 * j) (omega arith) (omega arith))

      pub entry-Agrees :
          strncmp (table_at m' root j) apic_signature 4 m'
          ≡ strncmp (table_at m root j) apic_signature 4 m
      entry-Agrees = rw table_at-Agrees (
          strncmp-Same m m' (table_at m root j) apic_signature 4 (omega arith)
            (λ k h. same _ (apart.listed j k less h)) (λ k h. same _ (apart.apic k h)))
