-- ===== src/Screen/Pixels.antt =====
-- Pixels of a frame buffer as words of memory, for kernel/src/drivers/video.
use kess_os_paranoid_edition.Base.{
  ℕ, ◌+◌, ◌-◌, ◌*◌, ◌%◌, ◌^◌, ◌≤◌, ◌<◌, ◌≡◌, ◌≢◌, if◌then◌else◌, ◌==◌, ◌&&◌, false, refl, ap, arith,
  ltb, Bool-cases, ◌⊎◌, inl, inr,
}
use native.Mathlib.Nat.{mul-le-mul_right}
use kess_os_paranoid_edition.Memory.{Memory, load16, load32, byte, store32}
use kess_os_paranoid_edition.Memory.Laws.{Apart}
use kess_os_paranoid_edition.Screen.{Framebuffer, pixel}

module _ (m : Memory) (p v : ℕ) where
  store32-at : (q k : ℕ) → q ≡ p + k → k < 4 → store32 m p v q ≡ byte v k
  unfolding store32
  store32-at q k e h = let within : q - p ≡ k = omega arith in ground arith

  pub store32-outside : (q : ℕ) → Apart p 4 q 1 → store32 m p v q ≡ m q
  unfolding store32
  store32-outside q h = ground arith

  pub load32-store32 : load32 (store32 m p v) p ≡ v % 2 ^ 32
  unfolding load32 load16 byte
  load32-store32 = omega (
    arith,
    store32-at p 0 (omega arith) (omega arith),
    store32-at (p + 1) 1 refl (omega arith),
    store32-at (p + 2) 2 refl (omega arith),
    store32-at (p + 2 + 1) 3 (omega arith) (omega arith),
  )

  pub load32-store32_ne : (q : ℕ) → Apart p 4 q 4 → load32 (store32 m p v) q ≡ load32 m q
  unfolding load32 load16
  load32-store32_ne q h = ground (
    arith,
    store32-outside q,
    store32-outside (q + 1),
    store32-outside (q + 2),
    store32-outside (q + 2 + 1),
  )

-- A frame buffer that ends within the address space.
pub record IsPlaced (fb : Framebuffer) : Type 0 where
  pub fits : fb.base_addr + 4 * (fb.height * fb.ppsl) ≤ 2 ^ 64

module _ (fb : Framebuffer) (placed : IsPlaced fb) where
  -- The pixels of a line lie in front of those of the next.
  pub line_before : (y z : ℕ) → y < z → y * fb.ppsl + fb.ppsl ≤ z * fb.ppsl
  line_before y z h =
      let next : (y + 1) * fb.ppsl ≡ y * fb.ppsl + fb.ppsl = omega arith in
      omega (arith, next, mul-le-mul_right {m = y + 1} {n = z} fb.ppsl (omega arith))

  pub pixel_lem :
      (x y : ℕ) → x < fb.ppsl → y < fb.height → pixel fb x y ≡ fb.base_addr + 4 * (x + y * fb.ppsl)
  unfolding pixel
  pixel_lem x y hx hy = omega (arith, line_before y fb.height hy, placed.fits)

  pub pixel-Apart :
      (x y x' y' : ℕ)
      → x < fb.ppsl
      → y < fb.height
      → x' < fb.ppsl
      → y' < fb.height
      → x ≢ x' ⊎ y ≢ y'
      → Apart (pixel fb x y) 4 (pixel fb x' y') 4
  pixel-Apart x y x' y' hx hy hx' hy' ne =
      rw (pixel_lem x y hx hy, pixel_lem x' y' hx' hy')
        (elim (Bool-cases (ltb y y')) [
          | inl above ↦ inl (omega (arith, line_before y y' (ground arith)))
          | inr not_above ↦ elim (Bool-cases (ltb y' y)) [
            | inl below ↦ inr (omega (arith, line_before y' y (ground arith)))
            | inr not_below ↦
                let same : y ≡ y' = ground arith in
                let lines : y * fb.ppsl ≡ y' * fb.ppsl = ap (λ (t : ℕ). t * fb.ppsl) same in
                ground (arith, ne)
          ]
        ])

-- One pixel is set, as every other pixel sees it.
module _ (fb : Framebuffer) (placed : IsPlaced fb) (color px py : ℕ) (hpx : px < fb.ppsl)
    (hpy : py < fb.height) where
  pub store_pixel_lem :
      (x y : ℕ) (m : Memory)
      → x < fb.ppsl
      → y < fb.height
      → load32 (store32 m (pixel fb x y) color) (pixel fb px py)
        ≡ (if py == y && px == x then color % 2 ^ 32 else load32 m (pixel fb px py))
  store_pixel_lem x y m hx hy = elim (Bool-cases (py == y && px == x)) [
    | inl here ↦
        let same_x : px ≡ x = ground arith in
        let same_y : py ≡ y = ground arith in
        rw (here, same_x, same_y) (load32-store32 m (pixel fb x y) color)
    | inr there ↦ rw there (
        load32-store32_ne m (pixel fb x y) color (pixel fb px py)
          (pixel-Apart fb placed x y px py hx hy hpx hpy (other there)))
  ]
    where
      other : py == y && px == x ≡ false → x ≢ px ⊎ y ≢ py
      other e = elim (Bool-cases (px == x)) [
        | inl column_x ↦ inr (λ same. ground arith)
        | inr differs ↦ inl (λ same. ground arith)
      ]
