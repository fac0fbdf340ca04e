-- ===== src/Vmm/Apart.antt =====
-- Page tables that lie apart from the frame buffer keep their shape where text is drawn.
use kess_os_paranoid_edition.Base.{
  ℕ, ◌+◌, ◌*◌, ◌≤◌, ◌<◌, ◌≡◌, refl, sym, ap, ◌∙◌, arith, inl, inr, some,
}
use kess_os_paranoid_edition.Memory.{Memory}
use kess_os_paranoid_edition.Memory.Same.{load64-Same}
use kess_os_paranoid_edition.Screen.{Framebuffer}
use kess_os_paranoid_edition.Screen.Glyph.{IsOutside}
use kess_os_paranoid_edition.Screen.Room.{Agrees}
use kess_os_paranoid_edition.Kernel.Terminal.{Terminal}
use kess_os_paranoid_edition.Vmm.{Vmm, entry}
use kess_os_paranoid_edition.Vmm.Paging.{translate, Plan, IsTable, Paged, Grown}
use kess_os_paranoid_edition.Vmm.Paging.Walk.{translate-kept}

-- The PML4 and the segment of the other tables share no byte with the frame buffer.
pub record IsApart (fb : Framebuffer) (pml4 base limit : ℕ) : Type 0 where
  pub root : (k : ℕ) → k < 4096 → IsOutside fb (pml4 + k)
  pub segment : (q : ℕ) → base ≤ q → q < limit → IsOutside fb q

module _ {fb : Framebuffer} {pml4 base limit : ℕ} (apart : IsApart fb pml4 base limit) (g : Plan)
    (s : Vmm) (p : Paged pml4 base limit g s) (m : Memory) (same : Agrees fb s.mem m) where
  entry-Agrees :
      (t i : ℕ) → IsTable pml4 base s.placement t → i < 512 → entry m t i ≡ entry s.mem t i
  entry-Agrees t i (inl is) hi = load64-Same s.mem m (t + 8 * i) (λ k less.
      let at : t + 8 * i + k ≡ pml4 + (8 * i + k) = omega arith in
      ap m at
      ∙ same (pml4 + (8 * i + k)) (apart.root (8 * i + k) (omega arith))
      ∙ ap s.mem (sym at))
  entry-Agrees t i (inr is) hi = load64-Same s.mem m (t + 8 * i) (λ k less.
      same (t + 8 * i + k) (apart.segment (t + 8 * i + k) (omega arith) (omega (arith, p.bounds))))

  module _ (terminal : Terminal) where
    -- The state behind the drawing.
    abbrev pub drawn : Vmm
    drawn = record s { mem = m; terminal = terminal }

    pub drawn-Paged : Paged pml4 base limit g drawn
    drawn-Paged = record {
      aligned = p.aligned;
      bounds = p.bounds;
      apart = p.apart;
      root = p.root;
      inner = λ t i l is hi lv pr.
          let e = entry-Agrees t i is hi in rw e (p.inner t i l is hi lv (rw (sym e) pr));
      leaf = λ t i is hi lv pr.
          let e = entry-Agrees t i is hi in rw e (p.leaf t i is hi lv (rw (sym e) pr));
    }

    drawn-Grown : Grown pml4 base limit g s g drawn
    drawn-Grown = record {
      planned = λ t h. (refl, refl);
      higher = omega arith;
      spent = omega arith;
      kept = λ t i is hi pr. entry-Agrees t i is hi;
    }

    pub drawn-translate : (v q : ℕ) → translate s.mem pml4 v ≡ some q → translate m pml4 v ≡ some q
    drawn-translate v q = translate-kept p v q drawn-Grown
