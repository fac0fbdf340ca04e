-- ===== src/Vmm/Paging/Grow.antt =====
-- Growth of the tables composes.
use kess_os_paranoid_edition.Base.{ℕ, ◌≤◌, refl, ◌∙◌, inl, inr, arith}
use kess_os_paranoid_edition.Vmm.{Vmm}
use kess_os_paranoid_edition.Vmm.Paging.{Plan, IsTable, Paged, Grown, Extends}

pub IsTable-mono :
    (pml4 base : ℕ) {n k : ℕ} (t : ℕ) → n ≤ k → IsTable pml4 base n t → IsTable pml4 base k t
IsTable-mono pml4 base t h (inl e) = inl e
IsTable-mono pml4 base t h (inr a) = inr (omega arith)

module _ {pml4 base limit : ℕ} {g : Plan} {s : Vmm} where
  pub Grown-refl : Grown pml4 base limit g s g s
  Grown-refl = record {
    planned = λ t h. (refl, refl);
    higher = omega arith;
    spent = omega arith;
    kept = λ t i h hi pr. refl;
  }

  pub Grown-trans :
      {h k : Plan} {t u : Vmm}
      → Grown pml4 base limit g s h t
      → Grown pml4 base limit h t k u
      → Grown pml4 base limit g s k u
  Grown-trans {t} a b = record {
    planned = λ x hx.
        let later = IsTable-mono pml4 base x a.higher hx in
        ((b.planned x later).0 ∙ (a.planned x hx).0, (b.planned x later).1 ∙ (a.planned x hx).1);
    higher = omega (arith, a, b);
    spent = omega (arith, a, b);
    kept = λ x i hx hi pr.
        let same = a.kept x i hx hi pr in
        b.kept x i (IsTable-mono pml4 base x a.higher hx) hi (rw same pr) ∙ same;
  }

  abbrev pub extends_refl : Paged pml4 base limit g s → Extends pml4 base limit g s s
  extends_refl p = record { plan = g; paged = p; grown = Grown-refl }

  abbrev pub extends_trans :
      {h : Plan} {t u : Vmm}
      → Grown pml4 base limit g s h t
      → Extends pml4 base limit h t u
      → Extends pml4 base limit g s u
  extends_trans a b = record { plan = b.plan; paged = b.paged; grown = Grown-trans a b.grown }
