-- ===== src/Vmm/Paging/Walk.antt =====
-- The processor's walk over the kernel's tables.
use kess_os_paranoid_edition.Base.{
  ℕ, zero, suc, ◌+◌, ◌/◌, ◌%◌, ◌^◌, ◌<◌, ◌≡◌, inl, inr, refl, sym, ap, ◌∙◌, arith, ◌==◌, some,
  Bool-cases,
}
use kess_os_paranoid_edition.Memory.{Memory}
use kess_os_paranoid_edition.Vmm.{Vmm, entry}
use kess_os_paranoid_edition.Vmm.Paging.{
  frame, upper, slot, walk, translate, Plan, IsTable, Paged, Grown,
}

-- A present entry that is no large page leads to the table that it names.
pub walk-present :
    (l : ℕ) (m : Memory) (t v e : ℕ)
    → entry m t (slot (suc l) v) ≡ e
    → e % 2 ≡ 1
    → e / 2 ^ 7 % 2 ≡ 0
    → walk (suc l) m t v ≡ walk l m (frame e) v
unfolding walk
walk-present l m t v e h pr small = rw h (ground arith)

pub walk-leaf :
    (m : Memory) (t v e : ℕ)
    → entry m t (slot 0 v) ≡ e
    → e % 2 ≡ 1
    → walk 0 m t v ≡ some (frame e + v % 2 ^ 12)
unfolding walk
walk-leaf m t v e h pr = rw h (ground arith)

-- A walk that succeeds has passed a present entry.
pub walk-eq-some :
    (l : ℕ) (m : Memory) (t v q : ℕ)
    → walk (suc l) m t v ≡ some q
    → (entry m t (slot (suc l) v) % 2 ≡ 1)
      × (walk l m (frame (entry m t (slot (suc l) v))) v ≡ some q)
unfolding walk
walk-eq-some l m t v q h = ground arith

pub walk-0-some :
    (m : Memory) (t v q : ℕ)
    → walk 0 m t v ≡ some q
    → (entry m t (slot 0 v) % 2 ≡ 1) × (frame (entry m t (slot 0 v)) + v % 2 ^ 12 ≡ q)
unfolding walk
walk-0-some m t v q h = ground arith

-- Addresses of one page take one path.
upper_page : (l a b : ℕ) → a / 2 ^ 12 ≡ b / 2 ^ 12 → upper l a ≡ upper l b
upper_page zero a b h = h
upper_page (suc l) a b h = ap (λ (x : ℕ). x / 2 ^ 9) (upper_page l a b h)

walk_page :
    (l : ℕ) (m : Memory) (t a b q : ℕ)
    → a / 2 ^ 12 ≡ b / 2 ^ 12
    → walk l m t a ≡ some q
    → (r : ℕ) × (walk l m t b ≡ some r)
walk_page zero m t a b q same h =
    let here : entry m t (slot 0 b) ≡ entry m t (slot 0 a) =
      ap (λ x. entry m t (x % 2 ^ 9)) (sym same) in
    (
      frame (entry m t (slot 0 a)) + b % 2 ^ 12,
      walk-leaf m t b (entry m t (slot 0 a)) here (unfold walk in ground arith),
    )
walk_page (suc l) m t a b q same h =
    let here : entry m t (slot (suc l) b) ≡ entry m t (slot (suc l) a) =
      ap (λ x. entry m t (x % 2 ^ 9)) (sym (upper_page (suc l) a b same)) in
    let passed = walk-eq-some l m t a q h in
    let below = walk_page l m (frame (entry m t (slot (suc l) a))) a b q same passed.1 in
    (
      below.0,
      walk-present l m t b (entry m t (slot (suc l) a)) here passed.0 (unfold walk in ground arith)
          ∙ below.1,
    )

module _ {pml4 base limit : ℕ} {g : Plan} {s : Vmm} (p : Paged pml4 base limit g s) where
  -- A walk that succeeds ends where it began.
  walk-identity :
      (l t v q : ℕ)
      → IsTable pml4 base s.placement t
      → g.level t ≡ l
      → g.prefix t ≡ upper (suc l) v
      → walk l s.mem t v ≡ some q
      → q ≡ v
  unfolding walk
  walk-identity zero t v q ht lv covers h = ground (arith, p.leaf t (slot 0 v) ht (omega arith) lv)
  walk-identity (suc l) t v q ht lv covers h =
      let passed = walk-eq-some l s.mem t v q h in
      let below = p.inner t (slot (suc l) v) l ht (omega arith) lv passed.0 in
      walk-identity l (frame (entry s.mem t (slot (suc l) v))) v q (inr below.0) below.1
        (omega (arith, below, covers)) passed.1

  -- Every page that the tables map is mapped to itself.
  pub translate-identity : (v q : ℕ) → v < 2 ^ 48 → translate s.mem pml4 v ≡ some q → q ≡ v
  translate-identity v q low h =
      walk-identity 3 pml4 v q (inl refl) p.root.0 (p.root.1 ∙ omega arith) h

  -- A page that is mapped is mapped as a whole.
  pub translate-page :
      (a v : ℕ)
      → v < 2 ^ 48
      → a / 2 ^ 12 ≡ v / 2 ^ 12
      → translate s.mem pml4 a ≡ some a
      → translate s.mem pml4 v ≡ some v
  translate-page a v low same h =
      let there = walk_page 3 s.mem pml4 a v a same h in
      there.1 ∙ ap some (translate-identity v there.0 low there.1)

  walk_kept :
      {h : Plan} {u : Vmm}
      → Grown pml4 base limit g s h u
      → (l t v q : ℕ) → IsTable pml4 base s.placement t
      → g.level t ≡ l
      → walk l s.mem t v ≡ some q
      → walk l u.mem t v ≡ some q
  walk_kept {u} grown zero t v q ht lv h =
      let here = walk-0-some s.mem t v q h in
      walk-leaf u.mem t v (entry s.mem t (slot 0 v))
        (grown.kept t (slot 0 v) ht (omega arith) here.0) here.0
      ∙ ap some here.1
  walk_kept {u} grown (suc l) t v q ht lv h =
      let passed = walk-eq-some l s.mem t v q h in
      let below = p.inner t (slot (suc l) v) l ht (omega arith) lv passed.0 in
      walk-present l u.mem t v (entry s.mem t (slot (suc l) v))
        (grown.kept t (slot (suc l) v) ht (omega arith) passed.0) passed.0 below.3
      ∙ walk_kept grown l (frame (entry s.mem t (slot (suc l) v))) v q (inr below.0) below.1
          passed.1

  -- Growing keeps what is mapped.
  pub translate-kept :
      {h : Plan} {u : Vmm} (v q : ℕ)
      → Grown pml4 base limit g s h u
      → translate s.mem pml4 v ≡ some q
      → translate u.mem pml4 v ≡ some q
  translate-kept v q grown e = walk_kept grown 3 pml4 v q (inl refl) p.root.0 e

  -- A walk reads one entry of each table on its path, so only these matter.
  pub walk_agree :
      (m : Memory) (v : ℕ)
      → ((l t : ℕ)
          → IsTable pml4 base s.placement t
          → g.level t ≡ l
          → g.prefix t ≡ upper (suc l) v
          → entry m t (slot l v) ≡ entry s.mem t (slot l v))
      → (l t : ℕ) → IsTable pml4 base s.placement t
      → g.level t ≡ l
      → g.prefix t ≡ upper (suc l) v
      → walk l m t v ≡ walk l s.mem t v
  unfolding walk
  walk_agree m v same zero t ht lv covers = rw (same 0 t ht lv covers)
  walk_agree m v same (suc l) t ht lv covers =
      rw (same (suc l) t ht lv covers)
        (elim (Bool-cases (entry s.mem t (slot (suc l) v) % 2 == 0)) [
          | inl absent ↦ rw absent
          | inr there ↦
              let below = p.inner t (slot (suc l) v) l ht (omega arith) lv (ground arith) in
              rw (
                walk_agree m v same l (frame (entry s.mem t (slot (suc l) v))) (inr below.0) below.1
                  (omega (arith, below, covers)))
        ])
