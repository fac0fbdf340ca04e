-- ===== src/Vmm/Total.antt =====
-- `map_page` of kernel/src/arch/memory/impl/vmm.c ends: every nested call is paid for by a page.
use kess_os_paranoid_edition.Base.{
  ℕ, zero, suc, ◌+◌, ◌≤◌, ◌<◌, ◌≡◌, refl, inl, inr, arith, ◌==◌, Bool-cases, bit_or, u32,
}
use kess_os_paranoid_edition.Outcome
use kess_os_paranoid_edition.MemoryMap.{page_size}
use kess_os_paranoid_edition.Outcome.{Outcome, Cmd, and_then, Ensures, returns, halts}
use mathlib.Core.Path.{subst}
use kess_os_paranoid_edition.Kernel.Terminal.{Terminal}
use kess_os_paranoid_edition.Vmm.Panic.{log-halts}
use kess_os_paranoid_edition.Vmm.{
  Vmm, entry, is_present, ensure_table, map_leaf, map_through, map_page, identity_map, index,
  bit_present, bit_writable,
}

-- Pages are only taken and nothing is logged, and a halt means that none is left.
abbrev pub Spends : ℕ → Terminal → Outcome Vmm (Unit {0}) → Type 0
Spends n terminal o =
    Ensures (λ _ t. (t.segment_usable ≤ n) × (t.terminal ≡ terminal)) (λ t. t.segment_usable ≡ 0) o

then_kept :
    {n : ℕ} {terminal : Terminal} {o : Outcome Vmm (Unit {0})}
    → Spends n terminal o
    → (k : Unit {0} → Cmd Vmm (Unit {0}))
    → ((t : Vmm) → t.segment_usable ≤ n → Spends n t.terminal (k tt t))
    → Spends n terminal (and_then o k)
then_kept {n} first k rest =
    Outcome.bind first λ _ t (h, e). subst (λ terminal. Spends n terminal (k tt t)) e (rest t h)

module _ (map_new : ℕ → Cmd Vmm (Unit {0})) (n : ℕ)
    (nested : (page : ℕ) (t : Vmm)
      → t.segment_usable < n
      → Spends t.segment_usable t.terminal (map_new page t)) where
  ensure_table-Spends :
      (table idx flags : ℕ) (s : Vmm)
      → s.segment_usable ≤ n
      → Spends n s.terminal (ensure_table map_new table idx flags s)
  unfolding ensure_table
  ensure_table-Spends table idx flags s h = elim (Bool-cases (is_present (entry s.mem table idx))) [
    | inl there ↦ rw there (returns (h, refl))
    | inr missing ↦ rw missing (elim (Bool-cases (s.segment_usable == 0)) [
      | inl empty ↦
          rw empty (Outcome.bind (log-halts _ s refl (λ m t. ground arith)) λ _ _ q. absurd q)
      | inr more ↦
          rw more
            (Outcome.weaken (nested _ _ (ground arith)) (λ _ t k. (ground arith, k.1)) (λ t k. k))
    ])
  ]

  map_leaf-Spends :
      (table idx addr flags : ℕ) (s : Vmm)
      → s.segment_usable ≤ n
      → Spends n s.terminal (map_leaf table idx addr flags s)
  unfolding map_leaf
  map_leaf-Spends table idx addr flags s h =
      elim (Bool-cases (is_present (entry s.mem table idx))) [
        | inl there ↦ rw there (returns (h, refl))
        | inr missing ↦ rw missing (returns (h, refl))
      ]

  map_through-Spends :
      (pml4 logical flags : ℕ) (s : Vmm)
      → s.segment_usable ≤ n
      → Spends n s.terminal (map_through pml4 map_new logical flags s)
  unfolding map_through
  map_through-Spends pml4 logical flags s h =
      then_kept (ensure_table-Spends pml4 (index 3 logical) flags s h) _ λ t₁ h₁.
        then_kept (ensure_table-Spends _ (index 2 logical) flags t₁ h₁) _ λ t₂ h₂.
          then_kept (ensure_table-Spends _ (index 1 logical) flags t₂ h₂) _
            λ t₃ h₃. map_leaf-Spends _ (index 0 logical) logical flags t₃ h₃

-- With more fuel than the allocator has pages, map_page from any state neither runs out of fuel
-- nor faults: it returns with no more pages than before and nothing logged, or halts with none
-- left.
pub map_page-Spends :
    (pml4 fuel logical flags : ℕ) (s : Vmm)
    → s.segment_usable < fuel
    → Spends s.segment_usable s.terminal (map_page pml4 fuel logical flags s)
unfolding map_page
map_page-Spends pml4 zero logical flags s h = absurd (omega arith)
map_page-Spends pml4 (suc fuel) logical flags s h =
    map_through-Spends (λ page. map_page pml4 fuel page (bit_or (u32 flags) bit_present))
      s.segment_usable
      (λ page t k. map_page-Spends pml4 fuel page (bit_or (u32 flags) bit_present) t (omega arith))
      pml4 logical (bit_or (u32 flags) bit_present) s (omega arith)

pub identity_map-Spends :
    (pml4 left addr : ℕ) (s : Vmm)
    → Spends s.segment_usable s.terminal (identity_map pml4 left addr s)
unfolding identity_map
identity_map-Spends pml4 zero addr s = returns (omega arith, refl)
identity_map-Spends pml4 (suc left) addr s =
    then_kept
      (map_page-Spends pml4 (s.segment_usable + 1) addr (bit_or bit_writable bit_present) s
        (omega arith))
      _
      λ t h.
        Outcome.weaken (identity_map-Spends pml4 left (addr + page_size) t)
          (λ _ u k. (omega (arith, k.0), k.1)) (λ u k. k)
