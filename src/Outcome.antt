-- ===== src/Outcome.antt =====
-- What a run of kernel code ends in, and total correctness of such a run.
use kess_os_paranoid_edition.Base.{◌≡◌, ◌≢◌, refl, Bool, true, false, if◌then◌else◌}

-- `halted` is FULL_HALT of kernel/src/util/asm.h (`cli; hlt`): nothing runs after it. `fault` is
-- a CPU exception in the middle of the code.
pub data Outcome (S A : Type 0) : Type 0 where
  done : A → S → Outcome S A
  halted : S → Outcome S A
  fault : S → Outcome S A
  out_of_fuel : Outcome S A

abbrev pub Cmd : Type 0 → Type 0 → Type 0
Cmd S A = S → Outcome S A

module _ {S A B : Type 0} where
  abbrev pub and_then : Outcome S A → (A → Cmd S B) → Outcome S B
  and_then (done a s) k = k a s
  and_then (halted s) k = halted s
  and_then (fault s) k = fault s
  and_then out_of_fuel k = out_of_fuel

  infixl 5 ◌>>=◌ ◌>>◌
  abbrev pub ◌>>=◌ : Cmd S A → (A → Cmd S B) → Cmd S B
  ◌>>=◌ m k s = and_then (m s) k

  abbrev pub ◌>>◌ : Cmd S A → Cmd S B → Cmd S B
  m >> k = m >>= λ _. k

abbrev pub modify : {S : Type 0} → (S → S) → Cmd S (Unit {0})
modify f s = done tt (f s)

abbrev pub read : {S A : Type 0} → (S → A) → Cmd S A
read f s = done (f s) s

-- The run returns with `Q`, or has halted with `H`: it neither faults nor runs out of fuel.
pub data Ensures {S A : Type 0} (Q : A → S → Type 0) (H : S → Type 0) : Outcome S A → Type 0 where
  returns : {a : A} {s : S} → Q a s → Ensures Q H (done a s)
  halts : {s : S} → H s → Ensures Q H (halted s)

module _ {S A B : Type 0} {H : S → Type 0} where
  pub bind :
      {Q : A → S → Type 0} {R : B → S → Type 0} {o : Outcome S A} {k : A → Cmd S B}
      → Ensures Q H o
      → ((a : A) (s : S) → Q a s → Ensures R H (k a s))
      → Ensures R H (and_then o k)
  bind (returns q) next = next _ _ q
  bind (halts h) next = halts h

module _ {S A : Type 0} where
  pub weaken :
      {Q R : A → S → Type 0} {H K : S → Type 0} {o : Outcome S A}
      → Ensures Q H o
      → ((a : A) (s : S) → Q a s → R a s)
      → ((s : S) → H s → K s)
      → Ensures R K o
  weaken (returns q) f g = returns (f _ _ q)
  weaken (halts h) f g = halts (g _ h)

  pub both :
      {Q R : A → S → Type 0} {H K : S → Type 0} {o : Outcome S A}
      → Ensures Q H o
      → Ensures R K o
      → Ensures (λ a s. Q a s × R a s) H o
  both (returns q) (returns r) = returns (q, r)
  both (halts h) (halts k) = halts h

  pub ne-out_of_fuel :
      {Q : A → S → Type 0} {H : S → Type 0} {o : Outcome S A} → Ensures Q H o → o ≢ out_of_fuel
  ne-out_of_fuel (returns q) = λ e. cc
  ne-out_of_fuel (halts h) = λ e. cc

-- A command that comes back.
pub data Returns {S A : Type 0} : Outcome S A → Type 0 where
  back : {a : A} {s : S} → Returns (done a s)

module _ {S A B : Type 0} where
  -- What holds of each continuation holds of the whole.
  pub through :
      (P : Outcome S B → Type 0) (o : Outcome S A) (k : A → Cmd S B)
      → Returns o
      → ((a : A) (s : S) → o ≡ done a s → P (k a s))
      → P (and_then o k)
  through P _ k back rest = rest _ _ refl

module _ {S B : Type 0} where
  -- What holds of both branches, each where the test picks it, holds of the whole.
  pub branch :
      (P : Outcome S B → Type 0) (b : Bool) (f g : Cmd S B) (s : S)
      → (b ≡ true → P (f s))
      → (b ≡ false → P (g s))
      → P ((if b then f else g) s)
  branch P true f g s p q = p refl
  branch P false f g s p q = q refl
