-- ===== src/Pit/Sleep.antt =====
-- When `pit_sleep` of kernel/src/arch/timer/impl/pit.c ends.
use kess_os_paranoid_edition.Base.{
  ℕ, suc, ◌+◌, ◌^◌, ◌≤◌, ◌<◌, ◌≡◌, refl, ap, arith, none, some, List, [], ◌∷◌, ◌++◌, ltb,
  Bool-cases, inl, inr, true, false, u16, u32,
}
use kess_os_paranoid_edition.Pit.{
  Timer, Event, test, irq0, pit_tick, sleep_loop, pit_sleep, unglitch_arg,
}

abbrev pub irqs : List Event → ℕ
irqs [] = 0
irqs (test ∷ events) = irqs events
irqs (irq0 ∷ events) = suc (irqs events)

-- The loop has ended, behind `used`, with the tick count at `eticks` or past it.
record Ended (eticks : ℕ) (events : List Event) (t : Timer) : Type 0 where
  final : Timer
  used : List Event
  rest : List Event
  run : sleep_loop eticks events t ≡ some (final, rest)
  split : events ≡ used ++ rest
  counted : final.ticks ≡ t.ticks + irqs used
  reached : eticks ≤ final.ticks
  logged : final.journal ≡ t.journal

sleep_loop-Ended :
    (eticks : ℕ) (before after : List Event) (t : Timer)
    → t.ticks + irqs before < 2 ^ 16
    → eticks ≤ t.ticks + irqs before
    → Ended eticks (before ++ (test ∷ after)) t
unfolding sleep_loop pit_tick
sleep_loop-Ended eticks [] after t room enough =
    let stop : ltb t.ticks eticks ≡ false = ground arith in
    record {
      final = t;
      used = test ∷ [];
      rest = after;
      run = rw stop refl;
      split = refl;
      counted = omega arith;
      reached = omega arith;
      logged = refl;
    }
sleep_loop-Ended eticks (test ∷ before) after t room enough =
    elim (Bool-cases (ltb t.ticks eticks)) [
      | inr stop ↦ record {
        final = t;
        used = test ∷ [];
        rest = before ++ (test ∷ after);
        run = rw stop refl;
        split = refl;
        counted = omega arith;
        reached = ground arith;
        logged = refl;
      }
      | inl more ↦
          let e = sleep_loop-Ended eticks before after t room enough in
          record {
            final = e.final;
            used = test ∷ e.used;
            rest = e.rest;
            run = rw more e.run;
            split = ap (λ l. test ∷ l) e.split;
            counted = e.counted;
            reached = e.reached;
            logged = e.logged;
          }
    ]
sleep_loop-Ended eticks (irq0 ∷ before) after t room enough =
    let next : u16 (t.ticks + 1) ≡ t.ticks + 1 = omega arith in
    let e =
      sleep_loop-Ended eticks before after (pit_tick t) (omega (arith, next))
        (omega (arith, next)) in
    record {
      final = e.final;
      used = irq0 ∷ e.used;
      rest = e.rest;
      run = e.run;
      split = ap (λ l. irq0 ∷ l) e.split;
      counted = omega (arith, next, e.counted);
      reached = e.reached;
      logged = e.logged;
    }

-- `pit_sleep` has returned, after at least `n` timer interrupts.
pub record Slept (n : ℕ) (events : List Event) (t : Timer) : Type 0 where
  pub final : Timer
  pub used : List Event
  pub rest : List Event
  pub run : pit_sleep n events t ≡ some (final, rest)
  pub split : events ≡ used ++ rest
  pub waited : n ≤ irqs used
  pub counted : final.ticks ≡ t.ticks + irqs used
  pub logged : final.journal ≡ (unglitch_arg n t).journal

-- Where the tick count does not wrap meanwhile, pit_sleep of n ticks returns by a test of its loop
-- that comes after n timer interrupts, and not before there have been n.
pub pit_sleep-Slept :
    (n : ℕ) (before after : List Event) (t : Timer)
    → t.ticks + irqs before < 2 ^ 16
    → n ≤ irqs before
    → Slept n (before ++ (test ∷ after)) t
unfolding pit_sleep
pit_sleep-Slept n before after t room enough =
    let end : u32 (t.ticks + n) ≡ t.ticks + n = omega arith in
    let e =
      sleep_loop-Ended (u32 (t.ticks + n)) before after (unglitch_arg n t) room (omega arith) in
    record {
      final = e.final;
      used = e.used;
      rest = e.rest;
      run = e.run;
      split = e.split;
      waited = omega (arith, e.reached, e.counted);
      counted = e.counted;
      logged = e.logged;
    }

spins :
    (eticks : ℕ) (events : List Event) (t : Timer)
    → t.ticks < 2 ^ 16
    → 2 ^ 16 ≤ eticks
    → sleep_loop eticks events t ≡ none
unfolding sleep_loop pit_tick
spins eticks [] t small big = refl
spins eticks (test ∷ events) t small big =
    let more : ltb t.ticks eticks ≡ true = ground arith in rw more (spins eticks events t small big)
spins eticks (irq0 ∷ events) t small big = spins eticks events (pit_tick t) (omega arith) big

-- Where the tick count plus n is past 65535, pit_sleep never returns, whatever interrupts come.
pub pit_sleep_never :
    (n : ℕ) (events : List Event) (t : Timer)
    → t.ticks < 2 ^ 16
    → n < 2 ^ 16
    → 2 ^ 16 ≤ t.ticks + n
    → pit_sleep n events t ≡ none
unfolding pit_sleep
pit_sleep_never n events t small fits past =
    spins (u32 (t.ticks + n)) events (unglitch_arg n t) small (omega arith)
