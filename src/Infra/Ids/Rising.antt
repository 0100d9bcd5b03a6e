-- ===== src/Infra/Ids/Rising.antt =====
-- internal/infra/idgen/snowflake.go: the identifiers grow from call to call.
use mathlib.Core.Option.{some-injective, none-ne-some}
use order_hub.Prelude.{
  subst, ap, ℕ, zero, suc, ◌+◌, ◌-◌, ◌*◌, ◌%◌, ◌^◌, ◌≤◌, ◌<◌, ◌≡◌, refl, arith, Option, none, some,
  List, [], ◌∷◌, All, Bool-cases, Option-cases, inl, inr, leb, nat_eq,
}
use order_hub.Prelude.Int.{ℤ, pos, ◌<ℤ◌}
use order_hub.Domain.Int64.{wrap64-eq_of_InRange}
use order_hub.Infra.Ids.{epoch, seq_span, Snowflake, number, wait_past, advance, next}

-- The fields fit in their bits.
abbrev pub IsValid : Snowflake → Type 0
IsValid s = (s.machine_id < 1024) × (s.seq < 4096)

-- The second state was reached at a later time, or at the same time with a greater number.
abbrev pub IsLater : Snowflake → Snowflake → Type 0
IsLater s t = (t.machine_id ≡ s.machine_id) × (s.last_ms * 4096 + s.seq < t.last_ms * 4096 + t.seq)

wait_past-later :
    (last : ℕ) (readings : List ℕ) {now : ℕ} {rest : List ℕ}
    → wait_past last readings ≡ some (now, rest)
    → last < now
unfolding wait_past
wait_past-later last [] h = absurd (ground arith)
wait_past-later last (r ∷ rs) {now} {rest} h =
    ground (arith, wait_past-later last rs {now = now} {rest = rest})

-- The state that a step returned.
reached :
    (s : Snowflake) {t : Snowflake} (u : Snowflake) {rest : List ℕ} (left : List ℕ)
    → Path (Option (Snowflake × List ℕ)) (some (u, left)) (some (t, rest))
    → IsValid u
    → IsLater s u
    → IsValid t × IsLater s t
reached s {t} u left e valid later =
    subst (λ x. IsValid x × IsLater s x)
      (ap (λ (p : Snowflake × List ℕ). p.0) (some-injective _ _ e)) (valid, later)

advance-IsLater :
    (s : Snowflake) (now : ℕ) (readings : List ℕ) {t : Snowflake} {rest : List ℕ}
    → IsValid s
    → s.last_ms ≤ now
    → advance s now readings ≡ some (t, rest)
    → IsValid t × IsLater s t
unfolding advance
advance-IsLater s now readings {t} {rest} valid forward h =
    elim (Bool-cases (nat_eq now s.last_ms)) [
      | inr apart ↦
          reached s (record s { last_ms = now; seq = 0 }) readings (rw (apart, advance) at h)
            (valid.0, omega arith) (refl, ground arith)
      | inl same ↦ elim (Bool-cases (nat_eq ((s.seq + 1) % seq_span) 0)) [
        | inr fits ↦
            reached s (record s { seq = (s.seq + 1) % seq_span }) readings
              (rw (same, fits, advance) at h) (valid.0, omega arith) (refl, ground arith)
        | inl full ↦ elim (Option-cases (wait_past s.last_ms readings)) [
          | inl never ↦ absurd (none-ne-some _ (rw (same, full, never, advance) at h))
          | inr ((later, left), waited) ↦
              reached s (record s { last_ms = later; seq = 0 }) left
                (rw (same, full, waited, advance) at h) (valid.0, omega arith)
                (refl, omega (arith, wait_past-later s.last_ms readings waited))
        ]
      ]
    ]

-- The last millisecond whose number an int64 holds.
abbrev pub horizon : ℕ
horizon = epoch + 2 ^ 41

-- A reading of a clock that is right by some decades.
abbrev pub InSpan : ℕ → Type 0
InSpan ms = (epoch ≤ ms) × (ms < horizon)

wait_past-InSpan :
    (last : ℕ) (readings : List ℕ) {now : ℕ} {rest : List ℕ}
    → All InSpan readings
    → wait_past last readings ≡ some (now, rest)
    → InSpan now × All InSpan rest
unfolding wait_past
wait_past-InSpan last [] ok h = absurd (none-ne-some _ h)
wait_past-InSpan last (r ∷ rs) ok h = elim (Bool-cases (leb r last)) [
  | inl early ↦ wait_past-InSpan last rs ok.1 (rw (early, wait_past) at h)
  | inr past ↦
      subst (λ (p : ℕ × List ℕ). InSpan p.0 × All InSpan p.1)
        (some-injective _ _ (rw (past, wait_past) at h)) ok
]

-- The times of a step are in the span when the readings are.
advance-InSpan :
    (s : Snowflake) (now : ℕ) (readings : List ℕ) {t : Snowflake} {rest : List ℕ}
    → InSpan now
    → All InSpan readings
    → advance s now readings ≡ some (t, rest)
    → InSpan t.last_ms × All InSpan rest
unfolding advance
advance-InSpan s now readings {t} {rest} ok all h =
    let goal = λ (p : Snowflake × List ℕ). InSpan p.0.last_ms × All InSpan p.1 in
    elim (Bool-cases (nat_eq now s.last_ms)) [
      | inr apart ↦ subst goal (some-injective _ _ (rw (apart, advance) at h)) (ok, all)
      | inl same ↦ elim (Bool-cases (nat_eq ((s.seq + 1) % seq_span) 0)) [
        | inr fits ↦
            subst goal (some-injective _ _ (rw (same, fits, advance) at h))
              (subst InSpan (ground arith) ok, all)
        | inl full ↦ elim (Option-cases (wait_past s.last_ms readings)) [
          | inl never ↦ absurd (none-ne-some _ (rw (same, full, never, advance) at h))
          | inr ((later, left), waited) ↦
              subst goal (some-injective _ _ (rw (same, full, waited, advance) at h))
                (wait_past-InSpan s.last_ms readings all waited)
        ]
      ]
    ]

-- A call of `next`, whatever the clock reads, leaves a later state.
next-IsLater :
    (s : Snowflake) (readings : List ℕ) {t : Snowflake} {rest : List ℕ}
    → IsValid s
    → next s readings ≡ some (t, rest)
    → IsValid t × IsLater s t
unfolding next
next-IsLater s [] valid h = absurd (none-ne-some _ h)
next-IsLater s (r ∷ rs) valid h = advance-IsLater s _ rs valid (ground arith) h

next-InSpan :
    (s : Snowflake) (readings : List ℕ) {t : Snowflake} {rest : List ℕ}
    → s.last_ms < horizon
    → All InSpan readings
    → next s readings ≡ some (t, rest)
    → InSpan t.last_ms × All InSpan rest
unfolding next
next-InSpan s [] below all h = absurd (none-ne-some _ h)
next-InSpan s (r ∷ rs) below all h =
    let low = all.0.0 in
    let high = all.0.1 in advance-InSpan s _ rs (ground arith, ground arith) all.1 h

-- In the span, a number is its fields side by side.
number-InSpan :
    (s : Snowflake)
    → IsValid s
    → InSpan s.last_ms
    → number s ≡ pos ((s.last_ms - epoch) * 4194304 + s.machine_id * 4096 + s.seq)
unfolding number
number-InSpan s valid ok = wrap64-eq_of_InRange _ (omega arith, omega arith)

IsLater-number :
    (s t : Snowflake)
    → IsValid s
    → IsValid t
    → InSpan s.last_ms
    → InSpan t.last_ms
    → IsLater s t
    → number s <ℤ number t
IsLater-number s t valid valid' ok ok' later =
    rw (number-InSpan s valid ok, number-InSpan t valid' ok') (omega arith)

-- The numbers of up to `calls` calls, as long as the clock can be read.
abbrev pub issued : ℕ → Snowflake → List ℕ → List ℤ
issued zero s readings = []
issued (suc calls) s readings = elim (next s readings) [
  | none ↦ []
  | some (t, rest) ↦ number t ∷ issued calls t rest
]

-- Each number is smaller than the ones after it.
abbrev pub IsRising : List ℤ → Type 0
IsRising [] = Unit
IsRising (n ∷ []) = Unit
IsRising (n ∷ m ∷ ns) = (n <ℤ m) × IsRising (m ∷ ns)

issued-IsRising :
    (calls : ℕ) (s : Snowflake) (readings : List ℕ)
    → IsValid s
    → InSpan s.last_ms
    → All InSpan readings
    → IsRising (number s ∷ issued calls s readings)
issued-IsRising zero s readings valid ok all = tt
issued-IsRising (suc calls) s readings valid ok all = elim (Option-cases (next s readings)) [
  | inl ended ↦ rw (ended, issued) tt
  | inr ((t, rest), stepped) ↦
      let (valid', later) = next-IsLater s readings valid stepped in
      let (ok', all') = next-InSpan s readings ok.1 all stepped in
      rw (stepped, issued)
        (IsLater-number s t valid valid' ok ok' later, issued-IsRising calls t rest valid' ok' all')
]

-- If the machine's number and the counter fit in their bits and the readings of the clock lie in the
-- 2^41 milliseconds after the epoch, then the numbers that the calls return grow from call to call,
-- also when the clock stands still or goes back.
pub numbers_rise :
    (calls : ℕ) (s : Snowflake) (readings : List ℕ)
    → IsValid s
    → s.last_ms < horizon
    → All InSpan readings
    → IsRising (issued calls s readings)
numbers_rise zero s readings valid below all = tt
numbers_rise (suc calls) s readings valid below all = elim (Option-cases (next s readings)) [
  | inl ended ↦ rw (ended, issued) tt
  | inr ((t, rest), stepped) ↦
      rw (stepped, issued)
        (let (ok', all') = next-InSpan s readings below all stepped in
          issued-IsRising calls t rest (next-IsLater s readings valid stepped).0 ok' all')
]
