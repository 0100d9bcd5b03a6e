-- ===== src/Infra/Ids.antt =====
-- internal/infra/idgen/snowflake.go: the identifiers. The clock is the list of its next readings, in
-- milliseconds, all after the epoch. The fields of an identifier lie in bits of their own, so `<<`
-- and `|` on them are a product and a sum, wrapped to an int64.
pub mod Rising
use order_hub.Prelude.{
  ℕ, ◌+◌, ◌-◌, ◌*◌, ◌%◌, ◌^◌, String, ◌<>◌, Option, none, some, List, [], ◌∷◌, ltb, leb, nat_eq,
  if◌then◌else◌,
}
use order_hub.Prelude.Int.{ℤ, pos}
use order_hub.Domain.Int64.{wrap64}

abbrev pub epoch : ℕ
epoch = 1704067200000

abbrev pub seq_span : ℕ
seq_span = 2 ^ 12

abbrev pub machine_span : ℕ
machine_span = 2 ^ 10

pub record Snowflake : Type 0 where
  pub machine_id : ℕ
  pub last_ms : ℕ
  pub seq : ℕ

-- `NewSnowflake` with the number of its environment, 1 if there is none.
unfoldable pub new_snowflake : Option ℕ → Snowflake
new_snowflake number = record {
  machine_id = elim number [ none ↦ 1 | some n ↦ n % machine_span ];
  last_ms = 0;
  seq = 0;
}

-- The number of the state, as `next` returns it.
unfoldable pub number : Snowflake → ℤ
number s =
    wrap64 (pos ((s.last_ms - epoch) * (machine_span * seq_span) + s.machine_id * seq_span + s.seq))

-- `for now <= s.lastMs { … }`: the first reading behind the last one, if the readings get there.
unfoldable pub wait_past : ℕ → List ℕ → Option (ℕ × List ℕ)
wait_past last [] = none
wait_past last (now ∷ readings) =
    let later = wait_past last readings in if leb now last then later else some (now, readings)

-- The state that `next` leaves, from the first reading corrected to the last time used.
unfoldable pub advance : Snowflake → ℕ → List ℕ → Option (Snowflake × List ℕ)
advance s now readings =
    if nat_eq now s.last_ms
    then (if nat_eq ((s.seq + 1) % seq_span) 0
        then elim (wait_past s.last_ms readings) [
          | none ↦ none
          | some (later, rest) ↦ some (record s { last_ms = later; seq = 0 }, rest)
        ]
        else some (record s { seq = (s.seq + 1) % seq_span }, readings))
    else some (record s { last_ms = now; seq = 0 }, readings)

unfoldable pub next : Snowflake → List ℕ → Option (Snowflake × List ℕ)
next s [] = none
next s (reading ∷ readings) =
    advance s (if ltb reading s.last_ms then s.last_ms else reading) readings
