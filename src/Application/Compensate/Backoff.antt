-- ===== src/Application/Compensate/Backoff.antt =====
-- internal/application/compensate.go: the waits between the retries of a ticket.
use order_hub.Prelude.{ℕ, zero, suc, ◌*◌, ◌≤◌, ◌<◌, ◌≡◌, arith}
use order_hub.Domain.Scene.{second, minute}
use order_hub.Application.Compensate.{backoff}

-- What holds of the numbers up to six and of those above holds of all.
seven_cases :
    (P : ℕ → Type 0)
    → P 0
    → P 1
    → P 2
    → P 3
    → P 4
    → P 5
    → P 6
    → ((n : ℕ) → 7 ≤ n → P n)
    → (n : ℕ) → P n
seven_cases P a b c d e f g h zero = a
seven_cases P a b c d e f g h (suc zero) = b
seven_cases P a b c d e f g h (suc (suc zero)) = c
seven_cases P a b c d e f g h (suc (suc (suc zero))) = d
seven_cases P a b c d e f g h (suc (suc (suc (suc zero)))) = e
seven_cases P a b c d e f g h (suc (suc (suc (suc (suc zero))))) = f
seven_cases P a b c d e f g h (suc (suc (suc (suc (suc (suc zero)))))) = g
seven_cases P a b c d e f g h (suc (suc (suc (suc (suc (suc (suc n))))))) =
    h (suc (suc (suc (suc (suc (suc (suc n))))))) (ground arith)

-- The first retry waits one second, each further one twice as long up to the sixth, and every one
-- from the seventh on one minute.
pub backoff_doubles :
    (n : ℕ)
    → (n ≤ 1 → backoff n ≡ second)
      × (1 ≤ n → n < 6 → backoff (suc n) ≡ 2 * backoff n)
      × (7 ≤ n → backoff n ≡ minute)
unfolding backoff
backoff_doubles =
    seven_cases
      (λ n.
        (n ≤ 1 → backoff n ≡ second)
        × (1 ≤ n → n < 6 → backoff (suc n) ≡ 2 * backoff n)
        × (7 ≤ n → backoff n ≡ minute))
      (ground arith) (ground arith) (ground arith) (ground arith) (ground arith) (ground arith)
      (ground arith) (λ n h. ground arith)

-- A retry waits between one second and one minute, and no shorter than the retry before.
pub backoff_bounds :
    (n : ℕ) → (second ≤ backoff n) × (backoff n ≤ minute) × (backoff n ≤ backoff (suc n))
unfolding backoff
backoff_bounds =
    seven_cases (λ n. (second ≤ backoff n) × (backoff n ≤ minute) × (backoff n ≤ backoff (suc n)))
      (ground arith) (ground arith) (ground arith) (ground arith) (ground arith) (ground arith)
      (ground arith) (λ n h. ground arith)
