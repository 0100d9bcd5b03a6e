-- ===== src/Infra/Locks.antt =====
-- internal/infra/cache/preview.go: the cache of the previews and the lock, in memory. A method reads
-- the clock itself; its readings are arguments, and `memLock.try` may read it twice.
pub mod Held
use order_hub.Prelude.{
  ℕ, ◌+◌, ◌*◌, String, ◌<>◌, Bool, true, false, Option, none, some, List, ltb, leb, if◌then◌else◌,
}
use order_hub.Prelude.Int.{ℤ, pos, negsuc}
use order_hub.Prelude.Dict.{Dict, lookup, insert, remove}
use order_hub.Domain.Error.{Result, ok, err, bare, other, Err}
use order_hub.Domain.Scene.{minute}

-- `memLock`: when the lock on a key ends.
abbrev pub MemLock : Type 0
MemLock = Dict ℕ

unfoldable pub lock_key : String → String
lock_key key = "oh:lock:" <> key

-- `memLock.try`; `now` is the reading of the test and `later` the one of the write.
unfoldable pub try : String → ℕ → ℕ → ℕ → MemLock → Bool × MemLock
try key ttl now later locks = elim (lookup key locks) [
  | none ↦ (true, insert key (later + ttl) locks)
  | some exp ↦ if ltb now exp then (false, locks) else (true, insert key (later + ttl) locks)
]

-- `memLock.del`.
unfoldable pub del : String → MemLock → MemLock
del key locks = remove key locks

-- `RedisLocker.TryLock` without Redis; the function that it returns is `unlock` of the same key.
unfoldable pub try_lock : String → ℕ → ℕ → ℕ → MemLock → Bool × MemLock
try_lock key = try (lock_key key)

unfoldable pub unlock : String → MemLock → MemLock
unlock key = del (lock_key key)

unfoldable pub quote_key : String → String → String
quote_key tenant quote = "oh:quote:" <> tenant <> ":" <> quote

-- `memItem`, the text of a preview and when it ends.
pub record MemItem : Type 0 where
  pub raw : String
  pub exp : ℕ

abbrev pub MemPreview : Type 0
MemPreview = Dict MemItem

unfoldable pub mem_put : String → String → ℕ → ℕ → MemPreview → MemPreview
mem_put key raw ttl now items = insert key (record { raw = raw; exp = now + ttl }) items

unfoldable pub mem_get : String → ℕ → MemPreview → Option String × MemPreview
mem_get key now items = elim (lookup key items) [
  | none ↦ (none, remove key items)
  | some it ↦ if ltb it.exp now then (none, remove key items) else (some it.raw, items)
]

-- `if ttl <= 0 { ttl = 5 * time.Minute }`.
unfoldable pub ttl_or_default : ℤ → ℕ
ttl_or_default (negsuc _) = 5 * minute
ttl_or_default (pos n) = if leb n 0 then 5 * minute else n

-- The store of the previews without Redis, with the JSON of a preview as parameters.
module _ {S : Type 0} (marshal : S → Result String) (unmarshal : String → Result S) where
  unfoldable pub put : String → String → S → ℤ → ℕ → MemPreview → Result (Unit {0}) × MemPreview
  put tenant quote snap ttl now items = elim (marshal snap) [
    | err e ↦ (err e, items)
    | ok body ↦ (ok tt, mem_put (quote_key tenant quote) body (ttl_or_default ttl) now items)
  ]

  unfoldable pub get_by_quote : String → String → ℕ → MemPreview → Result S × MemPreview
  get_by_quote tenant quote now items =
      let (found, kept) = mem_get (quote_key tenant quote) now items in
      (
        elim found [
          | none ↦ err (record { kind = other; text = "preview not found" })
          | some raw ↦ unmarshal raw
        ],
        kept,
      )
