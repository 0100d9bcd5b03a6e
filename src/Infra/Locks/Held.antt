-- ===== src/Infra/Locks/Held.antt =====
-- internal/infra/cache/preview.go: who holds a lock, and how long a preview is found.
use order_hub.Prelude.{
  ℕ, ◌+◌, ◌≤◌, ◌<◌, ◌≡◌, ◌≢◌, refl, sym, subst, ◌∙◌, String, ◌==◌, eq_refl, text-differs,
  text-cases, Option-cases, false, Bool-cases, inl, inr, ◌⊎◌, none, some, List, [], ◌∷◌, ltb-true,
  ltb-false, ltb, if◌then◌else◌,
}
use order_hub.Prelude.Int.{ℤ}
use order_hub.Prelude.Dict.{
  lookup, insert, remove, lookup-insert, lookup-insert_self, lookup-remove,
}
use order_hub.Domain.Error.{Result, ok, err, other}
use order_hub.Infra.Locks.{
  MemLock, try, del, MemPreview, mem_put, mem_get, quote_key, ttl_or_default, put, get_by_quote,
}

-- A use of the lock: an attempt on a key, with its readings of the clock, or a release.
pub data Use : Type 0 where
  attempt : String → (ttl now later : ℕ) → Use
  release : String → Use

-- The uses one after the other; how often the key was got.
abbrev pub gains : String → List Use → MemLock → ℕ
gains key [] locks = 0
gains key (release k ∷ us) locks = gains key us (del k locks)
gains key (attempt k ttl now later ∷ us) locks =
    let (got, after) = try k ttl now later locks in
    let rest = gains key us after in if got then (if k == key then 1 + rest else rest) else rest

-- Until the time `exp`, and nobody releases the key.
abbrev pub IsBefore : String → ℕ → List Use → Type 0
IsBefore key exp [] = Unit
IsBefore key exp (release k ∷ us) = (k ≢ key) × IsBefore key exp us
IsBefore key exp (attempt k ttl now later ∷ us) = (now < exp) × IsBefore key exp us

module _ (k : String) (ttl now later : ℕ) (locks : MemLock) where
  try-held :
      {exp : ℕ} → lookup k locks ≡ some exp → now < exp → try k ttl now later locks ≡ (false, locks)
  unfolding try
  try-held {exp} held early = rw (held, ltb-true now exp early, try) refl

  lookup-try :
      (key : String) → k ≢ key → lookup key (try k ttl now later locks).1 ≡ lookup key locks
  unfolding try
  lookup-try key differs = elim (Option-cases (lookup k locks)) [
    | inl free ↦ rw (free, try) written
    | inr (exp, held) ↦ elim (Bool-cases (ltb now exp)) [
      | inl early ↦ rw (held, early, try) refl
      | inr over ↦ rw (held, over, try) written
    ]
  ]
    where
      written : lookup key (insert k (later + ttl) locks) ≡ lookup key locks
      written = lookup-insert k key (later + ttl) locks ∙ rw (text-differs differs) refl

  -- An attempt on a key that nobody holds any more.
  gains-got :
      (us : List Use)
      → (lookup k locks ≡ none) ⊎ ((exp : ℕ) × (lookup k locks ≡ some exp) × (exp ≤ now))
      → gains k (attempt k ttl now later ∷ us) locks ≡ 1 + gains k us (insert k (later + ttl) locks)
  unfolding try
  gains-got us (inl free) = rw (free, eq_refl k, try) refl
  gains-got us (inr (exp, held, over)) = rw (held, ltb-false now exp over, eq_refl k, try) refl

  gains-other :
      (key : String) (us : List Use)
      → k ≢ key
      → gains key (attempt k ttl now later ∷ us) locks ≡ gains key us (try k ttl now later locks).1
  gains-other key us differs = elim (Bool-cases (try k ttl now later locks).0) [
    | inl got ↦ rw (got, text-differs differs) refl
    | inr refused ↦ rw refused refl
  ]

-- A lock that somebody got is got by nobody else before its time is over or it is released, however
-- the others use this key and other keys meanwhile.
pub gains-none :
    (key : String) (exp : ℕ) (us : List Use) (locks : MemLock)
    → lookup key locks ≡ some exp
    → IsBefore key exp us
    → gains key us locks ≡ 0
unfolding del
gains-none key exp [] locks held h = refl
gains-none key exp (release k ∷ us) locks held (differs, h) =
    gains-none key exp us (remove k locks)
      (lookup-remove k key locks ∙ rw (text-differs differs) held) h
gains-none key exp (attempt k ttl now later ∷ us) locks held (early, h) = elim (text-cases k key) [
  | inl same ↦
      subst (λ name. gains key (attempt name ttl now later ∷ us) locks ≡ 0) (sym same)
        (rw (try-held key ttl now later locks held early) (gains-none key exp us locks held h))
  | inr differs ↦
      gains-other k ttl now later locks key us differs
      ∙ gains-none key exp us (try k ttl now later locks).1
          (lookup-try k ttl now later locks key differs ∙ held) h
]

abbrev release_then : String → ℕ → ℕ → ℕ → ℕ → List Use
release_then key ttl₂ t₂ ttl₃ t₃ =
    attempt key ttl₂ t₂ t₂ ∷ release key ∷ attempt key ttl₃ t₃ t₃ ∷ []

-- A second holder gets a lock whose time is over; the first holder's release, which comes late, frees
-- the key all the same, and a third one gets it while the second still holds it.
pub late_release :
    (key : String) (ttl₁ t₁ ttl₂ t₂ ttl₃ t₃ : ℕ) (locks : MemLock)
    → lookup key locks ≡ none
    → t₁ + ttl₁ ≤ t₂
    → t₂ ≤ t₃
    → t₃ < t₂ + ttl₂
    → gains key
        (attempt key ttl₁ t₁ t₁
          ∷ attempt key ttl₂ t₂ t₂
          ∷ release key
          ∷ attempt key ttl₃ t₃ t₃
          ∷ [])
        locks
      ≡ 3
unfolding del
late_release key ttl₁ t₁ ttl₂ t₂ ttl₃ t₃ locks free over later early =
    let first = insert key (t₁ + ttl₁) locks in
    let second = insert key (t₂ + ttl₂) first in
    rw
      (
        gains-got key ttl₁ t₁ t₁ locks (release_then key ttl₂ t₂ ttl₃ t₃) (inl free),
        gains-got key ttl₂ t₂ t₂ first (release key ∷ attempt key ttl₃ t₃ t₃ ∷ [])
            (inr (t₁ + ttl₁, lookup-insert_self key (t₁ + ttl₁) locks, over)),
        gains-got key ttl₃ t₃ t₃ (remove key second) []
            (inl (lookup-remove key key second ∙ rw (eq_refl key) refl)),
      )
      refl

-- A preview that was put is found under its quote until its time is over, if its JSON can be read
-- back, and after that it is not.
pub get_by_quote-put :
    {S : Type 0} (marshal : S → Result String) (unmarshal : String → Result S)
    (tenant quote : String) (snap : S) (body : String) (ttl : ℤ) (put_at now : ℕ)
    (items : MemPreview)
    → marshal snap ≡ ok body
    → unmarshal body ≡ ok snap
    → let stored = (put marshal unmarshal tenant quote snap ttl put_at items).1 in
      let found = (get_by_quote marshal unmarshal tenant quote now stored).0 in
      (now ≤ put_at + ttl_or_default ttl → found ≡ ok snap)
      × (put_at + ttl_or_default ttl < now
          → found ≡ err (record { kind = other; text = "preview not found" }))
unfolding put get_by_quote mem_put mem_get
get_by_quote-put marshal unmarshal tenant quote snap body ttl put_at now items written read =
    rw
      (
        written,
        put,
        get_by_quote,
        mem_put,
        mem_get,
        lookup-insert_self (quote_key tenant quote)
            (record { raw = body; exp = put_at + ttl_or_default ttl }) items,
      )
      (
        (λ soon. rw (ltb-false (put_at + ttl_or_default ttl) now soon) read),
        (λ late. rw (ltb-true (put_at + ttl_or_default ttl) now late) refl),
      )
