-- ===== src/Application/Keeps.antt =====
-- What a method of a service leaves true of the store, whatever it returns.
use order_hub.Prelude.{sym, ap, subst, Bool, true, false, inl, inr, if◌then◌else◌}
use order_hub.Domain.Error.{Result, Result-cases}
use order_hub.Memory.{Repo}
use order_hub.Application.Action.{Action, World, bind-ok, bind-err, ◌>>=◌}

-- `P` holds of the store after `m` if it held before.
abbrev pub Keeps : {A : Type 0} → (Repo → Type 0) → Action A → Type 0
Keeps P m = (w : World) → P w.repo → P (m w).1.repo

module _ (P : Repo → Type 0) where
  pub Keeps-bind :
      {A B : Type 0} (m : Action A) (f : A → Action B)
      → Keeps P m
      → ((a : A) → Keeps P (f a))
      → Keeps P (m >>= f)
  Keeps-bind {A} {B} m f first next w h =
      let after = (m w).1 in
      let ended = λ (x : Result B × World). P x.1.repo in
      elim (Result-cases (m w).0) [
        | inl (a, done) ↦
            subst ended (sym (bind-ok m f w (ap (λ (r : Result A). (r, after)) done)))
              (next a after (first w h))
        | inr (e, failed) ↦
            subst ended (sym (bind-err m f w (ap (λ (r : Result A). (r, after)) failed)))
              (first w h)
      ]

  pub Keeps-if :
      {A : Type 0} (test : Bool) (m k : Action A)
      → Keeps P m
      → Keeps P k
      → Keeps P (if test then m else k)
  Keeps-if true m k first second = first
  Keeps-if false m k first second = second
