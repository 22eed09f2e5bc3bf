-- ===== src/Base/Kept.antt =====
-- Steps that keep an invariant: where they end with a client, it holds of that client.
use mathlib.Core.Path.{◌≡◌, refl, subst}
use mathlib.Core.Bool.{Bool, true, false}
use mathlib.Core.Option.{Option, none, some}
use iotbroker_cloud_c_client.Base.Tests.{if◌then◌else◌}
use iotbroker_cloud_c_client.Base.Partial.{Outcome, ok, refused, fault, ◌>>=◌}

pub data Kept {C : Type 0} (P : C → Type 0) (o : Outcome C) : Type 0 where
  kept : ((c : C) → o ≡ ok c → P c) → Kept P o

module _ {C : Type 0} {P : C → Type 0} where
  pub Kept-holds : {o : Outcome C} {c : C} → Kept P o → o ≡ ok c → P c
  Kept-holds (kept f) e = f _ e

  pub Kept-ok : (c : C) → P c → Kept P (ok c)
  Kept-ok c p = kept λ c' e. let same : c ≡ c' = cc in subst P same p

  pub Kept-refused : Kept P refused
  Kept-refused = kept λ c e. cc

  pub Kept-fault : Kept P fault
  Kept-fault = kept λ c e. cc

  pub Kept->>= :
      (o : Outcome C) (f : C → Outcome C)
      → Kept P o
      → ((c : C) → P c → Kept P (f c))
      → Kept P (o >>= f)
  Kept->>= (ok c) f (kept g) k = k c (g c refl)
  Kept->>= refused f g k = Kept-refused
  Kept->>= fault f g k = Kept-fault

  -- A step in front that does not touch the client.
  pub Kept-step :
      {A : Type 0} (o : Outcome A) (f : A → Outcome C) → ((a : A) → Kept P (f a)) → Kept P (o >>= f)
  Kept-step (ok a) f k = k a
  Kept-step refused f k = Kept-refused
  Kept-step fault f k = Kept-fault

  pub Kept-if : (b : Bool) {x y : Outcome C} → Kept P x → Kept P y → Kept P (if b then x else y)
  Kept-if true kx ky = kx
  Kept-if false kx ky = ky

  -- A lookup that may have found nothing.
  pub Kept-found :
      {A : Type 0} (f : Option A → Outcome C) (o : Option A)
      → Kept P (f none)
      → ((a : A) → Kept P (f (some a)))
      → Kept P (f o)
  Kept-found f none kn ks = kn
  Kept-found f (some a) kn ks = ks a
