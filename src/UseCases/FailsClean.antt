-- ===== src/UseCases/FailsClean.antt =====
-- Which use cases leave the world as it was when they return an error: those that fail before they
-- change anything, and those whose changes stand in a unit of work (internal/application/usecases).
pub mod Calls
use fulfillment_execution.Prelude.{
  ◌≡◌, refl, Bool, true, false, Option, none, some, if◌then◌else◌, arith,
}
use fulfillment_execution.Shared.Capabilities.{CapabilitySet}
use fulfillment_execution.UseCases.Effects.{
  World, Env, M, Result, ok, err, continue, AppError, PortCall, ◌>>=◌, pure, fail, get, put,
  or_fail, refuse, calls, atomically, atomically_rolls_back,
}

abbrev pub Undone : {A : Type 0} → World → Result A → World → Type 0
Undone w (ok a) after = Unit {0}
Undone w (err e) after = after ≡ w

pub record FailsClean {A : Type 0} (m : M A) : Type 0 where
  pub undone : (w : World) → Undone w (m w).0 (m w).1

-- It changes nothing, whether it fails or not.
pub record Reads {A : Type 0} (m : M A) : Type 0 where
  pub same : (w : World) → (m w).1 ≡ w

module _ {A B : Type 0} {f : A → M B} where
  continue-Undone :
      ((a : A) → FailsClean (f a))
      → (r : Result A) (w v : World) → v ≡ w
      → Undone w (continue r f v).0 (continue r f v).1
  continue-Undone q (ok a) w v e = rw e ((q a).undone w)
  continue-Undone q (err x) w v e = e

  pub read_then-FailsClean :
      {m : M A} → Reads m → ((a : A) → FailsClean (f a)) → FailsClean (m >>= f)
  read_then-FailsClean {m} p q = record {
    undone = λ w. continue-Undone q (m w).0 w (m w).1 (p.same w);
  }

continue-pure-Undone :
    {A B : Type 0} (g : A → B) (r : Result A) (w v : World)
    → Undone w r v
    → Undone w (continue r (λ a. pure (g a)) v).0 (continue r (λ a. pure (g a)) v).1
continue-pure-Undone g (ok a) w v p = tt
continue-pure-Undone g (err x) w v p = p

pub then_pure-FailsClean :
    {A B : Type 0} {m : M A} (g : A → B) → FailsClean m → FailsClean (m >>= λ a. pure (g a))
then_pure-FailsClean {A} {B} {m} g p = record {
  undone = λ w. continue-pure-Undone g (m w).0 w (m w).1 (p.undone w);
}

pub pure-FailsClean : {A : Type 0} (a : A) → FailsClean (pure a)
pure-FailsClean a = record { undone = λ w. tt }

pub fail-FailsClean : {A : Type 0} (e : AppError) → FailsClean {A = A} (fail e)
fail-FailsClean e = record { undone = λ w. refl }

pub put-FailsClean : (f : World → World) → FailsClean (put f)
put-FailsClean f = record { undone = λ w. tt }

pub if-FailsClean :
    {A : Type 0} (b : Bool) {m n : M A}
    → FailsClean m
    → FailsClean n
    → FailsClean (if b then m else n)
if-FailsClean true p q = p
if-FailsClean false p q = q

pub get_then-FailsClean :
    {A : Type 0} {f : World → M A} → ((w : World) → FailsClean (f w)) → FailsClean (get >>= f)
get_then-FailsClean p = record { undone = λ w. (p w).undone w }

pub calls-Reads : (env : Env) (c : PortCall) → Reads (calls env c)
calls-Reads env c = record { same = λ w. ground arith }

pub or_fail-Reads : {A : Type 0} (o : Option A) (e : AppError) → Reads (or_fail o e)
or_fail-Reads none e = record { same = λ w. refl }
or_fail-Reads (some a) e = record { same = λ w. refl }

pub or_fail-FailsClean : {A : Type 0} (o : Option A) (e : AppError) → FailsClean (or_fail o e)
or_fail-FailsClean none e = record { undone = λ w. refl }
or_fail-FailsClean (some a) e = record { undone = λ w. tt }

pub refuse-Reads : {E : Type 0} (wrap : E → AppError) (o : Option E) → Reads (refuse wrap o)
refuse-Reads wrap none = record { same = λ w. refl }
refuse-Reads wrap (some x) = record { same = λ w. refl }

errors-Undone :
    {A : Type 0} (w : World) (r : Result A) (v : World)
    → ((e : AppError) → r ≡ err e → v ≡ w)
    → Undone w r v
errors-Undone w (ok a) v p = tt
errors-Undone w (err e) v p = p e refl

-- A use case is as its theorem on errors says.
pub outcome-FailsClean :
    {A : Type 0} (m : M A)
    → ((w : World) (e : AppError) → (m w).0 ≡ err e → (m w).1 ≡ w)
    → FailsClean m
outcome-FailsClean m p = record { undone = λ w. errors-Undone w (m w).0 (m w).1 (p w) }

pub atomically-FailsClean :
    {A : Type 0} (env : Env) (fn : Bool → M A)
    → env.unit_of_work ≡ true
    → FailsClean (atomically env false fn)
atomically-FailsClean env fn u =
    outcome-FailsClean (atomically env false fn) λ w e h. atomically_rolls_back env fn w u h

module _ {A : Type 0} (a : A) (rest : M A) (q : FailsClean rest) where
  continue-retry-Undone :
      (r : Result Bool) (w v : World)
      → Undone w r v
      → (r ≡ ok false → v ≡ w)
      → let next : Bool → M A = λ won. elim won [ true ↦ pure a | false ↦ rest ] in
        Undone w (continue r next v).0 (continue r next v).1
  continue-retry-Undone (ok true) w v p lost = tt
  continue-retry-Undone (ok false) w v p lost = rw (lost refl) (q.undone w)
  continue-retry-Undone (err e) w v p lost = p

  -- An attempt that changes nothing where it answers `false`, and then the rest.
  pub retry-FailsClean :
      {m : M Bool}
      → FailsClean m
      → ((w : World) → (m w).0 ≡ ok false → (m w).1 ≡ w)
      → FailsClean (m >>= λ won. elim won [ true ↦ pure a | false ↦ rest ])
  retry-FailsClean {m} p lost = record {
    undone = λ w. continue-retry-Undone (m w).0 w (m w).1 (p.undone w) (lost w);
  }

pub refused-FailsClean :
    {A E : Type 0} (refusal : Option E) {m n : M A}
    → FailsClean m
    → FailsClean n
    → FailsClean (elim refusal [ some _ ↦ n | none ↦ m ])
refused-FailsClean (some x) p q = q
refused-FailsClean none p q = p
