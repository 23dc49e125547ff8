-- ===== src/Forecast/Swallowed.antt =====
-- `HANDLE_EXCEPTIONS` of generator/ProbabilityGenerator.cpp, over the whole of `work`.
use Prim.Native.String.{String}
use eps2probandltf.Common.{
  Bool, true, false, ◌≢◌, arith, Option, none, some, Result, Error, ok, err, if◌then◌else◌,
}
use eps2probandltf.Common.Steps.{Step, after, ◌>>=◌, return, lift}
use eps2probandltf.Machine.{Machine}
use eps2probandltf.DataTypes.{BlobCollection, BlobValue}
use eps2probandltf.DataAccess.{Source}
use eps2probandltf.Configuration.{GeneratorControl, should_generate}
use eps2probandltf.Generator.Symbol.{SymbolLibrary}
use eps2probandltf.Forecast.Handlers.{Products, Handler, generate_symbols}
use eps2probandltf.Forecast.Work.{
  when_generated, generate_with, make_symbols, generate_rest, generate, handle_exceptions, caught,
  tried,
}

-- The error is not missing data.
abbrev pub IsOther : {A : Type 0} → Result A → Type 0
IsOther r = r ≢ err Error.data_not_available

module _ ⦃m : Machine⦄ where
  -- The computation never ends with missing data.
  pub record Avoids {A : Type 0} (h : Step Products A) : Type 0 where
    pub avoided : (s : Products) → IsOther (h s).0

  err-IsOther : {A B : Type 0} (e : Error) → IsOther {A = A} (err e) → IsOther {A = B} (err e)
  err-IsOther e k q = k (ground (arith, q))

  after-IsOther :
      {A B : Type 0} (r : Result A × Products) (f : A → Step Products B)
      → IsOther r.0
      → ((a : A) → Avoids (f a))
      → IsOther (after r f).0
  after-IsOther (ok a, s) f k l = (l a).avoided s
  after-IsOther (err e, s) f k l = err-IsOther e k

  then-Avoids :
      {A B : Type 0} {h : Step Products A} {f : A → Step Products B}
      → Avoids h
      → ((a : A) → Avoids (f a))
      → Avoids (h >>= f)
  unfolding ◌>>=◌
  then-Avoids {h = h} {f = f} k l = record { avoided = λ s. after-IsOther (h s) f (k.avoided s) l }

  return-Avoids : {A : Type 0} (a : A) → Avoids (return a)
  unfolding return
  return-Avoids a = record { avoided = λ s q. absurd (ground (arith, q)) }

  lift-Avoids : {A : Type 0} (r : Result A) → IsOther r → Avoids (lift r)
  unfolding lift
  lift-Avoids r k = record { avoided = λ s. k }

  if-Avoids : (b : Bool) {h : Handler} → Avoids h → Avoids (if b then h else return tt)
  if-Avoids true k = k
  if-Avoids false k = return-Avoids tt

  caught-IsOther : (r : Result (Unit {0}) × Products) → IsOther (caught r).0
  caught-IsOther (ok u, s) q = absurd (ground (arith, q))
  caught-IsOther (err Error.data_not_available, s) q = absurd (ground (arith, q))
  caught-IsOther (err Error.out_of_range, s) q = absurd (ground (arith, q))
  caught-IsOther (err Error.logic_error, s) q = absurd (ground (arith, q))
  caught-IsOther (err Error.runtime_error, s) q = absurd (ground (arith, q))
  caught-IsOther (err Error.undefined, s) q = absurd (ground (arith, q))

  handled : (h : Handler) → Avoids (handle_exceptions h)
  unfolding handle_exceptions
  handled h = record { avoided = λ s. caught-IsOther (h s) }

  tried-IsOther : (r : Result BlobCollection × Products) → IsOther (tried r).0
  tried-IsOther (ok u, s) q = absurd (ground (arith, q))
  tried-IsOther (err Error.data_not_available, s) q = absurd (ground (arith, q))
  tried-IsOther (err Error.out_of_range, s) q = absurd (ground (arith, q))
  tried-IsOther (err Error.logic_error, s) q = absurd (ground (arith, q))
  tried-IsOther (err Error.runtime_error, s) q = absurd (ground (arith, q))
  tried-IsOther (err Error.undefined, s) q = absurd (ground (arith, q))

  module _ ⦃lib : SymbolLibrary BlobValue⦄ {Time : Type 0} (source : Source Time)
      (conf : GeneratorControl BlobValue) (valid_time next_valid_time : Time) where
    should_generate-IsOther : (what : String) → IsOther (should_generate conf what)
    unfolding should_generate
    should_generate-IsOther what q = absurd (ground (arith, q))

    when_generated-Avoids :
        (what : String) {h : Handler}
        → Avoids h
        → Avoids (when_generated source conf valid_time next_valid_time what h)
    unfolding when_generated
    when_generated-Avoids what k =
        then-Avoids (lift-Avoids _ (should_generate-IsOther what)) λ wanted. if-Avoids wanted k

    generate_with-Avoids :
        (symbols : BlobCollection)
        → Avoids (generate_with source conf valid_time next_valid_time symbols)
    unfolding generate_with
    generate_with-Avoids symbols = then-Avoids (when_generated-Avoids "clouds" (handled _)) λ _.
        then-Avoids
          (when_generated-Avoids "temperature"
            (then-Avoids (handled _) λ _. then-Avoids (handled _) λ _. handled _))
          λ _. then-Avoids (when_generated-Avoids "wind" (handled _)) λ _.
            then-Avoids (when_generated-Avoids "precipitation" (handled _)) λ _.
              then-Avoids (when_generated-Avoids "pressure" (handled _))
                λ _. when_generated-Avoids "humidity" (handled _)

    make_symbols-Avoids :
        (wanted : Bool) → Avoids (make_symbols source conf valid_time next_valid_time wanted)
    unfolding make_symbols
    make_symbols-Avoids true = record {
      avoided = λ s. tried-IsOther (generate_symbols source conf valid_time next_valid_time s);
    }
    make_symbols-Avoids false = record { avoided = λ s q. absurd (ground (arith, q)) }

    generate_rest-Avoids :
        (made : Option (Option BlobCollection))
        → Avoids (generate_rest source conf valid_time next_valid_time made)
    unfolding generate_rest
    generate_rest-Avoids (some none) = return-Avoids false
    generate_rest-Avoids (some (some symbols)) =
        then-Avoids (generate_with-Avoids symbols)
          λ _. then-Avoids (when_generated-Avoids "waves" (handled _)) λ _. return-Avoids true
    generate_rest-Avoids none =
        then-Avoids (when_generated-Avoids "waves" (handled _)) λ _. return-Avoids true

    pub generate-Avoids : Avoids (generate source conf valid_time next_valid_time)
    unfolding generate
    generate-Avoids =
        then-Avoids (lift-Avoids _ (should_generate-IsOther "symbols"))
          λ wanted. then-Avoids (make_symbols-Avoids wanted) λ made. generate_rest-Avoids made
