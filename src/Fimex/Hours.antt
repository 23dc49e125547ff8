-- ===== src/Fimex/Hours.antt =====
-- How many time steps the output has, for the number of hours that is asked for.
use Prim.Native.String.{String}
use eps2probandltf.Common.{
  if◌then◌else◌, leb, ltb, ℕ, suc, ◌*◌, ◌-◌, ◌^◌, ◌<◌, ◌≡◌, refl, true, List, [], ◌∷◌, none, Error,
  ok, err, arith,
}
use eps2probandltf.Common.Int.{ℤ, pos, negsuc}
use eps2probandltf.Machine.{Machine}
use eps2probandltf.Configuration.Options.{
  ParsedOptions, ProgramOptions, Start, finish_options, with_parameters,
}
use eps2probandltf.Fimex.Cdm.{CdmReader, CdmLibrary, CdmDimension}
use eps2probandltf.Fimex.Setup.{
  wanted_seconds, count_times, Transfer, limited_dimension, transfer_new_dimension,
}

-- The seconds of a number of hours fit an `int` up to 596523 hours in either direction, and overflow it
-- beyond.
wanted_seconds_lem :
    (h : ℕ)
    → (wanted_seconds (pos h) ≡ (if leb h 596523 then ok (pos (3600 * h)) else err Error.undefined))
      × (wanted_seconds (negsuc h)
          ≡ (if ltb h 596523 then ok (negsuc (3600 * suc h - 1)) else err Error.undefined))
unfolding wanted_seconds
wanted_seconds_lem h = (ground arith, ground arith)

-- The number of hours that the program starts with.
hours_lem :
    {F : Type 0} (sysconfdir : String) (parsed : ParsedOptions F) (options : ProgramOptions F)
    → parsed.timesteps ≡ none
    → finish_options sysconfdir parsed ≡ ok (Start.starts options)
    → options.control.number_of_hours_to_generate ≡ pos (2 ^ 31 - 1)
unfolding finish_options with_parameters
hours_lem sysconfdir parsed options e f = ground (arith, e, f)

module _ ⦃m : Machine⦄ where
  count_nothing : (hours : ℤ) → count_times hours [] ≡ err Error.undefined
  unfolding count_times
  count_nothing hours = refl

  count_overflow :
      (h : ℕ) (first : m.Double) (times : List m.Double)
      → 596523 < h
      → count_times (pos h) (first ∷ times) ≡ err Error.undefined
  unfolding count_times
  count_overflow h first times k = ground (arith, (wanted_seconds_lem h).0, k)

module _ ⦃m : Machine⦄ {Cdm Attribute : Type 0} (lib : CdmLibrary Cdm m.Float Attribute)
    (source : CdmReader m.Float m.Double Attribute) where
  -- If the option `timesteps` is not given and the program starts, then the constructor of the output
  -- reader overflows an `int` at an unlimited dimension of the source whose values can be read.
  pub default_hours_lem :
      (sysconfdir : String) (parsed : ParsedOptions m.Float) (options : ProgramOptions m.Float)
      → parsed.timesteps ≡ none
      → finish_options sysconfdir parsed ≡ ok (Start.starts options)
      → (d : CdmDimension) (t : Transfer Cdm) (times : List m.Double) → d.is_unlimited ≡ true
      → source.get_data d.name ≡ ok times
      → transfer_new_dimension lib options.control.number_of_hours_to_generate source d t
        ≡ err Error.undefined
  unfolding transfer_new_dimension limited_dimension
  default_hours_lem sysconfdir parsed options e f d t times g h =
      rw (hours_lem sysconfdir parsed options e f, g, h, too_many times) refl
    where
      too_many :
          (times : List m.Double) → count_times (pos (2 ^ 31 - 1)) times ≡ err Error.undefined
      too_many [] = count_nothing (pos (2 ^ 31 - 1))
      too_many (first ∷ times) = count_overflow (2 ^ 31 - 1) first times (omega arith)
