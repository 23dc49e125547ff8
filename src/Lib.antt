-- ===== src/Lib.antt =====
-- eps2probandltf turns an ensemble forecast into probabilities and likely values. The program reads, for
-- each forecast time, the fields of every member of the ensemble, one value for each grid point, and
-- writes fields of percentiles, of probabilities, and of the most likely symbol and of values that go
-- with it. It is C++; the paths here start at the repository's root.
--
-- The parts and the files that model them:
-- - src/dataTypes.h: DataTypes.antt (`getBlobCollection` is `get_blob_collection`).
-- - src/container: Container.antt. `CrossContainer` is a view of one point; `deref`, `subscript`,
--   `advance` and their like are the operators of its iterator; `column` and `write_column` are a pass
--   over the range from `begin()` to `end()`; `sort` is `algorithm::sort`,
--   and Container/Visit.antt has the other algorithms of ccAlgorithm.h.
-- - src/generator/percentile and src/generator/algorithms: Generator/Percentile.antt. The object with
--   its cache is `BasicPercentileGenerator`, `get10Percentile` is `get10_percentile`.
-- - src/generator/symbol: Generator/Symbol.antt, Generator/Symbol/Codes.antt and
--   Generator/Symbol/Generate.antt (`selectSymbol` is `select_symbol`, `getSymbolCertainty` is
--   `get_symbol_certainty`).
-- - src/generator/bits/algorithm.t.h: Generator/Probable.antt (`getProbableValues`).
-- - src/localtime.cpp: LocalTime.antt.
-- - src/generator/temperature, src/generator/precipitation and src/generator/simple:
--   Generator/Temperature.antt.
-- - src/generator/wind: Generator/Wind.antt.
-- - src/configuration: Configuration.antt (`shouldGenerate` is `should_generate`; `configure` is the part
--   of the constructor that reads `--exclude` and `--include`) and Configuration/Options.antt, the rest of
--   the constructor from the values of the options on.
-- - src/WeatherData.h: WeatherData.antt. src/data_access/Source.h and Sink.h and
--   src/data_access/fimex/FileType.h: DataAccess.antt.
-- - src/generator/ProbabilityGenerator.cpp: Forecast/Inputs.antt reads the input, Forecast/Handlers.antt
--   and Forecast/Groups.antt have the handlers (`generateWind_` is `generate_wind`), Forecast/Work.antt
--   `work`, `saveAll_` and the loop of src/generator/ProbabilityGeneratorControl.cpp. A handler is a
--   `Step` of Common/Steps.antt: it changes `toSave_` and may throw, and what it changed before it threw
--   stays.
-- - src/data_access/fimex/ParameterTranslation.cpp: Fimex/Identifiers.antt has the table of names,
--   Fimex/Xml.antt and Fimex/Translation.antt read the nodes, Fimex/Parameters.antt has the constructor
--   (`read_translation`) and `get` (`get_specification`). FimexDataSpecification.cpp there:
--   Fimex/Specification.antt.
-- - src/data_access/fimex/FimexSource.cpp: Fimex/Source.antt and Fimex/Extract.antt. `getValidTimes` and
--   `getData` are `get_valid_times` and `get_data`, which pass on the object with its list of times.
-- - src/data_access/fimex/GeneratedDataReader.cpp: Fimex/Setup.antt is the constructor, Fimex/Buffers.antt
--   the searches, Fimex/Generated.antt the object, `add` and `getDataSlice`. Fimex/Cdm.antt names what the
--   code calls of Fimex.
-- - src/main.cpp and src/data_access/fimex/FimexSink.cpp: Main.antt. It opens the source and the sink,
--   gives them to the control of Forecast/Work.antt and ends with the exit status.
-- - Common.antt and its children have the helpers, Examples.antt runs the code on small inputs.
--
-- Conventions. A collection of fields is a list of rows, one for each member, with one value for each
-- grid point. An exception is a value of `Error`, and code that can throw returns a `Result`. A read
-- outside a vector by `at` throws `std::out_of_range`; a read by `operator[]` outside a vector is
-- undefined in C++ and is the outcome `undefined`, so that a theorem which says that a function returns
-- also says that it makes no such read. The size of a collection is a natural number. Where the code keeps
-- a count or a product in a machine width the remainder is written out, and an `int` that a size becomes is
-- `int_of_size`. The counters of the loops over points and members are natural numbers, and so are the
-- indices that the loops make of them: the model of these loops is of collections with fewer than 2^31
-- points and members, for which no counter, and no index of type `int` or `unsigned` that is made of one,
-- wraps.
--
-- Parameters. Floating point numbers, their conversions, `atan2` and `std::sort`, with what it leaves if a
-- read throws, are those of `Machine` in Machine.antt: the theorems name what they need of them as
-- hypotheses, which Machine/Laws.antt states and Machine/Milli.antt and Machine/Sorting.antt satisfy with numbers in
-- thousandths and insertion sort. The weather_symbol library is the record `SymbolLibrary`.
--
-- Loops over points and members are recursion on the number of rounds left, which the code computes
-- before the loop, so no fuel is needed, but for the two loops that turn a wind direction into the
-- range from -180 to 180, which have fuel for three rounds: a direction or a difference of two is at
-- most one turn and a half.
--
-- The Fimex library is the records `CdmReader` and `CdmLibrary`, the nodes that libxml2 finds are a
-- `Document`, the conversions of texts are `TranslationLibrary`, and local times are `Clock` and
-- `TimeLibrary`, from the epoch on. Main.antt gives the control the source that reads its times at each
-- call.
--
-- Not modelled: the option parser, logging, what Fimex and libxml2 themselves do with files, the reading
-- of a time from a string, the build files and the unit tests.
pub mod Common
pub mod Machine
pub mod DataTypes
pub mod Container
pub mod Generator
pub mod Examples
pub mod Configuration
pub mod DataAccess
pub mod Fimex
pub mod Forecast
pub mod LocalTime
pub mod Main
pub mod WeatherData
