-- ===== src/Deps.antt =====
-- What the program takes from its surroundings, gathered: the ingitdb library, Go's runtime and
-- regular expressions, the value of runtime.GOOS, and the operating system.
use dalgo2ingitdb.Base.{String, Option}
use dalgo2ingitdb.Base.Value.{Runtime}
use dalgo2ingitdb.Base.Result.{Result}
use dalgo2ingitdb.Schema.{Ingitdb}
use dalgo2ingitdb.Disk.{Os}

-- Package regexp, for patterns with one group: `QuoteMeta`, and `Compile` with the first group of
-- `FindStringSubmatch`.
pub record Regexp : Type 0 where
  pub quote_meta : String → String
  pub compile : String → Result (String → Option String)

pub record Deps : Type 1 where
  pub lib : Ingitdb
  pub rt : Runtime
  pub goos : String
  pub regexp : Regexp
  pub os : Os
