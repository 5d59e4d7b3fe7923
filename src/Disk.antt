-- ===== src/Disk.antt =====
-- The operating system as the adapter meets it, and code that reads and writes files and may fail.
pub mod Action
pub mod Leaves
pub mod Laws
use dalgo2ingitdb.Base.{ℕ, String, ◌≡◌, refl, ◌⊎◌, inl, inr, List}
use dalgo2ingitdb.Base.Result.{Error, Result}
use dalgo2ingitdb.Schema.{Bytes}
use dalgo2ingitdb.Paths.{clean, render}

-- The name of the file that a path stands for.
unfoldable pub clean_text : String → String
clean_text path = render (clean path)

-- `os.Stat`: found with its mode, `fs.ErrNotExist`, or another error
pub data Stat : Type 0 where
  found : ℕ → Stat
  missing : Stat
  failed : Error → Stat

pub Stat-cases :
    (x : Stat) → ((mode : ℕ) × (x ≡ found mode)) ⊎ ((x ≡ missing) ⊎ ((e : Error) × (x ≡ failed e)))
Stat-cases (found mode) = inl (mode, refl)
Stat-cases missing = inr (inl refl)
Stat-cases (failed e) = inr (inr (e, refl))

-- `os.Remove`
pub data Removal : Type 0 where
  removed : Removal
  absent : Removal
  failed : Error → Removal

-- The calls of package os and of the file locks. Each gives the state that it leaves, also where it
-- fails.
pub record Os : Type 1 where
  pub State : Type 0
  pub stat : String → State → Stat
  pub read_file : String → State → Result Bytes
  -- `filepath.Glob`
  pub glob : String → State → Result (List String)
  pub write_file : String → Bytes → ℕ → State → Result (Unit {0}) × State
  pub remove : String → State → Removal × State
  pub mkdir_all : String → State → Result (Unit {0}) × State
  -- `Lock` and `RLock` of a file lock on the path
  pub lock : String → State → Result (Unit {0}) × State
  pub rlock : String → State → Result (Unit {0}) × State
