-- ===== src/Disk/Laws.antt =====
-- What the adapter relies on: each call changes at most the file that it is given.
use dalgo2ingitdb.Base.{ℕ, String, ◌≡◌, ◌≢◌, Option, none, some}
use dalgo2ingitdb.Base.Result.{ok}
use dalgo2ingitdb.Schema.{Bytes}
use dalgo2ingitdb.Disk.{Os, found, missing, removed, absent, clean_text}

-- `content s p` is the contents of the regular file at `p`, if there is one.
pub record IsLawful (os : Os) (content : os.State → String → Option Bytes) : Type 0 where
  pub content-clean :
      (s : os.State) (p q : String) → clean_text p ≡ clean_text q → content s p ≡ content s q
  pub stat-missing : (s : os.State) (p : String) → os.stat p s ≡ missing → content s p ≡ none
  pub read-content :
      (s : os.State) (p : String) (b : Bytes) → os.read_file p s ≡ ok b → content s p ≡ some b
  pub write-ok :
      (s : os.State) (p : String) (b : Bytes) (mode : ℕ)
      → (os.write_file p b mode s).0 ≡ ok tt
      → content (os.write_file p b mode s).1 p ≡ some b
  pub write-frame :
      (s : os.State) (p : String) (b : Bytes) (mode : ℕ) (q : String)
      → clean_text p ≢ clean_text q
      → content (os.write_file p b mode s).1 q ≡ content s q
  pub remove-removed :
      (s : os.State) (p : String) → (os.remove p s).0 ≡ removed → content (os.remove p s).1 p ≡ none
  pub remove-absent :
      (s : os.State) (p : String) → (os.remove p s).0 ≡ absent → content (os.remove p s).1 p ≡ none
  pub remove-frame :
      (s : os.State) (p q : String)
      → clean_text p ≢ clean_text q
      → content (os.remove p s).1 q ≡ content s q
  pub mkdir-frame : (s : os.State) (p q : String) → content (os.mkdir_all p s).1 q ≡ content s q
  -- taking a lock may create the file
  pub lock-frame :
      (s : os.State) (p q : String)
      → clean_text p ≢ clean_text q
      → content (os.lock p s).1 q ≡ content s q
  -- a shared lock on a file that is there creates nothing
  pub rlock-frame :
      (s : os.State) (p : String) (mode : ℕ) (q : String)
      → os.stat p s ≡ found mode
      → content (os.rlock p s).1 q ≡ content s q
