-- ===== src/Git.antt =====
-- git_commit.go, lines 43 to 162: the commit of the written files, through a temporary index.
pub mod Frame
use dalgo2ingitdb.Base.{
  String, ◌<>◌, ◌==◌, Bool, true, false, not, Option, none, some, List, [], ◌∷◌, ◌++◌, contains,
  if◌then◌else◌,
}
use dalgo2ingitdb.Base.Result.{Error, failure, wrapped, Result, ok, err}
use dalgo2ingitdb.Disk.{Os}
use dalgo2ingitdb.Disk.Action.{pure, raise, lift, ◌>>=◌, ◌>>◌, map_result, wrap_error}
use dalgo2ingitdb.RecordIo.{Io}

-- The program git and what else the commit uses. `run` is a git command in the repository with the
-- index at the given path; `commit_tree` also reads the message.
pub record Git (os : Os) : Type 0 where
  pub is_inside_work_tree : os.State → Bool
  pub create_temp : Io os String
  pub remove_temp : String → os.State → os.State
  pub run : String → List String → Io os String
  pub commit_tree : String → List String → String → Io os String
  -- `rev-parse --verify HEAD^{commit}`: the commit, none on an unborn branch, or an error
  pub head : Io os (Option String)
  -- `filepath.Abs`, which returns its argument where it fails
  pub abs : String → String
  pub trim_space : String → String

unfoldable pub dedupe_from : List String → List String → List String
dedupe_from seen [] = []
dedupe_from seen (s ∷ ss) =
    if contains seen s then dedupe_from seen ss else s ∷ dedupe_from (s ∷ seen) ss

unfoldable pub dedupe_strings : List String → List String
unfolding dedupe_from
dedupe_strings = dedupe_from []

abbrev pub map_abs : (String → String) → List String → List String
map_abs f [] = []
map_abs f (s ∷ ss) = f s ∷ map_abs f ss

abbrev pub no_commit : String
no_commit = "0000000000000000000000000000000000000000"

abbrev pub parent_args : Option String → List String
parent_args none = []
parent_args (some head) = "-p" ∷ head ∷ []

abbrev pub old_head : Option String → String
old_head none = no_commit
old_head (some head) = head

abbrev pub seed_args : Option String → List String
seed_args none = "read-tree" ∷ "--empty" ∷ []
seed_args (some head) = "read-tree" ∷ head ∷ []

module _ (os : Os) (git : Git os) where
  abbrev pub labelled : {A : Type 0} → String → Io os A → Io os A
  labelled message m = map_result (wrap_error (wrapped message)) m

  unfoldable pub commit_index : String → List String → String → Io os (Unit {0})
  commit_index index staged message = do
    head ← git.head
    labelled "seed temporary index" (git.run index (seed_args head))
    labelled "git add" (git.run index ("add" ∷ "--" ∷ staged))
    tree ← labelled "write transaction tree" (git.run index ("write-tree" ∷ []))
    new_head ←
        labelled "create transaction commit"
          (git.commit_tree index (git.trim_space tree ∷ parent_args head) (message <> "\n"))
    labelled "publish transaction commit"
        (git.run index ("update-ref" ∷ "HEAD" ∷ git.trim_space new_head ∷ old_head head ∷ []))
    pure tt

  -- The deferred removal of the temporary index, whether the commit succeeds or not.
  abbrev pub with_removal : String → Io os (Unit {0}) → Io os (Unit {0})
  with_removal index m s = let (r, s') = m s in (r, git.remove_temp index s')

  abbrev pub commit_staged : List String → String → Io os (Unit {0})
  commit_staged staged message = do
    index ← labelled "create temporary index" git.create_temp
    with_removal index (commit_index index staged message)

  -- Outside a git work tree there is nothing to commit to.
  abbrev pub commit_deduped : String → List String → Io os (Unit {0})
  commit_deduped message [] s = (ok tt, s)
  commit_deduped message (p ∷ ps) s =
      if git.is_inside_work_tree s
      then commit_staged (map_abs git.abs (p ∷ ps)) message s
      else (ok tt, s)

  unfoldable pub git_commit_paths : List String → String → Io os (Unit {0})
  unfolding dedupe_strings commit_index
  git_commit_paths paths message = commit_deduped message (dedupe_strings paths)
