-- ===== src/Git/Frame.antt =====
-- A commit changes no file of the project.
use dalgo2ingitdb.Base.{String, ◌≡◌, ◌∙◌, Option, Bool-cases, inl, inr, List, [], ◌∷◌}
use dalgo2ingitdb.Base.Result.{wrapped}
use dalgo2ingitdb.Schema.{Bytes}
use dalgo2ingitdb.Disk.{Os}
use dalgo2ingitdb.Disk.Action.{Keeps, Keeps-bind, Keeps-map_result, Keeps-pure, wrap_error}
use dalgo2ingitdb.Git.{
  Git, labelled, commit_index, commit_staged, commit_deduped, git_commit_paths, dedupe_strings,
}

-- No call of git changes the file at `q`, which lies outside the git directory and is not the
-- temporary index.
pub record IsQuiet (os : Os) (content : os.State → String → Option Bytes) (git : Git os)
    (q : String) : Type 0 where
  pub create_temp : (v : Option Bytes) → Keeps (λ s. content s q ≡ v) git.create_temp
  pub remove_temp :
      (index : String) (s : os.State) → content (git.remove_temp index s) q ≡ content s q
  pub run :
      (index : String) (args : List String) (v : Option Bytes)
      → Keeps (λ s. content s q ≡ v) (git.run index args)
  pub commit_tree :
      (index : String) (args : List String) (message : String) (v : Option Bytes)
      → Keeps (λ s. content s q ≡ v) (git.commit_tree index args message)
  pub head : (v : Option Bytes) → Keeps (λ s. content s q ≡ v) git.head

module _ (os : Os) (content : os.State → String → Option Bytes) (git : Git os) (q : String)
    (quiet : IsQuiet os content git q) (v : Option Bytes) where
  abbrev At : os.State → Type 0
  At s = content s q ≡ v

  run-At :
      (message index : String) (args : List String)
      → Keeps At (labelled os git message (git.run index args))
  run-At message index args =
      Keeps-map_result (wrap_error (wrapped message)) _ (quiet.run index args v)

  commit_index-At :
      (index : String) (staged : List String) (message : String)
      → Keeps At (commit_index os git index staged message)
  unfolding commit_index
  commit_index-At index staged message = Keeps-bind _ _ (quiet.head v) (λ head.
      Keeps-bind _ _ (run-At _ index _) (λ _. Keeps-bind _ _ (run-At _ index _) (λ _.
        Keeps-bind _ _ (run-At _ index _) (λ tree.
          Keeps-bind _ _
            (Keeps-map_result (wrap_error (wrapped "create transaction commit")) _
              (quiet.commit_tree index _ _ v))
            (λ new. Keeps-bind _ _ (run-At _ index _) (λ _. Keeps-pure tt))))))

  commit_staged-At :
      (staged : List String) (message : String) → Keeps At (commit_staged os git staged message)
  commit_staged-At staged message =
      Keeps-bind _ _
        (Keeps-map_result (wrap_error (wrapped "create temporary index")) _ (quiet.create_temp v))
        (λ index. record {
          at = λ s h. quiet.remove_temp index _ ∙ (commit_index-At index staged message).at s h;
        })

  pub git_commit_paths-At :
      (paths : List String) (message : String) → Keeps At (git_commit_paths os git paths message)
  unfolding git_commit_paths
  git_commit_paths-At paths message = record { at = λ s h. from (dedupe_strings paths) s h }
    where
      from :
          (staged : List String) (s : os.State)
          → At s
          → At (commit_deduped os git message staged s).1
      from [] s h = h
      from (p ∷ ps) s h = elim (Bool-cases (git.is_inside_work_tree s)) [
        | inl e ↦ rw e ((commit_staged-At _ message).at s h)
        | inr e ↦ rw e h
      ]
