-- ===== src/Fleet/Worktrees.antt =====
-- src/worker_harness/orchestration.py: `create_worktree` and `destroy_worktree`.
use worker_harness.Base.{String, List, [], ◌∷◌, replace_char, text_append}
use worker_harness.Machines.{Machine, repo_name, worktree_dir}
use worker_harness.Fleet.Action.{
  worktree_error, worktree_add, worktree_remove, branch_delete, Env, Action, Done, pure, throw,
  catch, is_shim, ◌>>◌, request,
}

-- The branch names of the five attempts.
unfoldable pub attempts : String → List String
attempts branch =
    branch
    ∷ text_append branch "-2"
    ∷ text_append branch "-3"
    ∷ text_append branch "-4"
    ∷ text_append branch "-5"
    ∷ []

module _ (env : Env) where
  unfoldable pub worktree_path : Machine → String → String → String
  worktree_path m repo branch = worktree_dir m (repo_name repo) (replace_char "/" "-" branch)

  -- One turn of the loop after the other; `ShimError` goes on to the next name.
  unfoldable pub try_branches :
      Machine → String → String → String → List String → Action (String × String)
  try_branches m repo branch base [] = throw worktree_error (
      text_append "could not create worktree for "
        (text_append (env.repr branch) " after 5 attempts"))
  try_branches m repo branch base (name ∷ names) =
      let path = worktree_path m repo name in
      catch is_shim (λ _. try_branches m repo branch base names)
        (do request env m (worktree_add repo name base path); pure (path, name))

  unfoldable pub create_worktree : Machine → String → String → String → Action (String × String)
  create_worktree m repo branch base = try_branches m repo branch base (attempts branch)

  unfoldable pub destroy_worktree : Machine → String → String → String → Action Done
  destroy_worktree m repo path branch = do
    catch is_shim
        (λ e.
          throw worktree_error
            (text_append "could not remove worktree " (text_append path (text_append ": " e.text))))
        (request env m (worktree_remove repo path))
    catch is_shim (λ _. pure tt) (do request env m (branch_delete repo branch); pure tt)
