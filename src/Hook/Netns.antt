-- ===== src/Hook/Netns.antt =====
-- hook/netns.go: a link to the container's network namespace, from post-run to post-stop. The two
-- package variables are fields of `Shared`.
pub mod Link
use go_mesos_executor.Common.{◌≡◌, refl, String, ◌<>◌, none, some, arith, if◌then◌else◌, ℕ, Bool}
use go_mesos_executor.Common.Exec.{
  GoError, Result, Exec, ok, err, fault, pure, raise, settle, gets, modify, ◌>>=◌, ◌>>◌, continue,
}
use go_mesos_executor.Common.Int.{pos}
use go_mesos_executor.Common.Text.{itoa}
use go_mesos_executor.Container.{Containerizer}
use go_mesos_executor.Hook.{Hook, Shared, Action}
use go_mesos_executor.Outside.{Viper, Os, on_outside}

module _ {O : Type 0} (viper : Viper) (os : Os O) where
  -- An error of `os.Mkdir` is one unless the folder exists.
  make_folder : Exec (Shared O) (Unit {0})
  make_folder s =
      settle (on_outside (os.mkdir (viper.get_string "netns.path")) s)
        (λ e. if os.is_exist e then pure tt else raise e) pure

  unfoldable pub link_path : String → String
  link_path task_id = (viper.get_string "netns.path" <> "/") <> task_id

  unfoldable pub namespace_path : ℕ → String
  namespace_path pid = (viper.get_string "proc_path" <> "/") <> (itoa pid <> "/ns/net")

  unfoldable pub netns_post_run : String → Action O
  unfolding make_folder
  netns_post_run id c = do
    pid ← on_outside (c.container_get_pid id)
    modify (λ s. record s { netns_hook_container_pid = pid })
    make_folder
    modify (λ s. record s { netns_hook_symlink_path = link_path s.task_info.task_id })
    ns_pid ← gets (λ s. s.netns_hook_container_pid)
    link ← gets (λ s. s.netns_hook_symlink_path)
    on_outside (os.symlink (namespace_path ns_pid) link)

  unfoldable pub netns_post_stop : String → Action O
  netns_post_stop id c = do
    link ← gets (λ s. s.netns_hook_symlink_path)
    on_outside (os.remove link)

  unfoldable pub netns_hook : Hook O
  unfolding netns_post_run netns_post_stop
  netns_hook = record {
    name = "netns";
    priority = pos 0;
    run_pre_create = none;
    run_pre_run = none;
    run_post_run = some netns_post_run;
    run_pre_stop = none;
    run_post_stop = some netns_post_stop;
  }
