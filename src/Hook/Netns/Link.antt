-- ===== src/Hook/Netns/Link.antt =====
-- The link of hook/netns.go, from post-run to post-stop.
use mathlib.Core.Path.{subst₂}
use go_mesos_executor.Common.{◌≡◌, refl, sym, ◌∙◌, ap, String, ℕ, Bool, true, false, if◌then◌else◌}
use go_mesos_executor.Common.Exec.{
  GoError, Result, ok, err, fault, continue-ok, settle, raise, pure,
}
use go_mesos_executor.Container.{Containerizer}
use go_mesos_executor.Hook.{Shared}
use go_mesos_executor.Hook.Netns.{
  make_folder, link_path, namespace_path, netns_post_run, netns_post_stop,
}
use go_mesos_executor.Outside.{Viper, Os, on_outside, on_outside-ok, on_outside-frame}

module _ {O : Type 0} (viper : Viper) (os : Os O) where
  forgiven :
      (b : Bool) (e : GoError) (s : Shared O)
      → ((if b then pure tt else raise {A = Unit {0}} e) s).1 ≡ s
  forgiven true e s = refl
  forgiven false e s = refl

  settled :
      (r : Result (Unit {0}) × Shared O)
      → (settle r (λ e. if os.is_exist e then pure tt else raise e) pure).1 ≡ r.1
  settled (ok u, s) = refl
  settled (err e, s) = forgiven (os.is_exist e) e s
  settled (fault x, s) = refl

  -- All but the outside is as it was.
  make_folder-frame :
      (s : Shared O)
      → (make_folder viper os s).1
        ≡ record s { outside = (os.mkdir (viper.get_string "netns.path") s.outside).1 }
  unfolding make_folder
  make_folder-frame s = settled (on_outside (os.mkdir (viper.get_string "netns.path")) s)

  -- What a post-run that succeeded leaves.
  pub record Linked (c : Containerizer O) (id : String) (s s' : Shared O) : Type 0 where
    pub before : O
    pub pid : ℕ
    pub process : (c.container_get_pid id s.outside).0 ≡ ok pid
    pub linked :
        os.symlink (namespace_path viper os pid) (link_path viper os s.task_info.task_id) before
        ≡ (ok tt, s'.outside)
    pub kept : s'.netns_hook_symlink_path ≡ link_path viper os s.task_info.task_id

  netns_post_run-Linked :
      (c : Containerizer O) (id : String) (s s' : Shared O)
      → netns_post_run viper os id c s ≡ (ok tt, s')
      → Linked c id s s'
  unfolding netns_post_run
  netns_post_run-Linked c id s s' p =
      let w = continue-ok (on_outside (c.container_get_pid id) s) _ tt s' p in
      let s1 : Shared O = record w.state { netns_hook_container_pid = w.value } in
      let v = continue-ok (make_folder viper os s1) _ tt s' w.second in
      let pid = on_outside-ok (c.container_get_pid id) w.first in
      let rest = ap (λ (x : Result (Unit {0}) × Shared O). x.1) v.first in
      let frame = sym rest ∙ make_folder-frame s1 in
      let task : v.state.task_info ≡ s.task_info =
        ap (λ (x : Shared O). x.task_info) frame
        ∙ ap (λ (x : Shared O). x.task_info) (on_outside-frame (c.container_get_pid id) w.first) in
      let link =
        os.symlink (namespace_path viper os v.state.netns_hook_container_pid)
          (link_path viper os v.state.task_info.task_id) in
      record {
        before = v.state.outside;
        pid = w.value;
        process = ap (λ (x : Result ℕ × O). x.0) pid;
        linked =
            subst₂
              (λ n info.
                os.symlink (namespace_path viper os n) (link_path viper os info.task_id)
                  v.state.outside
                ≡ (ok tt, s'.outside))
              (ap (λ (x : Shared O). x.netns_hook_container_pid) frame) task
              (on_outside-ok link v.second);
        kept =
            ap (λ (x : Shared O). x.netns_hook_symlink_path) (on_outside-frame link v.second)
            ∙ ap (λ info. link_path viper os info.task_id) task;
      }

  -- Let the post-run hook of a container succeed. Then its last act was to link the network
  -- namespace of the container's process from the path that is named after the task. And a
  -- post-stop, of whichever container, that runs while the path kept by the hook is unchanged is the
  -- removal of that link.
  pub netns_post_stop-post_run :
      (c : Containerizer O) (id id' : String) (s s' t : Shared O)
      → netns_post_run viper os id c s ≡ (ok tt, s')
      → t.netns_hook_symlink_path ≡ s'.netns_hook_symlink_path
      → Linked c id s s'
        × (netns_post_stop viper os id' c t
            ≡ on_outside (os.remove (link_path viper os s.task_info.task_id)) t)
  unfolding netns_post_stop
  netns_post_stop-post_run c id id' s s' t ran same =
      let l = netns_post_run-Linked c id s s' ran in
      (l, ap (λ path. on_outside (os.remove path) t) (same ∙ l.kept))
