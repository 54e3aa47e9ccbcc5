-- ===== src/Apps/Install.antt =====
-- `ComposeAppManager::install` and `finalizeInstall`. An exception of the choice of the apps to
-- keep is `none`.
use aktualizr_lite.Results.{InstallationResult}
use aktualizr_lite.Target.{UptaneTarget}
use aktualizr_lite.Prelude.{
  Bool, List, Option, String, [], false, if◌then◌else◌, int_eq, is_empty, is_nil, nat_eq, none, not,
  some, string_eq, true, ◌&&◌, ◌<>◌, ◌==◌, ◌>>=◌, ◌||◌, ◌∷◌,
}
use aktualizr_lite.Apps.Engine.{AppResult, Apps, Config, Engine, is_done}
use aktualizr_lite.Apps.Choice.{get_apps}
use aktualizr_lite.Apps.Manager.{
  Manager, add_text, clean_up, install_apps, is_install_failed, is_need_completion, is_ok_code,
  no_sets, start_failure_code, stop_all, stop_disabled, with_code,
}

-- Whether the install context names the app with its uri; without a context every app does.
unfoldable pub is_in_context : Option (List (String × String)) → String × String → Bool
is_in_context none app = true
is_in_context (some []) app = false
is_in_context (some ((n, u) ∷ context)) app =
    if n == app.0 then u == app.1 else is_in_context (some context) app

-- What the loop of `finalizeInstall` ends with: the app that did not start and its result, if there
-- is one, and the message on the apps that were enabled since.
abbrev pub Started : Type 0
Started = Option ((String × String) × AppResult) × String

abbrev pub add_enabled : String → String → String
add_enabled msg name =
    if is_empty msg then "\n# Newly enabled apps are detected: " <> name else msg <> (", " <> name)

module _ (E : Engine) (cfg : Config) where
  open E use {State}

  unfoldable pub running_text : State → String
  running_text s = "\n# Apps running:\n" <> E.running_report s

  -- The apps are stopped if the OSTree commit changes or the configuration wants it.
  unfoldable pub stop_before : UptaneTarget → Apps → State → State
  stop_before t apps s =
      if not ((E.current s).sha256 == t.sha256) || cfg.stop_apps_before_update
      then stop_all E cfg apps s
      else s

  -- The installation of the apps with the OSTree commit, or the note that it comes later.
  unfoldable pub install_now : Bool → Apps → InstallationResult → State → InstallationResult × State
  install_now started apps res s =
      if started
      then install_apps E cfg (is_need_completion res.code) apps
          (if is_nil apps then res else add_text res "\n# Apps installed:") s
      else (
        add_text res "\n# Fetched Apps' containers will be created and started after reboot\n",
        s,
      )

  -- The end of `install`: apps are removed and pruned only after a success.
  unfoldable pub finish_install :
      Bool → UptaneTarget → InstallationResult → State → Option (InstallationResult × State)
  unfolding running_text
  finish_install started t res s =
      (if E.is_success res.code then clean_up E cfg (cfg.docker_prune && started) t s else some s)
      >>= (λ s'. some (add_text res (running_text s'), s'))

  -- The second half of `install`, after the OSTree commit was installed with the result `res`.
  unfoldable pub install_rest :
      UptaneTarget → Apps → InstallationResult → State → Option (InstallationResult × State)
  unfolding install_now finish_install
  install_rest t apps res s =
      let started = not (is_need_completion res.code) || cfg.create_containers_before_reboot in
      let (res', s') = install_now started apps res s in finish_install started t res' s'

  -- The first half of `install`, up to the installation of the OSTree commit.
  unfoldable pub install_commit : UptaneTarget → Manager State → InstallationResult × State
  unfolding stop_before
  install_commit t m =
      E.ostree_install t (stop_before t m.sets.fetch_and_update (stop_disabled E cfg t m.device))

  -- `install`
  unfoldable pub install_target_apps :
      UptaneTarget → Manager State → Option (InstallationResult × Manager State)
  unfolding install_rest install_commit
  install_target_apps t m =
      let apps = m.sets.fetch_and_update in
      let (res, s) = install_commit t m in
      if is_install_failed res.code
      then some (add_text res (running_text s), record m { device = s })
      else install_rest t apps res s
        >>= (λ r. some (r.0, record m { device = r.1; sets = no_sets }))

  -- The loop of `finalizeInstall`: the first app that does not start ends it.
  unfoldable pub start_apps :
      Option (List (String × String)) → Apps → String → State → Started × State
  unfolding is_in_context
  start_apps context [] msg s = ((none, msg), s)
  start_apps context (app ∷ apps) msg s =
      let (r, s') = E.run app s in
      let next = start_apps context apps msg s' in
      let skipped = start_apps context apps (add_enabled msg app.0) s in
      if not (is_in_context context app)
      then skipped
      else if is_done r.status
      then next
      else ((some (app, r), msg), s')

  -- The part of `finalizeInstall` after the boot on the new version.
  unfoldable pub finish_boot :
      UptaneTarget → InstallationResult → State → Option (InstallationResult × State)
  unfolding start_apps start_failure_code running_text
  finish_boot t ir s =
      let ((failure, msg), s1) =
        start_apps t.custom.install_context (get_apps cfg t.custom.apps) ""
          (stop_disabled E cfg t s) in
      elim failure [
        | some (app, r) ↦ some (
          with_code (start_failure_code r) (
              ir.description
              <> (", however failed to start App after booting on a new sysroot version; app: "
                  <> (app.0
                      <> ("; uri: "
                          <> (app.1 <> ("; err: " <> (r.err <> (msg <> running_text s1)))))))),
          s1,
        )
        | none ↦
            clean_up E cfg cfg.docker_prune t s1
            >>= (λ s2. some (add_text (add_text ir msg) (running_text s2), s2))
      ]

  -- `finalizeInstall`
  unfoldable pub finalize_target_apps : UptaneTarget → State → Option (InstallationResult × State)
  unfolding finish_boot running_text
  finalize_target_apps t s =
      let (ir, s1) = E.ostree_finalize t s in
      if is_ok_code ir.code
      then finish_boot t ir s1
      else if is_need_completion ir.code
      then some (ir, s1)
      else some (add_text ir (running_text s1), s1)
