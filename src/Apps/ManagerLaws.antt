-- ===== src/Apps/ManagerLaws.antt =====
-- What a download, a verification and an installation by src/composeappmanager.cc promise.
use aktualizr_lite.Results.{no_space, DownloadStatus, DownloadResult, download_good}
use aktualizr_lite.Target.{TufTarget, UptaneTarget}
use aktualizr_lite.Prelude.{
  ◌∙◌, ◌||◌, ap, is_nil, inr, inl, Bool-cases, false-ne-true, if◌then◌else◌, ◌⊎◌, Bool, ◌≢◌, false,
  All, String, [], arith, refl, subst, sym, true, ◌<>◌, ◌↔◌, ◌∷◌, ◌≡◌,
}
use aktualizr_lite.Apps.Engine.{ResultId, lacks_space, Apps, Config, Engine, TargetStatus, is_done}
use aktualizr_lite.Apps.Manager.{
  Manager, all_to_fetch, download_apps, fetch_apps, verify_apps, verify_target_apps,
}

-- The app is fetched and valid.
abbrev pub Valid : (E : Engine) → E.State → String × String → Type 0
Valid E s app = (E.is_fetched app s ≡ true) × (E.verify app s ≡ true)

-- The loop over the apps that are to be fetched, with the status of the download that it ends with:
-- each app is fetched after the one before was, and the first that is not ends it.
pub data FetchRun (E : Engine) : Apps → E.State → DownloadStatus → E.State → Type 0 where
  fetched_all : (s : E.State) → FetchRun E [] s DownloadStatus.ok s
  fetched :
      (app : String × String) (apps : Apps) (s s' : E.State) (d : DownloadStatus)
      → (E.fetch app s).0.status ≡ ResultId.ok
      → FetchRun E apps (E.fetch app s).1 d s'
      → FetchRun E (app ∷ apps) s d s'
  lacked_space :
      (app : String × String) (apps : Apps) (s : E.State)
      → (E.fetch app s).0.status ≡ ResultId.insufficient_space
      → FetchRun E (app ∷ apps) s DownloadStatus.download_failed_no_space (E.fetch app s).1
  failed :
      (app : String × String) (apps : Apps) (s : E.State)
      → (E.fetch app s).0.status ≢ ResultId.ok
      → (E.fetch app s).0.status ≢ ResultId.insufficient_space
      → FetchRun E (app ∷ apps) s DownloadStatus.download_failed (E.fetch app s).1

id_apart : {C : Type 0} → false ≡ true → C
id_apart e = elim (false-ne-true e) [ ]

module _ (E : Engine) (cfg : Config) where
  verify_apps-Valid :
      (apps : Apps) (s : E.State)
      → verify_apps E cfg apps s TargetStatus.good ≡ TargetStatus.good
      → All (Valid E s) apps
  unfolding verify_apps
  verify_apps-Valid [] s h = tt
  verify_apps-Valid (app ∷ apps) s h = (ground arith, verify_apps-Valid apps s (ground arith))

  verify_apps-good :
      (apps : Apps) (s : E.State)
      → All (Valid E s) apps
      → verify_apps E cfg apps s TargetStatus.good ≡ TargetStatus.good
  unfolding verify_apps
  verify_apps-good [] s h = refl
  verify_apps-good (app ∷ apps) s h =
      let ih = verify_apps-good apps s h.1 in let v = h.0 in ground arith

  -- A target is verified as good exactly if its OSTree commit is and each app that had to be
  -- fetched is fetched and valid.
  pub verify_target_apps_iff :
      (t : UptaneTarget) (m : Manager E.State)
      → (verify_target_apps E cfg t m ≡ TargetStatus.good)
        ↔ (E.ostree_verify t m.device ≡ TargetStatus.good)
          × All (Valid E m.device) (all_to_fetch m.sets)
  unfolding verify_target_apps
  verify_target_apps_iff t m = (
    λ h. (ground arith, verify_apps-Valid (all_to_fetch m.sets) m.device (ground arith)),
    λ h. let g = verify_apps-good (all_to_fetch m.sets) m.device h.1 in ground arith,
  )

  -- The status of a fetch, by the tests that the loop makes.
  fetch_cases :
      (i : ResultId)
      → ((i ≡ ResultId.ok) × (is_done i ≡ true))
        ⊎ (((i ≡ ResultId.insufficient_space) × (is_done i ≡ false) × (lacks_space i ≡ true))
            ⊎ ((i ≢ ResultId.ok)
                × (i ≢ ResultId.insufficient_space)
                × (is_done i ≡ false)
                × (lacks_space i ≡ false)))
  unfolding is_done lacks_space
  fetch_cases ResultId.ok = inl (refl, refl)
  fetch_cases ResultId.insufficient_space = inr (inl (refl, refl, refl))
  fetch_cases ResultId.failed =
      inr (inr ((λ e. id_apart (ap is_done e)), (λ e. id_apart (ap lacks_space e)), refl, refl))
  fetch_cases ResultId.image_pull_failure =
      inr (inr ((λ e. id_apart (ap is_done e)), (λ e. id_apart (ap lacks_space e)), refl, refl))

  abbrev Loop : Type 0
  Loop = DownloadResult × String × E.State

  -- The loop gives a run, given that the rest of it does.
  abbrev Runs : Apps → E.State → Loop → Type 0
  Runs apps s r = FetchRun E apps s r.0.status r.2

  fetch_apps-FetchRun :
      (apps : Apps) (res : DownloadResult) (text : String) (s : E.State)
      → res.status ≡ DownloadStatus.ok
      → Runs apps s (fetch_apps E cfg apps res text s)
  unfolding fetch_apps
  fetch_apps-FetchRun [] res text s e =
      subst (λ d. FetchRun E [] s d s) (sym e) (FetchRun.fetched_all s)
  fetch_apps-FetchRun (a ∷ apps) res text s e = elim (fetch_cases (E.fetch a s).0.status) [
    | inl (k, d) ↦
        rw (fetch_apps, d)
          (FetchRun.fetched a apps s _ _ k (fetch_apps-FetchRun apps res text (E.fetch a s).1 e))
    | inr (inl (k, d, l)) ↦ rw (fetch_apps, d, l) (FetchRun.lacked_space a apps s k)
    | inr (inr (k, j, d, l)) ↦ rw (fetch_apps, d, l) (FetchRun.failed a apps s k j)
  ]

  good_status : (d : DownloadStatus) → download_good d ≡ true → d ≡ DownloadStatus.ok
  unfolding download_good
  good_status DownloadStatus.ok e = refl
  good_status DownloadStatus.download_failed e = id_apart e
  good_status DownloadStatus.verification_failed e = id_apart e
  good_status DownloadStatus.download_failed_no_space e = id_apart e

  if_text :
      (b : Bool) (res : DownloadResult) (text : String) (m : Manager E.State) (apps : Apps)
      (s s' : E.State)
      → FetchRun E apps s res.status s'
      → let r : DownloadResult × Manager E.State =
          if b
          then (res, record m { device = s' })
          else (record res { description = text }, record m { device = s' }) in
        FetchRun E apps s r.0.status r.1.device
  if_text true res text m apps s s' f = f
  if_text false res text m apps s s' f = f

  -- A download of which OSTree's part failed has the result of this and fetches no app. After one that
  -- succeeded the apps that are to be fetched are fetched one after the other, up to the first whose
  -- fetch fails: the download succeeds if all were fetched, lacks space if that fetch did, and has
  -- failed otherwise.
  pub download_apps-FetchRun :
      (t : TufTarget) (m : Manager E.State)
      → let (ostree, s1) = E.ostree_download t m.device in
        let r = download_apps E cfg t m in
        (ostree.status ≢ DownloadStatus.ok) × (r ≡ (ostree, record m { device = s1 }))
        ⊎ (ostree.status ≡ DownloadStatus.ok)
          × FetchRun E (all_to_fetch m.sets) s1 r.0.status r.1.device
  unfolding download_apps download_good
  download_apps-FetchRun t m =
      let (ostree, s1) = E.ostree_download t m.device in
      let apps = all_to_fetch m.sets in
      let before = ostree.description <> ("\nbefore apps pull: " <> E.usage_report s1) in
      let (res, text, s2) = fetch_apps E cfg apps ostree before s1 in
      elim (Bool-cases (download_good ostree.status)) [
        | inl g ↦
            let ok = good_status ostree.status g in
            inr (
              ok,
              rw (download_apps, g)
                  (if_text (is_nil apps || no_space res.status) res
                    (text <> ("\nafter apps pull: " <> E.usage_report s2)) m apps s1 s2
                    (fetch_apps-FetchRun apps ostree before s1 ok)),
            )
        | inr g ↦
            inl ((λ e. false-ne-true (sym g ∙ ap download_good e)), rw (download_apps, g) refl)
      ]
