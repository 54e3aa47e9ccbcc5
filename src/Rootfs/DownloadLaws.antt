-- ===== src/Rootfs/DownloadLaws.antt =====
-- What a download does to the device: it sets remotes, and pulls where there is room for the commit.
use mathlib.Core.Option.{some-injective}
use text.Mathlib.Text.{starts_with}
use aktualizr_lite.Results.{DownloadResult, DownloadStatus, download_good}
use aktualizr_lite.Results.Usage.{UsageInfo, is_ok}
use aktualizr_lite.Rootfs.Deltas.{DeltaStat, get_delta_stat}
use aktualizr_lite.Rootfs.Download.{
  add_front, additional_remote, base_remote, download_commit, errors_of, failed_with, full_of,
  get_additional_remotes, pull_from, pulled_of, refused, remotes_of, tells_no_space, try_remotes,
  usage_info, with_remote,
}
use aktualizr_lite.Rootfs.Host.{Host, Remote}
use aktualizr_lite.Target.{TufTarget}
use aktualizr_lite.Prelude.{
  Bool, Bool-cases, List, Memᴰ, Option, Option-cases, String, [], ap, arith, false, if◌then◌else◌,
  inl, inr, int_eq, is_empty, ltb, nat_eq, none, none_not_some, not, refl, some, string_eq, sym,
  true, ◌&&◌, ◌==◌, ◌∙◌, ◌∷◌, ◌≡◌, ◌≢◌, ◌≤◌,
}

-- Whether the room that is known to be left is enough for the commit, as far as its size is known.
abbrev pub HasRoom : Option DeltaStat → UsageInfo → Type 0
HasRoom (some d) u = is_ok u ≡ true → d.uncompressed_size ≤ u.available
HasRoom none u = is_ok u ≡ true → u.available ≢ 0

-- The steps of a download of a target from some remotes.
pub data Fetching {State : Type 0} (H : Host State) (t : TufTarget) (rs : List Remote)
    : State → State → Type 0 where
  stays : (s : State) → Fetching H t rs s s
  sets :
      (r : Remote) (s s' : State)
      → Memᴰ r rs
      → Fetching H t rs (with_remote H r s) s'
      → Fetching H t rs s s'
  pulls :
      (r : Remote) (s s' : State)
      → Memᴰ r rs
      → HasRoom (get_delta_stat H t r s) (usage_info H s)
      → Fetching H t rs (pull_from H t r s).1 s'
      → Fetching H t rs s s'

module _ {State : Type 0} (H : Host State) (t : TufTarget) where
  -- A remote has given the commit, and nothing has been done after that.
  abbrev pub GivenBy : List Remote → State → Type 0
  GivenBy rs s' =
      (r : Remote) × (s : State) × Memᴰ r rs
      × HasRoom (get_delta_stat H t r s) (usage_info H s)
      × (H.is_success (pull_from H t r s).0.code ≡ true)
      × ((pull_from H t r s).1 ≡ s')

  -- What is shown of the result of the loop.
  abbrev pub DownloadRun : List Remote → State → DownloadResult × State → Type 0
  DownloadRun rs s (res, s') =
      Fetching H t rs s s' × (res.status ≡ DownloadStatus.ok → GivenBy rs s')

  none_of_if : {A : Type 0} (b : Bool) (a : A) → (if b then some a else none) ≡ none → b ≡ false
  none_of_if true a e = none_not_some (sym e)
  none_of_if false a e = refl

  refused-HasRoom : (d : Option DeltaStat) (u : UsageInfo) → refused H d u ≡ none → HasRoom d u
  unfolding refused
  refused-HasRoom none u e =
      let n = none_of_if (is_ok u && u.available == 0) _ e in λ o. ground (arith, n, o)
  refused-HasRoom (some d) u e =
      let n = none_of_if (is_ok u && ltb u.available d.uncompressed_size) _ e in
      λ o. ground (arith, n, o)

  status_of_if :
      (b : Bool) (a x : DownloadResult)
      → (if b then some a else none) ≡ some x
      → a.status ≡ DownloadStatus.download_failed_no_space
      → x.status ≡ DownloadStatus.download_failed_no_space
  status_of_if true a x e h = ap (λ r. r.status) (sym (some-injective _ _ e)) ∙ h
  status_of_if false a x e h = none_not_some e

  refused_status :
      (d : Option DeltaStat) (u : UsageInfo) (x : DownloadResult)
      → refused H d u ≡ some x
      → x.status ≡ DownloadStatus.download_failed_no_space
  unfolding refused
  refused_status none u x e = status_of_if _ _ x e refl
  refused_status (some d) u x e = status_of_if _ _ x e refl

  not_ok {ℓ} :
      {C : Type ℓ} (st st' : DownloadStatus)
      → st ≡ st'
      → download_good st' ≡ false
      → st ≡ DownloadStatus.ok
      → C
  unfolding download_good
  not_ok st st' e f g = ground (arith, e, f, g)

  choice-DownloadRun :
      (rs : List Remote) (b b' : Bool) (x y : DownloadResult) (s s2 : State)
      (rest : DownloadResult × State)
      → Fetching H t rs s s2
      → (b ≡ true → GivenBy rs s2)
      → (y.status ≡ DownloadStatus.ok → GivenBy rs s2)
      → DownloadRun rs s rest
      → DownloadRun rs s (if b then (x, s2) else if b' then (y, s2) else rest)
  choice-DownloadRun rs true b' x y s s2 rest f g h k = (f, λ o. g refl)
  choice-DownloadRun rs false true x y s s2 rest f g h k = (f, h)
  choice-DownloadRun rs false false x y s s2 rest f g h k = k

  try_remotes-DownloadRun :
      (rs0 rs : List Remote) (errors : String) (res : DownloadResult) (s : State)
      → ((r : Remote) → Memᴰ r rs → Memᴰ r rs0)
      → (res.status ≡ DownloadStatus.ok → GivenBy rs0 s)
      → DownloadRun rs0 s (try_remotes H t rs errors res s)
  unfolding try_remotes download_good
  try_remotes-DownloadRun rs0 [] errors res s m g = (Fetching.stays s, g)
  try_remotes-DownloadRun rs0 (r ∷ rs) errors res s m g =
      let s1 = with_remote H r s in
      let here = m r (Memᴰ.head refl) in
      let d = get_delta_stat H t r s1 in
      let s2 = (pull_from H t r s1).1 in
      let errors' = errors_of H t r errors s1 in
      let (fs, gs) =
        try_remotes-DownloadRun rs0 rs errors' (failed_with H errors') s2 (λ a h. m a (Memᴰ.tail h))
          (λ k. not_ok _ DownloadStatus.download_failed refl refl k) in
      elim (Option-cases (refused H d (usage_info H s1))) [
        | inr (x, e) ↦
            rw (try_remotes, e)
              (
                Fetching.sets r s s1 here (Fetching.stays s1),
                λ k.
                    not_ok x.status DownloadStatus.download_failed_no_space
                      (refused_status d (usage_info H s1) x e) refl k,
              )
        | inl e ↦
            let room = refused-HasRoom d (usage_info H s1) e in
            let pulled : (s' : State) → Fetching H t rs0 s2 s' → Fetching H t rs0 s s' =
              λ s' f. Fetching.sets r s s' here (Fetching.pulls r s1 s' here room f) in
            rw (try_remotes, e)
              (choice-DownloadRun rs0 (H.is_success (pull_from H t r s1).0.code)
                (tells_no_space (pull_from H t r s1).0.description) (pulled_of H t r s1)
                (full_of H t r s1) s s2 (try_remotes H t rs errors' (failed_with H errors') s2)
                (pulled s2 (Fetching.stays s2)) (λ b. (r, s1, here, room, b, refl))
                (λ k. not_ok _ DownloadStatus.download_failed_no_space refl refl k)
                (pulled _ fs, gs))
      ]

  add_front-cons :
      (name : String) (urls : List (String × String)) (r : Remote) (rs : List Remote)
      → (r' : Remote) × (rs' : List Remote) × (add_front H name urls (r ∷ rs) ≡ r' ∷ rs')
  unfolding add_front
  add_front-cons name [] r rs = (r, rs, refl)
  add_front-cons name (u ∷ urls) r rs =
      add_front-cons name urls (additional_remote H name u) (r ∷ rs)

  additional-cons :
      (name : String) (s : State) (r : Remote)
      → (r' : Remote) × (rs' : List Remote) × (get_additional_remotes H (r ∷ []) name s ≡ r' ∷ rs')
  unfolding get_additional_remotes
  additional-cons name s r = elim (Option-cases (H.download_urls s)) [
    | inl e ↦ (r, [], rw (get_additional_remotes, e) refl)
    | inr (urls, e) ↦
        let (r', rs', c) = add_front-cons name urls r [] in
        (r', rs', rw (get_additional_remotes, e) c)
  ]

  remotes_of-cons : (s : State) → (r : Remote) × (rs : List Remote) × (remotes_of H t s ≡ r ∷ rs)
  unfolding remotes_of
  remotes_of-cons s =
      elim (Bool-cases (not (is_empty H.ostree_server) && starts_with H.ostree_server "http")) [
        | inl e ↦
            let (r, rs, c) = additional-cons t.name s (base_remote H t.name) in
            (r, rs, rw (remotes_of, e) c)
        | inr e ↦ (base_remote H t.name, [], rw (remotes_of, e) refl)
      ]

  -- A download gets from one state of the device to another by setting remotes and by pulling the
  -- target from a remote, the latter only where the room that is known to be left is enough: not
  -- smaller than the delta whose size is known, and not zero otherwise. It succeeds only if the last
  -- step was a pull that succeeded, from one of the remotes.
  pub download_commit-DownloadRun :
      (s : State) → DownloadRun (remotes_of H t s) s (download_commit H t s)
  unfolding download_commit try_remotes download_good
  download_commit-DownloadRun s =
      let (r, rs, c) = remotes_of-cons s in
      let h =
        try_remotes-DownloadRun (r ∷ rs) (r ∷ rs) "" (failed_with H "") s (λ a m. m)
          (λ k. not_ok _ DownloadStatus.download_failed refl refl k) in
      rw (download_commit, c) h
