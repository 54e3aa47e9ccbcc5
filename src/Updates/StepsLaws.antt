-- ===== src/Updates/StepsLaws.antt =====
-- What `LiteClient::downloadImage`, `install` and `finalizeInstall` promise.
use aktualizr_lite.Results.{no_space, DownloadStatus, download_good, DownloadResult}
use aktualizr_lite.Target.{UptaneTarget}
use aktualizr_lite.Updates.Steps.{
  download_image, download_tries, failed_download, is_retried, max_tries,
}
use aktualizr_lite.Prelude.{
  ap, ◌&&◌, ◌≢◌, ◌||◌, not, Bool, false-ne-true, Bool-cases, arith, false, inl, inr, refl, subst,
  suc, sym, true, zero, ℕ, ◌<◌, ◌≡◌, ◌⊎◌,
}
use aktualizr_lite.Updates.Log.{Platform}

ok_apart : false ≡ true → ⊥
ok_apart e = elim (false-ne-true e) [ ]

module _ (P : Platform) where
  -- The attempt of the number, counted from 0, and the state that it leaves.
  abbrev pub attempt : ℕ → UptaneTarget → P.State → DownloadResult × P.State
  attempt zero t s = P.download t s
  attempt (suc n) t s = attempt n t (P.download t s).1

  -- An attempt after which another one follows: it failed, though not for lack of space, and the
  -- flow of the client was not called off.
  abbrev pub IsRetried : DownloadResult × P.State → Type 0
  IsRetried (r, s) =
      (r.status ≢ DownloadStatus.ok)
      × (r.status ≢ DownloadStatus.download_failed_no_space)
      × (P.can_continue s ≡ true)

  -- An attempt that is the last one: it succeeded, lacked space, or was called off.
  abbrev pub IsFinal : DownloadResult × P.State → Type 0
  IsFinal (r, s) =
      (r.status ≡ DownloadStatus.ok)
      ⊎ ((r.status ≡ DownloadStatus.download_failed_no_space) ⊎ (P.can_continue s ≡ false))

  -- The result is that of the attempt `k`, which is the last of `n` or is final; those before it are
  -- followed by another.
  abbrev pub IsAttempt : ℕ → UptaneTarget → P.State → DownloadResult × P.State → Type 0
  IsAttempt n t s r =
      (k : ℕ) × (k < n)
      × (r ≡ attempt k t s)
      × ((i : ℕ) → i < k → IsRetried (attempt i t s))
      × ((suc k ≡ n) ⊎ IsFinal r)

  status_cases :
      (d : DownloadStatus) (b : Bool)
      → (not (download_good d || no_space d) && b ≡ true
          → (d ≢ DownloadStatus.ok) × (d ≢ DownloadStatus.download_failed_no_space) × (b ≡ true))
        × (not (download_good d || no_space d) && b ≡ false
            → (d ≡ DownloadStatus.ok)
              ⊎ ((d ≡ DownloadStatus.download_failed_no_space) ⊎ (b ≡ false)))
  unfolding download_good no_space
  status_cases DownloadStatus.ok b = ((λ e. elim (false-ne-true e) [ ]), λ e. inl refl)
  status_cases DownloadStatus.download_failed_no_space b =
      ((λ e. elim (false-ne-true e) [ ]), λ e. inr (inl refl))
  status_cases DownloadStatus.download_failed b = (
    λ e. ((λ x. ok_apart (ap download_good x)), (λ x. ok_apart (ap no_space x)), e),
    λ e. inr (inr e),
  )
  status_cases DownloadStatus.verification_failed b = (
    λ e. ((λ x. ok_apart (ap download_good x)), (λ x. ok_apart (ap no_space x)), e),
    λ e. inr (inr e),
  )

  is_retried-IsRetried :
      (r : DownloadResult) (s : P.State) → is_retried P r s ≡ true → IsRetried (r, s)
  unfolding is_retried
  is_retried-IsRetried r s = (status_cases r.status (P.can_continue s)).0

  is_retried-IsFinal :
      (r : DownloadResult) (s : P.State) → is_retried P r s ≡ false → IsFinal (r, s)
  unfolding is_retried
  is_retried-IsFinal r s = (status_cases r.status (P.can_continue s)).1

  download_tries-again :
      (n : ℕ) (t : UptaneTarget) (res : DownloadResult) (s : P.State)
      → is_retried P (P.download t s).0 (P.download t s).1 ≡ true
      → download_tries P (suc n) t res s
        ≡ download_tries P n t (P.download t s).0 (P.download t s).1
  unfolding download_tries
  download_tries-again n t res s h = rw h refl

  download_tries-stop :
      (n : ℕ) (t : UptaneTarget) (res : DownloadResult) (s : P.State)
      → is_retried P (P.download t s).0 (P.download t s).1 ≡ false
      → download_tries P (suc n) t res s ≡ P.download t s
  unfolding download_tries
  download_tries-stop n t res s h = rw h refl

  earlier_attempts :
      (t : UptaneTarget) (s : P.State) (k : ℕ)
      → IsRetried (P.download t s)
      → ((i : ℕ) → i < k → IsRetried (attempt i t (P.download t s).1))
      → (i : ℕ) → i < suc k
      → IsRetried (attempt i t s)
  earlier_attempts t s k again earlier zero lt = again
  earlier_attempts t s k again earlier (suc i) lt = earlier i (omega arith)

  download_tries-IsAttempt :
      (n : ℕ) (t : UptaneTarget) (res : DownloadResult) (s : P.State)
      → IsAttempt (suc n) t s (download_tries P (suc n) t res s)
  unfolding download_tries
  download_tries-IsAttempt zero t res s =
      (0, omega arith, ground arith, (λ i lt. absurd (omega arith)), inl refl)
  download_tries-IsAttempt (suc n) t res s =
      elim (Bool-cases (is_retried P (P.download t s).0 (P.download t s).1)) [
        | inl again ↦
            let (k, lt, e, earlier, final) =
              download_tries-IsAttempt n t (P.download t s).0 (P.download t s).1 in
            subst (IsAttempt (suc (suc n)) t s) (sym (download_tries-again (suc n) t res s again)) (
              suc k,
              omega arith,
              e,
              earlier_attempts t s k
                  (is_retried-IsRetried (P.download t s).0 (P.download t s).1 again) earlier,
              elim final [ inl h ↦ inl (omega arith) | inr h ↦ inr h ],
            )
        | inr stop ↦
            subst (IsAttempt (suc (suc n)) t s) (sym (download_tries-stop (suc n) t res s stop)) (
              0,
              omega arith,
              refl,
              (λ i lt. absurd (omega arith)),
              inr (is_retried-IsFinal (P.download t s).0 (P.download t s).1 stop),
            )
      ]

  -- The download of a target makes at most three attempts. Its result is that of the last one made;
  -- each attempt before it failed, though not for lack of space, and was not called off, and unless
  -- it is the third the last one succeeded, lacked space, or was called off.
  pub download_image-IsAttempt :
      (t : UptaneTarget) (s : P.State)
      → IsAttempt max_tries t (P.load_keys s) (download_image P t s)
  unfolding download_image
  download_image-IsAttempt t s = download_tries-IsAttempt 2 t failed_download (P.load_keys s)
