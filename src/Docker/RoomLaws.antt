-- ===== src/Docker/RoomLaws.antt =====
-- An update whose check passes has room in each of the stores.
use aktualizr_lite.Docker.SizeLaws.{add_checked-exact}
use aktualizr_lite.Docker.Sizes.{add_checked}
use aktualizr_lite.Docker.Room.{
  ImageStores, RoomCheck, check_available_storage, check_combined, check_room, check_room_twice,
  is_fits,
}
use aktualizr_lite.Prelude.{
  Bool, Option-cases, String, ap, arith, false, false-ne-true, if◌then◌else◌, inl, inr, not, refl,
  subst, sym, true, ℕ, ◌+◌, ◌<◌, ◌^◌, ◌∙◌, ◌≡◌, ◌≤◌, ◌⊎◌,
}

module _ {S : Type 0} (D : ImageStores S) where
  abbrev pub HasRoomFor : ℕ → String → S → Type 0
  HasRoomFor required path s = required ≤ (D.storage_space path s).available

  -- The state after which the temporary files may have been removed.
  abbrev pub Cleaned : S → S → Type 0
  Cleaned s s' = (s' ≡ s) ⊎ (s' ≡ D.remove_tmp_files s)

  check_room-HasRoomFor :
      (name : String) (required : ℕ) (path : String) (s : S)
      → is_fits (check_room D name required path s) ≡ true
      → HasRoomFor required path s
  unfolding check_room
  check_room-HasRoomFor name required path s h = ground (arith, h)

  check_room_twice-HasRoomFor :
      (name : String) (required : ℕ) (path : String) (s : S)
      → let (c, s') = check_room_twice D name required path s in
        is_fits c ≡ true → HasRoomFor required path s' × Cleaned s s'
  unfolding check_room_twice check_room
  check_room_twice-HasRoomFor name required path s h = ground (arith, h)

  -- The room that an update has in the stores once its check has passed.
  abbrev pub HasAllRoom : ℕ → ℕ → S → S → Type 0
  HasAllRoom skopeo docker s s' =
      (s1 : S) × HasRoomFor skopeo D.store_root s1
      × Cleaned s s1
      × HasRoomFor docker D.docker_root s1
      × Cleaned s1 s'
      × (D.docker_and_skopeo_same_volume ≡ true → HasRoomFor (skopeo + docker) D.store_root s')

  abbrev Combined : ℕ → ℕ → S → RoomCheck × S → Type 0
  Combined skopeo docker s (c, s') =
      is_fits c ≡ true → HasRoomFor (skopeo + docker) D.store_root s' × Cleaned s s'

  not_fit : {A : Type 0} {b : Bool} → b ≡ false → b ≡ true → A
  not_fit e h = elim (false-ne-true (sym e ∙ h)) [ ]

  check_combined-HasRoomFor :
      (skopeo docker : ℕ) (s : S)
      → skopeo < 2 ^ 64
      → docker < 2 ^ 64
      → Combined skopeo docker s (check_combined D skopeo docker s)
  unfolding check_combined
  check_combined-HasRoomFor skopeo docker s a b = elim (Option-cases (add_checked skopeo docker)) [
    | inl e ↦
        let r : check_combined D skopeo docker s ≡ (RoomCheck.overflows, s) =
          rw (check_combined, e) refl in
        subst (Combined skopeo docker s) (sym r) (λ h. elim (false-ne-true h) [ ])
    | inr (sum, e) ↦
        let r : check_combined D skopeo docker s
            ≡ check_room_twice D "skopeo & docker" sum D.store_root s =
          rw (check_combined, e) refl in
        let (exact, small) = add_checked-exact skopeo docker sum a b e in
        subst (Combined skopeo docker s) (sym r) (λ h.
          let (m, c) = check_room_twice-HasRoomFor "skopeo & docker" sum D.store_root s h in
          (
            subst
                (λ n.
                  HasRoomFor n D.store_root
                    (check_room_twice D "skopeo & docker" sum D.store_root s).1)
                exact m,
            c,
          ))
  ]

  gates :
      (c1 c2 : RoomCheck) (same : Bool) (s1 : S) (comb r : RoomCheck × S)
      → r ≡ (
          if not (is_fits c1)
          then (c1, s1)
          else if not (is_fits c2)
          then (c2, s1)
          else if same
          then comb
          else (RoomCheck.fits, s1))
      → is_fits r.0 ≡ true
      → (is_fits c1 ≡ true)
        × (is_fits c2 ≡ true)
        × ((same ≡ true) × (r ≡ comb) ⊎ (same ≡ false) × (r.1 ≡ s1))
  gates (RoomCheck.lacks n u) c2 same s1 comb r e h = not_fit (ap (λ p. is_fits p.0) e) h
  gates RoomCheck.overflows c2 same s1 comb r e h = not_fit (ap (λ p. is_fits p.0) e) h
  gates RoomCheck.fits (RoomCheck.lacks n u) same s1 comb r e h =
      not_fit (ap (λ p. is_fits p.0) e) h
  gates RoomCheck.fits RoomCheck.overflows same s1 comb r e h = not_fit (ap (λ p. is_fits p.0) e) h
  gates RoomCheck.fits RoomCheck.fits true s1 comb r e h = (refl, refl, inl (refl, e))
  gates RoomCheck.fits RoomCheck.fits false s1 comb r e h =
      (refl, refl, inr (refl, ap (λ p. p.1) e))

  -- Where the check of an update passes, the store of skopeo has room for what is to be downloaded and
  -- that of docker for what is to be loaded, and the volume has room for the sum if they share it. The
  -- temporary files may have been removed before.
  pub check_available_storage-HasAllRoom :
      (skopeo docker : ℕ) (s : S)
      → skopeo < 2 ^ 64
      → docker < 2 ^ 64
      → is_fits (check_available_storage D skopeo docker s).0 ≡ true
      → HasAllRoom skopeo docker s (check_available_storage D skopeo docker s).1
  unfolding check_available_storage
  check_available_storage-HasAllRoom skopeo docker s a b h =
      let (c1, s1) = check_room_twice D "skopeo" skopeo D.store_root s in
      let c2 = check_room D "docker" docker D.docker_root s1 in
      let (f1, f2, g) =
        gates c1 c2 D.docker_and_skopeo_same_volume s1 (check_combined D skopeo docker s1)
          (check_available_storage D skopeo docker s) refl h in
      let (m1, k1) = check_room_twice-HasRoomFor "skopeo" skopeo D.store_root s f1 in
      let m2 = check_room-HasRoomFor "docker" docker D.docker_root s1 f2 in
      elim g [
        | inl (v, r) ↦
            let (m, k) =
              subst (Combined skopeo docker s1) (sym r)
                (check_combined-HasRoomFor skopeo docker s1 a b) h in
            (s1, m1, k1, m2, k, λ w. m)
        | inr (v, r) ↦ (s1, m1, k1, m2, inl r, λ w. elim (false-ne-true (sym v ∙ w)) [ ])
      ]
