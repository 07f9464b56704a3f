-- ===== src/Fota/Download/Closing.antt =====
-- The download ends with its socket closed on every path.
use air_quality_sensor_node.Base.{ℕ, zero, suc, ◌≡◌, refl, ◌∙◌, ◌⊎◌, inl, inr, Bool, true, false}
use air_quality_sensor_node.Base.Outcome.{Outcome, ok}
use air_quality_sensor_node.Fota.Response.{FotaResponse}
use air_quality_sensor_node.Fota.Download.{
  Platform, Round, given_up, written, attempt, write_block, download_block, download_blocks,
  after_round, connected, opened, fota_download_image,
}

module _ {D : Type 0} (platform : Platform D) (flash_bank_size : ℕ) where
  open platform use {socket, close}

  -- A round that gives up has closed the socket, as its last step.
  abbrev HasClosed : Round D → Type 0
  HasClosed (given_up d) = (d' : D) × (d ≡ close d')
  HasClosed (written d total last) = Unit

  attempt-HasClosed :
      (c : D × Bool) (next : D → Round D)
      → ((d : D) → HasClosed (next d))
      → HasClosed (attempt platform flash_bank_size c next)
  unfolding attempt
  attempt-HasClosed (d, true) next h = h d
  attempt-HasClosed (d, false) next h = (d, refl)

  download_block-HasClosed :
      (resp : FotaResponse) (total : ℕ) (d : D)
      → HasClosed (download_block platform flash_bank_size resp total d)
  unfolding download_block write_block
  download_block-HasClosed resp total d = attempt-HasClosed _ _ λ d1. attempt-HasClosed _ _ λ d2.
      attempt-HasClosed _ _ λ d3. attempt-HasClosed _ _ λ d4. attempt-HasClosed _ _ λ d5.
        attempt-HasClosed _ _ λ d6.
          attempt-HasClosed _ _ λ d7. attempt-HasClosed _ _ λ d8. attempt-HasClosed _ _ λ d9. tt

  abbrev IsClosed : Outcome (D × Bool) → Type 0
  IsClosed o = (r : Bool) (d : D) → o ≡ ok (d, r) → (d' : D) × (d ≡ close d')

  abbrev finished : D → Bool → Outcome (D × Bool)
  finished d r = ok (d, r)

  same_state : (x y : D) (a b : Bool) → finished x a ≡ finished y b → y ≡ x
  same_state x y a b e = cc

  same_result : (x y : D) (a b : Bool) → finished x a ≡ finished y b → b ≡ a
  same_result x y a b e = cc

  after_round-IsClosed :
      (round : Round D) (go_on : ℕ → D → Outcome (D × Bool))
      → HasClosed round
      → ((total : ℕ) (d : D) → IsClosed (go_on total d))
      → IsClosed (after_round platform flash_bank_size round go_on)
  unfolding after_round
  after_round-IsClosed (given_up d) go_on h k r d' e = (h.0, same_state d d' false r e ∙ h.1)
  after_round-IsClosed (written d total true) go_on h k r d' e =
      (d, same_state (close d) d' true r e)
  after_round-IsClosed (written d total false) go_on h k r d' e = k total d r d' e

  download_blocks-IsClosed :
      (fuel : ℕ) (resp : FotaResponse) (total : ℕ) (d : D)
      → IsClosed (download_blocks platform flash_bank_size fuel resp total d)
  unfolding download_blocks
  download_blocks-IsClosed zero resp total d = λ r d' e. absurd cc
  download_blocks-IsClosed (suc fuel) resp total d =
      after_round-IsClosed (download_block platform flash_bank_size resp total d) _
        (download_block-HasClosed resp total d)
        (λ total' d'. download_blocks-IsClosed fuel resp total' d')

  connected-IsClosed :
      (fuel : ℕ) (resp : FotaResponse) (c : D × Bool)
      → IsClosed (connected platform flash_bank_size fuel resp c)
  unfolding connected
  connected-IsClosed fuel resp (d, true) = download_blocks-IsClosed fuel resp 0 d
  connected-IsClosed fuel resp (d, false) = λ r d' e. (d, same_state (close d) d' false r e)

  opened_closes :
      (fuel : ℕ) (resp : FotaResponse) (c : D × Bool) (d' : D) (r : Bool)
      → opened platform flash_bank_size fuel resp c ≡ ok (d', r)
      → ((c.1 ≡ false) × (r ≡ false)) ⊎ ((last : D) × (d' ≡ close last))
  unfolding opened
  opened_closes fuel resp (d, true) d' r e =
      inr (connected-IsClosed fuel resp (platform.connect resp d) r d' e)
  opened_closes fuel resp (d, false) d' r e = inl (refl, same_result d d' false r e)

  unfoldable pub IsOver : Round D → (ℕ → D → Type 0) → Type 0
  IsOver (given_up d) later = Unit
  IsOver (written d total true) later = Unit
  IsOver (written d total false) later = later total d

  -- One of the first `n` rounds gives up or writes the last block.
  unfoldable pub EndsWithin : ℕ → FotaResponse → ℕ → D → Type 0
  EndsWithin zero resp total d = ⊥
  EndsWithin (suc n) resp total d =
      IsOver (download_block platform flash_bank_size resp total d)
        λ total' d'. EndsWithin n resp total' d'

  after_round_ends :
      (round : Round D) (go_on : ℕ → D → Outcome (D × Bool)) (later : ℕ → D → Type 0)
      → IsOver round later
      → ((total : ℕ) (d : D) → later total d → (d' : D) × (r : Bool) × (go_on total d ≡ ok (d', r)))
      → (d' : D) × (r : Bool) × (after_round platform flash_bank_size round go_on ≡ ok (d', r))
  unfolding after_round IsOver
  after_round_ends (given_up d) go_on later h k = (d, false, refl)
  after_round_ends (written d total true) go_on later h k = (close d, true, refl)
  after_round_ends (written d total false) go_on later h k = k total d h

  download_blocks_ends :
      (fuel : ℕ) (resp : FotaResponse) (total : ℕ) (d : D)
      → EndsWithin fuel resp total d
      → (d' : D) × (r : Bool) × (download_blocks platform flash_bank_size fuel resp total d
          ≡ ok (d', r))
  unfolding download_blocks EndsWithin
  download_blocks_ends zero resp total d h = absurd h
  download_blocks_ends (suc fuel) resp total d h =
      after_round_ends (download_block platform flash_bank_size resp total d) _ _ h
        λ total' d'. download_blocks_ends fuel resp total' d'

  connected_ends :
      (fuel : ℕ) (resp : FotaResponse) (c : D × Bool)
      → EndsWithin fuel resp 0 c.0
      → (d' : D) × (r : Bool) × (connected platform flash_bank_size fuel resp c ≡ ok (d', r))
  unfolding connected
  connected_ends fuel resp (d, true) h = download_blocks_ends fuel resp 0 d h
  connected_ends fuel resp (d, false) h = (close d, false, refl)

  opened_ends :
      (fuel : ℕ) (resp : FotaResponse) (c : D × Bool)
      → EndsWithin fuel resp 0 (platform.connect resp c.0).0
      → (d' : D) × (r : Bool) × (opened platform flash_bank_size fuel resp c ≡ ok (d', r))
  unfolding opened
  opened_ends fuel resp (d, true) h = connected_ends fuel resp (platform.connect resp d) h
  opened_ends fuel resp (d, false) h = (d, false, refl)

  -- If one of the first `fuel` rounds gives up or writes the last block, the download ends. It has
  -- then either opened no socket, and fails, or closed the socket as its last step, whichever call
  -- failed and whether or not the image is complete.
  pub fota_download_image_lem :
      (fuel : ℕ) (resp : FotaResponse) (d : D)
      → EndsWithin fuel resp 0 (platform.connect resp (socket d).0).0
      → (d' : D) × (r : Bool) × (fota_download_image platform flash_bank_size fuel resp d
          ≡ ok (d', r))
        × ((((socket d).1 ≡ false) × (r ≡ false)) ⊎ ((last : D) × (d' ≡ close last)))
  unfolding fota_download_image
  fota_download_image_lem fuel resp d h =
      let (d', r, e) = opened_ends fuel resp (socket d) h in
      (d', r, e, opened_closes fuel resp (socket d) d' r e)
