-- ===== src/Serve/Gate.antt =====
-- On Authorize of internal/service/servesvc/servesvc.go.
use imgli.Common.{
  ℕ, ◌≡◌, ◌↔◌, ◌⊎◌, inl, inr, true, false, none, some, String, arith, Option-cases, Bool-cases,
}
use imgli.Common.Outcome.{ok, Outcome-cases}
use imgli.Model.{Image, Time, public, normal}
use imgli.Bandwidth.{exceeded, no_row, check}
use imgli.Store.{Db}
use imgli.Serve.{
  Access, Gatekeeper, has_password, is_rejected, is_expired, is_exhausted, refuses_host,
  authorize_traffic, authorize,
}

-- The owner's traffic is no obstacle.
abbrev pub HasTraffic : Gatekeeper → Access → String → Image → Db → Type 0
HasTraffic g acc period img db =
    (uid : ℕ)
    → acc.is_admin ≡ false
    → img.user_id ≡ some uid
    → check uid period db.users g.groups ≡ ok tt

traffic_iff :
    (g : Gatekeeper) (acc : Access) (period : String) (img : Image) (db : Db)
    → (authorize_traffic g acc period img db ≡ none) ↔ HasTraffic g acc period img db
unfolding authorize_traffic
traffic_iff g acc period img db = (λ h uid a e. passed h uid a e, λ t. free t)
  where
    passed : authorize_traffic g acc period img db ≡ none → HasTraffic g acc period img db
    passed h uid a e = elim (Outcome-cases (check uid period db.users g.groups)) [
      | inl (r, f) ↦ f
      | inr (exceeded, f) ↦ absurd (ground (arith, f))
      | inr (no_row, f) ↦ absurd (ground (arith, f))
    ]

    free : HasTraffic g acc period img db → authorize_traffic g acc period img db ≡ none
    free t = elim (Option-cases img.user_id) [
      | inl e ↦ ground (arith, e)
      | inr (uid, e) ↦ elim (Bool-cases acc.is_admin) [
        | inl a ↦ ground (arith, e, a)
        | inr a ↦ ground (arith, e, a, t uid a e)
      ]
    ]

-- An image that a visitor without privileges may see: reviewed, public, with views left, unlocked,
-- and asked for from an allowed page.
abbrev pub IsOpen : Gatekeeper → Access → Image → Type 0
IsOpen g acc img =
    (img.status ≡ normal)
    × (img.visibility ≡ public)
    × (is_exhausted img ≡ false)
    × ((has_password img ≡ false) ⊎ (acc.password_ok ≡ true))
    × (refuses_host g acc ≡ false)

-- What Authorize lets pass.
abbrev pub MayPass : Gatekeeper → Access → Time → String → Image → Db → Type 0
MayPass g acc now period img db =
    ((acc.is_owner ≡ true) ⊎ (acc.is_admin ≡ true) ⊎ IsOpen g acc img)
    × ((acc.is_admin ≡ true) ⊎ ((is_rejected img ≡ false) × (is_expired now img ≡ false)))
    × HasTraffic g acc period img db

module _ (g : Gatekeeper) (acc : Access) (now : Time) (period : String) (img : Image)
    (db : Db) where
  seen_by_strangers :
      acc.is_owner ≡ false
      → acc.is_admin ≡ false
      → authorize g acc now period img db ≡ none
      → IsOpen g acc img
  unfolding authorize
  seen_by_strangers o a h = (
    ground arith,
    ground arith,
    ground arith,
    elim (Bool-cases acc.password_ok) [
      | inl ok_given ↦ inr ok_given
      | inr none_given ↦ inl (ground arith)
    ],
    ground arith,
  )

  authorize_sound : authorize g acc now period img db ≡ none → MayPass g acc now period img db
  unfolding authorize
  authorize_sound h = (
    elim (Bool-cases acc.is_owner) [
      | inl o ↦ inl o
      | inr o ↦ elim (Bool-cases acc.is_admin) [
        | inl a ↦ inr (inl a)
        | inr a ↦ inr (inr (seen_by_strangers o a h))
      ]
    ],
    elim (Bool-cases acc.is_admin) [ inl a ↦ inl a | inr a ↦ inr (ground arith, ground arith) ],
    (traffic_iff g acc period img db).0 (ground arith),
  )

  authorize_complete : MayPass g acc now period img db → authorize g acc now period img db ≡ none
  unfolding authorize
  authorize_complete (who, when, traffic) =
      let free : authorize_traffic g acc period img db ≡ none =
        (traffic_iff g acc period img db).1 traffic in
      ground (arith, free)

  -- The gate lets a request pass exactly if the visitor owns the image, is an administrator, or the
  -- image is open to all (reviewed, public, with views left, unlocked, on an allowed page), it is
  -- neither rejected nor expired unless an administrator asks, and its owner has traffic left.
  pub authorize_iff : (authorize g acc now period img db ≡ none) ↔ MayPass g acc now period img db
  authorize_iff = (λ h. authorize_sound h, λ p. authorize_complete p)
