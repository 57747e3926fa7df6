-- ===== src/Store/SweepLaws.antt =====
-- Lemmas on the loops of group_lifecycle.go and cleanup_admin.go (internal/service/imagesvc): what
-- one image's turn keeps, and what the loop keeps.
use imgli.Common.{
  ℕ, ◌-◌, inl, inr, Bool, ◌&&◌, not, true, List, [], ◌∷◌, String, arith, ◌==◌, leb, keep, All,
  Bool-cases, Option-cases,
}
use imgli.Common.Int.{ℤ, pos, pos_part, ltb_ℤ}
use imgli.Common.Outcome.{Outcome-cases}
use imgli.Table.Laws.{find_id-found}
use imgli.Table.Members.{All-map, All-take}
use imgli.Model.{UserGroup, Image, Time}
use imgli.Store.{Db, image_key, find_image}
use imgli.Store.Moderate.{is_live}
use imgli.Store.Trash.{mark_deleted, update_images, purge_one, image_expired, trash_expired}
use imgli.Store.Lifecycle.{
  Sweep, sweep_each, retain_one, force_one, expire_one, trash_one, settle, live_row, aged,
  older_than, in_group, retain_group, force_group, soft_delete_by_group_retention,
  purge_by_group_force_max_age, up_to, run_expired, run_trash, CleanupKind, run_kinds, run_cleanup,
  expired, trash, group_retention, group_force_age, other_kind, run_kind, recounted, is_known,
}
use imgli.Store.Invariant.{IsConsistent}
use imgli.Store.PurgeLaws.{purge_one-IsConsistent}
use imgli.Store.TrashLaws.{mark_deleted-IsNeutral, update_images-IsConsistent}
use imgli.Store.LoopLaws.{IsSnapshot, purge_one-rows, queried}
use imgli.Store.ExpiryLaws.{marked-IsSnapshot}

module _ {ℓ κ} {A : Type ℓ} (P : Sweep → A → Type κ) (Q : Sweep → Type κ) where
  -- A loop keeps what each of its turns keeps, for the items whose turn is yet to come as well.
  pub sweep_each-keeps :
      (body : A → Sweep → Sweep) (xs : List A) (s : Sweep)
      → ((s : Sweep) (n : ℕ) → Q s → Q (record s { checks = n }))
      → ((s : Sweep) → Q s → Q (record s { cancelled = true }))
      → ((s : Sweep) (n : ℕ) (x : A) → P s x → P (record s { checks = n }) x)
      → ((x : A) (s : Sweep) → Q s → P s x → Q (body x s))
      → ((x : A) (s : Sweep) → Q s → P s x → (y : A) → P s y → P (body x s) y)
      → Q s
      → All (P s) xs
      → Q (sweep_each body xs s)
  unfolding sweep_each
  sweep_each-keeps body [] s qn qc pn step keep q h = q
  sweep_each-keeps body (x ∷ xs) s qn qc pn step keep q h = elim (Bool-cases (leb s.checks 0)) [
    | inl e ↦ rw (e, sweep_each) (qc s q)
    | inr e ↦
        let t = record s { checks = s.checks - 1 } in
        rw (e, sweep_each)
          (sweep_each-keeps body xs (body x t) qn qc pn step keep
            (step x t (qn s (s.checks - 1) q) (pn s (s.checks - 1) x h.0))
            (All-map xs
              (λ y p.
                keep x t (qn s (s.checks - 1) q) (pn s (s.checks - 1) x h.0) y
                  (pn s (s.checks - 1) y p))
              h.1))
  ]

-- A turn of a loop over images: the store stays consistent, and so do the other images' copies.
pub record IsTurn (cs : String → ℕ) (body : Image → Sweep → Sweep) : Type 0 where
  pub consistent :
      (img : Image) (s : Sweep)
      → IsConsistent cs s.db
      → IsSnapshot s.db img
      → IsConsistent cs (body img s).db
  pub others :
      (img : Image) (s : Sweep)
      → IsConsistent cs s.db
      → IsSnapshot s.db img
      → (other : Image) → IsSnapshot s.db other
      → IsSnapshot (body img s).db other

pub turns-IsConsistent :
    (cs : String → ℕ) (body : Image → Sweep → Sweep) (imgs : List Image) (s : Sweep)
    → IsTurn cs body
    → IsConsistent cs s.db
    → All (IsSnapshot s.db) imgs
    → IsConsistent cs (sweep_each body imgs s).db
turns-IsConsistent cs body imgs s t c h =
    sweep_each-keeps (λ s img. IsSnapshot s.db img) (λ s. IsConsistent cs s.db) body imgs s
      (λ s n q. q) (λ s q. q) (λ s n x p. p) (λ x s q p. t.consistent x s q p)
      (λ x s q p y r. t.others x s q p y r) c h

-- The purge of one image, from a copy of its row.
settle-turn :
    (cs : String → ℕ) (img : Image) (db : Db) (s : Sweep)
    → IsConsistent cs db
    → IsSnapshot db img
    → IsConsistent cs s.db
    → ((other : Image) → IsSnapshot s.db other → IsSnapshot db other)
    → (IsConsistent cs (settle (purge_one img db) s).db)
      × ((other : Image)
          → IsSnapshot s.db other
          → IsSnapshot (settle (purge_one img db) s).db other)
settle-turn cs img db s c snap before carried = elim (Outcome-cases (purge_one img db)) [
  | inl (r, e) ↦ rw e (
    purge_one-IsConsistent cs img db c snap e,
    λ other o. purge_one-rows cs img db other c snap e (carried other o),
  )
  | inr (x, e) ↦ rw e (before, λ other o. o)
]

-- A conditional update by id: any copy of the image will do.
pub retain_one-IsConsistent :
    (cs : String → ℕ) (now : Time) (img : Image) (s : Sweep)
    → IsConsistent cs s.db
    → IsConsistent cs (retain_one now img s).db
unfolding retain_one
retain_one-IsConsistent cs now img s c =
    update_images-IsConsistent cs (live_row img.id) (mark_deleted now) (mark_deleted-IsNeutral now)
      s.db c

pub retain_one-IsTurn : (cs : String → ℕ) (now : Time) → IsTurn cs (retain_one now)
unfolding retain_one
retain_one-IsTurn cs now = record {
  consistent = λ img s c snap. retain_one-IsConsistent cs now img s c;
  others = λ img s c snap other o. marked-IsSnapshot (live_row img.id) now s.db other o;
}

pub trash_one-IsTurn : (cs : String → ℕ) → IsTurn cs trash_one
unfolding trash_one
trash_one-IsTurn cs = record {
  consistent = λ img s c snap. (settle-turn cs img s.db s c snap c (λ other o. o)).0;
  others = λ img s c snap other o. (settle-turn cs img s.db s c snap c (λ other o. o)).1 other o;
}

module _ (cs : String → ℕ) (p : Image → Bool) (now : Time) (img : Image) (s : Sweep)
    (c : IsConsistent cs s.db) where
  abbrev marked : Db
  marked = (update_images p (mark_deleted now) s.db).1

  marked-IsConsistent : IsConsistent cs marked
  marked-IsConsistent =
      update_images-IsConsistent cs p (mark_deleted now) (mark_deleted-IsNeutral now) s.db c

  pub purge_marked :
      (row : Image)
      → IsSnapshot marked row
      → (IsConsistent cs (settle (purge_one row marked) s).db)
        × ((other : Image)
            → IsSnapshot s.db other
            → IsSnapshot (settle (purge_one row marked) s).db other)
  purge_marked row snap =
      settle-turn cs row marked s marked-IsConsistent snap c
        (λ other o. marked-IsSnapshot p now s.db other o)

-- PurgeByGroupForceMaxAge reads the row again, so any copy of the image will do.
pub forced :
    (cs : String → ℕ) (now : Time) (img : Image) (s : Sweep)
    → IsConsistent cs s.db
    → (IsConsistent cs (force_one now img s).db)
      × ((other : Image) → IsSnapshot s.db other → IsSnapshot (force_one now img s).db other)
unfolding force_one
forced cs now img s c =
    let db = marked cs (live_row img.id) now img s c in
    elim (Bool-cases (update_images (live_row img.id) (mark_deleted now) s.db).0) [
      | inr e ↦ rw (e, force_one) (c, λ other o. o)
      | inl e ↦ elim (Option-cases (find_image img.id db)) [
        | inl gone ↦ rw (e, gone, force_one) (c, λ other o. o)
        | inr (row, there) ↦
            rw (e, there, force_one)
              (purge_marked cs (live_row img.id) now img s c row
                (λ r f. ground (arith, find_id-found image_key img.id db.images there)))
      ]
    ]

pub force_one-IsTurn : (cs : String → ℕ) (now : Time) → IsTurn cs (force_one now)
force_one-IsTurn cs now = record {
  consistent = λ img s c snap. (forced cs now img s c).0;
  others = λ img s c snap other o. (forced cs now img s c).1 other o;
}

expired_turn :
    (cs : String → ℕ) (now : Time) (img : Image) (s : Sweep)
    → IsConsistent cs s.db
    → IsSnapshot s.db img
    → (IsConsistent cs (expire_one now img s).db)
      × ((other : Image) → IsSnapshot s.db other → IsSnapshot (expire_one now img s).db other)
unfolding expire_one
expired_turn cs now img s c snap =
    let p = λ (i : Image). i.id == img.id && image_expired now i in
    elim (Bool-cases (update_images p (mark_deleted now) s.db).0) [
      | inr e ↦ rw (e, expire_one) (c, λ other o. o)
      | inl e ↦
          rw (e, expire_one)
            (purge_marked cs p now img s c img (marked-IsSnapshot p now s.db img snap))
    ]

pub expire_one-IsTurn : (cs : String → ℕ) (now : Time) → IsTurn cs (expire_one now)
expire_one-IsTurn cs now = record {
  consistent = λ img s c snap. (expired_turn cs now img s c snap).0;
  others = λ img s c snap other o. (expired_turn cs now img s c snap).1 other o;
}

up_to-snapshots :
    (limit : ℤ) (db : Db) (imgs : List Image)
    → All (IsSnapshot db) imgs
    → All (IsSnapshot db) (up_to limit imgs)
up_to-snapshots limit db imgs h = elim (Bool-cases (ltb_ℤ (pos 0) limit)) [
  | inl e ↦ rw e (All-take (IsSnapshot db) (pos_part limit) imgs h)
  | inr e ↦ rw e h
]

all_unit : {A : Type 0} (xs : List A) → All {0, 0} (λ x. Unit) xs
all_unit [] = tt
all_unit (x ∷ xs) = (tt, all_unit xs)

-- The loops over groups.
groups-IsConsistent :
    (cs : String → ℕ) (body : UserGroup → Sweep → Sweep) (groups : List UserGroup) (s : Sweep)
    → ((g : UserGroup) (s : Sweep) → IsConsistent cs s.db → IsConsistent cs (body g s).db)
    → IsConsistent cs s.db
    → IsConsistent cs (sweep_each body groups s).db
groups-IsConsistent cs body groups s step c =
    sweep_each-keeps (λ s g. Unit) (λ s. IsConsistent cs s.db) body groups s (λ s n q. q) (λ s q. q)
      (λ s n x p. tt) (λ g s q p. step g s q) (λ x s q p y r. tt) c (all_unit groups)

aged-snapshots :
    (cs : String → ℕ) (days : ℤ) (g : UserGroup) (now : Time) (db : Db)
    → IsConsistent cs db
    → All (IsSnapshot db) (aged days g now db)
aged-snapshots cs days g now db c =
    All-take (IsSnapshot db) 500 _
      (queried cs (λ i. is_live i && older_than days now i && in_group g db.users i) db c)

pub retention-IsConsistent :
    (cs : String → ℕ) (groups : List UserGroup) (now : Time) (s : Sweep)
    → IsConsistent cs s.db
    → IsConsistent cs (soft_delete_by_group_retention groups now s).db
unfolding soft_delete_by_group_retention retain_group
retention-IsConsistent cs groups now s c =
    groups-IsConsistent cs (retain_group now) _ s
      (λ g s q.
        turns-IsConsistent cs (retain_one now) (aged g.retention_days g now s.db) s
          (retain_one-IsTurn cs now) q (aged-snapshots cs g.retention_days g now s.db q))
      c

pub force_max_age-IsConsistent :
    (cs : String → ℕ) (groups : List UserGroup) (now : Time) (s : Sweep)
    → IsConsistent cs s.db
    → IsConsistent cs (purge_by_group_force_max_age groups now s).db
unfolding purge_by_group_force_max_age force_group
force_max_age-IsConsistent cs groups now s c =
    groups-IsConsistent cs (force_group now) _ s
      (λ g s q.
        turns-IsConsistent cs (force_one now) (aged g.force_max_age_days g now s.db) s
          (force_one-IsTurn cs now) q (aged-snapshots cs g.force_max_age_days g now s.db q))
      c

run_kind-IsConsistent :
    (cs : String → ℕ) (k : CleanupKind) (limit : ℤ) (groups : List UserGroup) (now : Time)
    (s : Sweep)
    → IsConsistent cs s.db
    → IsConsistent cs (run_kind k limit groups now s).db
unfolding run_expired run_trash
run_kind-IsConsistent cs expired limit groups now s c =
    turns-IsConsistent cs (expire_one now) _ s (expire_one-IsTurn cs now) c
      (up_to-snapshots limit s.db _ (queried cs (image_expired now) s.db c))
run_kind-IsConsistent cs trash limit groups now s c =
    turns-IsConsistent cs trash_one _ s (trash_one-IsTurn cs) c
      (up_to-snapshots limit s.db _ (queried cs (trash_expired now) s.db c))
run_kind-IsConsistent cs group_retention limit groups now s c =
    retention-IsConsistent cs groups now s c
run_kind-IsConsistent cs group_force_age limit groups now s c =
    force_max_age-IsConsistent cs groups now s c
run_kind-IsConsistent cs other_kind limit groups now s c = c

run_kinds-IsConsistent :
    (cs : String → ℕ) (ks : List CleanupKind) (limit : ℤ) (groups : List UserGroup) (now : Time)
    (s : Sweep)
    → IsConsistent cs s.db
    → IsConsistent cs (run_kinds ks limit groups now s).1.db
unfolding run_kinds
run_kinds-IsConsistent cs [] limit groups now s c = c
run_kinds-IsConsistent cs (k ∷ ks) limit groups now s c =
    let done = run_kind k limit groups now (recounted s) in
    let kept = run_kind-IsConsistent cs k limit groups now (recounted s) c in
    elim (Bool-cases (not (is_known k))) [
      | inl e ↦ rw (e, run_kinds) c
      | inr e ↦ elim (Bool-cases done.cancelled) [
        | inl f ↦ rw (e, f, run_kinds) kept
        | inr f ↦ rw (e, f, run_kinds) (run_kinds-IsConsistent cs ks limit groups now done kept)
      ]
    ]

pub run_cleanup-IsConsistent :
    (cs : String → ℕ) (kinds : List CleanupKind) (limit : ℤ) (confirm : Bool)
    (groups : List UserGroup) (now : Time) (s : Sweep)
    → IsConsistent cs s.db
    → IsConsistent cs (run_cleanup kinds limit confirm groups now s).1.db
unfolding run_cleanup
run_cleanup-IsConsistent cs kinds limit confirm groups now s c = elim (Bool-cases confirm) [
  | inr e ↦ rw (e, run_cleanup) c
  | inl e ↦ rw (e, run_cleanup) (run_kinds-IsConsistent cs _ limit groups now s c)
]
