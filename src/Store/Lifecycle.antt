-- ===== src/Store/Lifecycle.antt =====
-- What group settings and administrators do to images already stored: group_lifecycle.go,
-- apply_lifecycle.go and cleanup_admin.go of internal/service/imagesvc, and DeleteUserData of
-- purge.go. A context is the number of its checks that still find it alive.
use imgli.Common.{
  ℕ, ◌+◌, ◌-◌, Bool, true, false, not, ◌&&◌, Option, none, some, List, [], ◌∷◌, ◌++◌, if◌then◌else◌,
  ◌==◌, ltb, leb, eq_opt, is_some, take, keep, count_of,
}
use imgli.Common.Int.{ℤ, pos, pos_part, neg_part, ltb_ℤ, leb_ℤ, scale64}
use imgli.Common.Outcome.{Outcome, ok, err}
use imgli.Table.{find_id, delete_id}
use imgli.Model.{User, UserGroup, Image, Album, Time, day}
use imgli.Auth.{Accounts, account_key, AuthToken}
use imgli.Auth.Sessions.{end_sessions}
use imgli.Auth.ApiTokens.{ApiToken}
use imgli.Access.{group_cap_sec, add_seconds}
use imgli.Store.{Db, StoreError, user_key, find_image}
use imgli.Store.Moderate.{is_live}
use imgli.Store.Trash.{
  PhysicalDelete, mark_deleted, update_images, purge_one, purge_all, cons_some, trash_expired,
  image_expired,
}

-- The state of a loop over images: what it has removed, what failed, and what is to be deleted.
pub record Sweep : Type 0 where
  pub db : Db
  pub removed : ℕ
  pub failed : ℕ
  pub doomed : List PhysicalDelete
  pub checks : ℕ
  pub cancelled : Bool

abbrev pub sweep_of : ℕ → Db → Sweep
sweep_of checks db = record {
  db = db;
  removed = 0;
  failed = 0;
  doomed = [];
  checks = checks;
  cancelled = false;
}

module _ {ℓ} {A : Type ℓ} where
  -- `if err := ctx.Err(); err != nil { return n, err }` at the head of a loop's body.
  unfoldable pub sweep_each : (A → Sweep → Sweep) → List A → Sweep → Sweep
  sweep_each body [] s = s
  sweep_each body (x ∷ xs) s =
      let rest = sweep_each body xs (body x (record s { checks = s.checks - 1 })) in
      if leb s.checks 0 then record s { cancelled = true } else rest

-- created_at < now - days, where `days` is the wrapped time.Duration.
abbrev pub older_than : ℤ → Time → Image → Bool
older_than days now i =
    let span = scale64 days day in ltb (i.created_at + pos_part span) (now + neg_part span)

-- user_id IS NULL for the guests' group, else user_id IN (the users of the group)
abbrev pub in_group : UserGroup → List User → Image → Bool
in_group g users i = elim i.user_id [
  | none ↦ g.is_guest
  | some uid ↦
      not g.is_guest
      && (elim (find_id user_key uid users) [ none ↦ false | some u ↦ u.group_id == g.id ])
]

abbrev pub live_row : ℕ → Image → Bool
live_row id i = i.id == id && is_live i

unfoldable pub retain_one : Time → Image → Sweep → Sweep
retain_one now img s =
    let r = update_images (live_row img.id) (mark_deleted now) s.db in
    record s { db = r.1; removed = if r.0 then s.removed + 1 else s.removed }

abbrev pub aged : ℤ → UserGroup → Time → Db → List Image
aged days g now db =
    take 500 (keep (λ i. is_live i && older_than days now i && in_group g db.users i) db.images)

unfoldable pub retain_group : Time → UserGroup → Sweep → Sweep
retain_group now g s = sweep_each (retain_one now) (aged g.retention_days g now s.db) s

-- SoftDeleteByGroupRetention
unfoldable pub soft_delete_by_group_retention : List UserGroup → Time → Sweep → Sweep
soft_delete_by_group_retention groups now s =
    sweep_each (retain_group now) (keep (λ (g : UserGroup). ltb_ℤ (pos 0) g.retention_days) groups)
      s

-- The transaction of one purge: its outcome, or the store as it was.
abbrev pub settle : Outcome StoreError (Option PhysicalDelete × Db) → Sweep → Sweep
settle (err e) s = record s { failed = s.failed + 1 }
settle (ok (doomed, db)) s = record s {
  db = db;
  removed = s.removed + 1;
  doomed = s.doomed ++ cons_some doomed [];
}

-- One image of PurgeByGroupForceMaxAge: the row is read again once it is marked.
unfoldable pub force_one : Time → Image → Sweep → Sweep
force_one now img s =
    let r = update_images (live_row img.id) (mark_deleted now) s.db in
    if r.0
    then (elim (find_image img.id r.1) [
      | none ↦ record s { failed = s.failed + 1 }
      | some row ↦ settle (purge_one row r.1) s
    ])
    else s

unfoldable pub force_group : Time → UserGroup → Sweep → Sweep
force_group now g s = sweep_each (force_one now) (aged g.force_max_age_days g now s.db) s

unfoldable pub purge_by_group_force_max_age : List UserGroup → Time → Sweep → Sweep
purge_by_group_force_max_age groups now s =
    sweep_each (force_group now)
      (keep (λ (g : UserGroup). ltb_ℤ (pos 0) g.force_max_age_days) groups) s

-- One image of runExpired: it goes only if its row is still expired and live.
unfoldable pub expire_one : Time → Image → Sweep → Sweep
expire_one now img s =
    let r = update_images (λ i. i.id == img.id && image_expired now i) (mark_deleted now) s.db in
    if r.0 then settle (purge_one img r.1) s else s

-- A limit of 0 is none.
abbrev pub up_to : ℤ → List Image → List Image
up_to limit imgs = if ltb_ℤ (pos 0) limit then take (pos_part limit) imgs else imgs

unfoldable pub run_expired : ℤ → Time → Sweep → Sweep
run_expired limit now s =
    sweep_each (expire_one now) (up_to limit (keep (image_expired now) s.db.images)) s

unfoldable pub trash_one : Image → Sweep → Sweep
trash_one img s = settle (purge_one img s.db) s

unfoldable pub run_trash : ℤ → Time → Sweep → Sweep
run_trash limit now s = sweep_each trash_one (up_to limit (keep (trash_expired now) s.db.images)) s

pub data LifecycleError : Type 0 where
  confirm_required group_not_found ctx_done unknown_kind : LifecycleError

pub data CleanupKind : Type 0 where
  expired trash group_retention group_force_age other_kind : CleanupKind

abbrev pub default_kinds : List CleanupKind
default_kinds = expired ∷ trash ∷ group_retention ∷ group_force_age ∷ []

abbrev pub run_kind : CleanupKind → ℤ → List UserGroup → Time → Sweep → Sweep
run_kind expired limit groups now s = run_expired limit now s
run_kind trash limit groups now s = run_trash limit now s
run_kind group_retention limit groups now s = soft_delete_by_group_retention groups now s
run_kind group_force_age limit groups now s = purge_by_group_force_max_age groups now s
run_kind other_kind limit groups now s = s

abbrev pub is_known : CleanupKind → Bool
is_known other_kind = false
is_known _ = true

-- A kind starts its own counts.
abbrev pub recounted : Sweep → Sweep
recounted s = record s { removed = 0; failed = 0 }

-- The loop of RunCleanup, to the kind that fails: its error, if any, and the store then.
unfoldable pub run_kinds :
    List CleanupKind → ℤ → List UserGroup → Time → Sweep → Option LifecycleError × Sweep
run_kinds [] limit groups now s = (none, s)
run_kinds (k ∷ ks) limit groups now s =
    let done = run_kind k limit groups now (recounted s) in
    let rest = run_kinds ks limit groups now done in
    if not (is_known k)
    then (some unknown_kind, s)
    else if done.cancelled
    then (some ctx_done, done)
    else rest

unfoldable pub run_cleanup :
    List CleanupKind → ℤ → Bool → List UserGroup → Time → Sweep → Option LifecycleError × Sweep
run_cleanup kinds limit confirm groups now s =
    if not confirm
    then (some confirm_required, s)
    else run_kinds (elim kinds [ [] ↦ default_kinds | k ∷ ks ↦ k ∷ ks ]) limit groups now s

-- deleted_at IS NULL AND (expires_at IS NULL OR expires_at > max_at)
abbrev pub over_cap : Time → Image → Bool
over_cap max_at i = is_live i && (elim i.expires_at [ none ↦ true | some t ↦ ltb max_at t ])

abbrev pub clamp_expiry : Time → Image → Image
clamp_expiry max_at i = record i { expires_at = some max_at }

-- LifecycleApplyResult
pub record Applied : Type 0 where
  pub updated : ℕ
  pub skipped : ℕ
  pub db : Db

unfoldable pub clamp_one : Time → Image → Applied → Applied
clamp_one max_at img a =
    let r = update_images (λ i. i.id == img.id && over_cap max_at i) (clamp_expiry max_at) a.db in
    if r.0
    then record a { db = r.1; updated = a.updated + 1 }
    else record a { db = r.1; skipped = a.skipped + 1 }

unfoldable pub clamp_each : Time → List Image → Applied → Applied
clamp_each max_at [] a = a
clamp_each max_at (img ∷ imgs) a = clamp_each max_at imgs (clamp_one max_at img a)

-- groupLiveImagesQuery with the condition of ApplyLifecycle.
abbrev pub to_clamp : UserGroup → Time → Db → Image → Bool
to_clamp g max_at db i = over_cap max_at i && in_group g db.users i

abbrev pub group_row : UserGroup → ℕ
group_row g = g.id

-- A limit of 0 or less is 500.
abbrev pub batch_of : ℤ → ℕ
batch_of limit = if leb_ℤ limit (pos 0) then 500 else pos_part limit

unfoldable pub apply_to_group : UserGroup → ℤ → Time → Db → Applied
apply_to_group g limit now db =
    let cap = group_cap_sec (some g) in
    let start : Applied = record { updated = 0; skipped = 0; db = db } in
    let max_at = add_seconds now cap in
    if leb_ℤ cap (pos 0)
    then start
    else clamp_each max_at (take (batch_of limit) (keep (to_clamp g max_at db) db.images)) start

unfoldable pub apply_lifecycle :
    ℕ → Bool → ℤ → List UserGroup → Time → Db → Outcome LifecycleError Applied
apply_lifecycle group_id confirm limit groups now db =
    if not confirm then err confirm_required else elim (find_id group_row group_id groups) [
      | none ↦ err group_not_found
      | some g ↦ ok (apply_to_group g limit now db)
    ]

-- PreviewApplyLifecycle: the counts of permanent images and of those past the cap.
unfoldable pub preview_group : UserGroup → Time → Db → ℕ × ℕ
preview_group g now db =
    let cap = group_cap_sec (some g) in
    let max_at = add_seconds now cap in
    if leb_ℤ cap (pos 0) then (0, 0) else (
      count_of (λ i. is_live i && in_group g db.users i && not (is_some i.expires_at)) db.images,
      count_of
          (λ i.
            is_live i
            && in_group g db.users i
            && (elim i.expires_at [ none ↦ false | some t ↦ ltb max_at t ]))
          db.images,
    )

-- The tables of a user that have no counter.
pub record UserRows : Type 0 where
  pub albums : List Album
  pub api_tokens : List ApiToken
  pub accounts : Accounts

unfoldable pub delete_rows : ℕ → UserRows → UserRows
delete_rows uid rows =
    let ended = end_sessions uid rows.accounts in
    record {
      albums = keep (λ a. not (a.user_id == uid)) rows.albums;
      api_tokens = keep (λ t. not (t.user_id == uid)) rows.api_tokens;
      accounts = record ended {
        tokens = keep (λ (t : AuthToken). not (t.user_id == uid)) ended.tokens;
        users = delete_id account_key uid ended.users;
      };
    }

abbrev pub of_uploader : ℕ → Image → Bool
of_uploader uid i = eq_opt i.user_id (some uid)

-- DeleteUserData: one transaction, so an error leaves all the tables as they were.
unfoldable pub delete_user_data :
    ℕ → Time → UserRows → Db → Outcome StoreError (List PhysicalDelete × UserRows × Db)
delete_user_data uid now rows db =
    let marked = (update_images (λ i. of_uploader uid i && is_live i) (mark_deleted now) db).1 in
    elim (purge_all (keep (of_uploader uid) marked.images) marked) [
      | err e ↦ err e
      | ok purged ↦ ok (
        purged.0,
        delete_rows uid rows,
        record purged.1 { users = delete_id user_key uid purged.1.users },
      )
    ]
