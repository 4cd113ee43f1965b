-- ===== src/Server/Wire.antt =====
-- The bodies of requests as JSON: `JSON.stringify` in web/src/lib/api.ts, for the types of
-- web/src/lib/types.ts, and the Go structs into which the handlers of internal/api decode them.
pub mod Conforms
mod Tests
use restic_ui.Base.{ℕ, Bool, true, false, ◌&&◌, Option, none, some, List, [], ◌∷◌, if◌then◌else◌}
use restic_ui.Base.Text.{Text, codes, text_eq}
use restic_ui.Types.{PlanInput, Retention, BackupOptions}
use restic_ui.Session.Login.{Credentials}
use restic_ui.Repos.Browser.{RestoreBody}
use restic_ui.Repos.Card.Requests.{CopyBody}

mutual
  pub data Json : Type 0 where
    null : Json
    boolean : Bool → Json
    number : ℕ → Json
    text : Text → Json
    array : Items → Json
    object : Members → Json

  pub data Items : Type 0 where
    no_items : Items
    item : Json → Items → Items

  pub data Members : Type 0 where
    no_members : Members
    member : Text → Json → Members → Members

-- A field that is undefined is left out.
abbrev pub maybe : {A : Type 0} → Text → (A → Json) → Option A → Members → Members
maybe key encode none rest = rest
maybe key encode (some a) rest = member key (encode a) rest

abbrev pub items : List Text → Items
items [] = no_items
items (t ∷ ts) = item (text t) (items ts)

abbrev pub texts : List Text → Json
texts ts = array (items ts)

unfoldable pub encode_retention : Retention → Json
encode_retention r = object (
    maybe (codes "keepLast") number r.keep_last (
      maybe (codes "keepHourly") number r.keep_hourly (
        maybe (codes "keepDaily") number r.keep_daily (
          maybe (codes "keepWeekly") number r.keep_weekly (
            maybe (codes "keepMonthly") number r.keep_monthly (
              maybe (codes "keepYearly") number r.keep_yearly
                (maybe (codes "prune") boolean r.prune no_members)))))))

unfoldable pub encode_options : BackupOptions → Json
encode_options o = object (
    maybe (codes "uploadLimitKiB") number o.upload_limit_kib (
      maybe (codes "downloadLimitKiB") number o.download_limit_kib (
        maybe (codes "excludeCaches") boolean o.exclude_caches
          (maybe (codes "oneFileSystem") boolean o.one_file_system no_members))))

unfoldable pub encode_plan : PlanInput → Json
unfolding encode_retention encode_options
encode_plan p = object (
    member (codes "name") (text p.name) (
      member (codes "repoId") (number p.repo_id) (
        member (codes "sources") (texts p.sources) (
          member (codes "excludes") (texts p.excludes) (
            member (codes "tags") (texts p.tags) (
              member (codes "scheduleCron") (text p.schedule_cron) (
                member (codes "retention") (encode_retention p.retention) (
                  member (codes "options") (encode_options p.options) (
                    member (codes "enabled") (boolean p.enabled)
                      (member (codes "notifyMuted") (boolean p.notify_muted) no_members))))))))))

unfoldable pub encode_credentials : Credentials → Json
encode_credentials c = object (
    member (codes "username") (text c.username)
      (member (codes "password") (text c.password) no_members))

unfoldable pub encode_restore : RestoreBody → Json
encode_restore b = object (
    member (codes "snapshotId") (text b.snapshot_id) (
      member (codes "includePath") (text b.include_path)
        (member (codes "target") (text b.target) no_members)))

-- The types of Go that the structs use; a field by the name that its tag gives it. `int` and `int64`
-- have 64 bits both, on the platforms that the server is built for.
mutual
  pub data GoType : Type 0 where
    int string bool : GoType
    slice : GoType → GoType
    struct : GoFields → GoType

  pub data GoFields : Type 0 where
    no_fields : GoFields
    field : Text → GoType → GoFields → GoFields

abbrev pub retention_fields : GoFields
retention_fields = field (codes "keepLast") int (
    field (codes "keepHourly") int (
      field (codes "keepDaily") int (
        field (codes "keepWeekly") int (
          field (codes "keepMonthly") int
            (field (codes "keepYearly") int (field (codes "prune") bool no_fields))))))

abbrev pub options_fields : GoFields
options_fields = field (codes "uploadLimitKiB") int (
    field (codes "downloadLimitKiB") int
      (field (codes "excludeCaches") bool (field (codes "oneFileSystem") bool no_fields)))

abbrev pub retention_type : GoType
retention_type = struct retention_fields

abbrev pub options_type : GoType
options_type = struct options_fields

-- `plan.Input`
abbrev pub plan_type : GoType
plan_type = struct (
    field (codes "name") string (
      field (codes "repoId") int (
        field (codes "sources") (slice string) (
          field (codes "excludes") (slice string) (
            field (codes "tags") (slice string) (
              field (codes "scheduleCron") string (
                field (codes "retention") retention_type (
                  field (codes "options") options_type (
                    field (codes "enabled") bool
                      (field (codes "notifyMuted") bool no_fields))))))))))

-- `credentialsRequest`
abbrev pub credentials_type : GoType
credentials_type =
    struct (field (codes "username") string (field (codes "password") string no_fields))

-- The body of handleRepoRestore.
abbrev pub restore_type : GoType
restore_type = struct (
    field (codes "snapshotId") string
      (field (codes "includePath") string (field (codes "target") string no_fields)))
