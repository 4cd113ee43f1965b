-- ===== src/Server/Wire/Conforms.antt =====
-- The bodies that the front end sends have the types into which the server decodes them.
use restic_ui.Base.{
  ℕ, ltb, ap, sym, arith, ◌++◌, ◌≡◌, refl, Bool, true, false, ◌&&◌, Option, none, some, List, [],
  ◌∷◌, if◌then◌else◌,
}
use restic_ui.Base.Text.{Text, codes, text_eq}
use restic_ui.Types.{PlanInput, Retention, BackupOptions}
use restic_ui.Session.Login.{Credentials}
use restic_ui.Repos.Browser.{RestoreBody}
use restic_ui.Server.Wire.{
  Json, null, boolean, number, text, array, object, Items, no_items, item, Members, no_members,
  member, maybe, items, encode_retention, encode_options, encode_plan, encode_credentials,
  encode_restore, GoType, int, string, bool, slice, struct, GoFields, no_fields, field,
  retention_type, options_type, plan_type, credentials_type, restore_type, options_fields,
  retention_fields,
}

abbrev pub find_field : Text → GoFields → Option GoType
find_field key no_fields = none
find_field key (field name type rest) = if text_eq key name then some type else find_field key rest

-- The natural numbers that an `int` of Go holds: those below 2 ^ 63.
unfoldable pub fits : ℕ → Bool
fits n = ltb n 9223372036854775808

-- Whether a document decodes into a type, with no member that the type does not know. `null` leaves
-- any value as it is.
unfoldable mutual
  pub conforms : Option GoType → Json → Bool
  conforms none v = false
  conforms (some type) null = true
  conforms (some bool) (boolean b) = true
  conforms (some int) (number n) = fits n
  conforms (some string) (text t) = true
  conforms (some (slice type)) (array vs) = items_conform (some type) vs
  conforms (some (struct known)) (object ms) = members_conform known ms
  conforms (some _) _ = false

  pub items_conform : Option GoType → Items → Bool
  items_conform type no_items = true
  items_conform type (item v vs) = conforms type v && items_conform type vs

  pub members_conform : GoFields → Members → Bool
  members_conform known no_members = true
  members_conform known (member key v ms) =
      conforms (find_field key known) v && members_conform known ms

texts-conform : (ts : List Text) → items_conform (some string) (items ts) ≡ true
unfolding conforms items_conform
texts-conform [] = refl
texts-conform (t ∷ ts) = texts-conform ts

-- Every number that is there fits.
abbrev pub all_fit : List (Option ℕ) → Bool
all_fit [] = true
all_fit (none ∷ os) = all_fit os
all_fit (some n ∷ os) = fits n && all_fit os

unfoldable pub plan_numbers : PlanInput → List (Option ℕ)
plan_numbers p =
    some p.repo_id
    ∷ p.retention.keep_last
    ∷ p.retention.keep_hourly
    ∷ p.retention.keep_daily
    ∷ p.retention.keep_weekly
    ∷ p.retention.keep_monthly
    ∷ p.retention.keep_yearly
    ∷ p.options.upload_limit_kib
    ∷ p.options.download_limit_kib
    ∷ []

-- A number that may be left out, and a Boolean.
number-conforms :
    (known : GoFields) (key : Text) (o : Option ℕ) (os : List (Option ℕ)) (rest : Members)
    → find_field key known ≡ some int
    → members_conform known rest ≡ all_fit os
    → members_conform known (maybe key number o rest) ≡ all_fit (o ∷ os)
unfolding conforms members_conform
number-conforms known key none os rest e h = h
number-conforms known key (some n) os rest e h = rw (e, h) refl

boolean-conforms :
    (known : GoFields) (key : Text) (o : Option Bool) (os : List (Option ℕ)) (rest : Members)
    → find_field key known ≡ some bool
    → members_conform known rest ≡ all_fit os
    → members_conform known (maybe key boolean o rest) ≡ all_fit os
unfolding conforms members_conform
boolean-conforms known key none os rest e h = h
boolean-conforms known key (some b) os rest e h = rw (e, h) refl

retention-conforms :
    (r : Retention)
    → conforms (some retention_type) (encode_retention r)
      ≡ all_fit (
          r.keep_last ∷ r.keep_hourly ∷ r.keep_daily ∷ r.keep_weekly ∷ r.keep_monthly
          ∷ r.keep_yearly ∷ [])
unfolding conforms members_conform encode_retention
retention-conforms r =
    let m = number-conforms retention_fields in
    m (codes "keepLast") r.keep_last _ _ refl (
      m (codes "keepHourly") r.keep_hourly _ _ refl (
        m (codes "keepDaily") r.keep_daily _ _ refl (
          m (codes "keepWeekly") r.keep_weekly _ _ refl (
            m (codes "keepMonthly") r.keep_monthly _ _ refl (
              m (codes "keepYearly") r.keep_yearly _ _ refl (
                boolean-conforms retention_fields (codes "prune") r.prune [] no_members refl
                  refl))))))

options-conform :
    (o : BackupOptions)
    → conforms (some options_type) (encode_options o)
      ≡ all_fit (o.upload_limit_kib ∷ o.download_limit_kib ∷ [])
unfolding conforms members_conform encode_options
options-conform o =
    let m = number-conforms options_fields in
    let b = boolean-conforms options_fields in
    m (codes "uploadLimitKiB") o.upload_limit_kib _ _ refl (
      m (codes "downloadLimitKiB") o.download_limit_kib _ _ refl (
        b (codes "excludeCaches") o.exclude_caches [] _ refl
          (b (codes "oneFileSystem") o.one_file_system [] no_members refl refl)))

all_fit-append : (os us : List (Option ℕ)) → all_fit (os ++ us) ≡ (all_fit os && all_fit us)
all_fit-append [] us = refl
all_fit-append (none ∷ os) us = all_fit-append os us
all_fit-append (some n ∷ os) us = ground (arith, all_fit-append os us)

and_true : (b : Bool) → (b && true) ≡ b
and_true true = refl
and_true false = refl

-- The JSON that the front end sends of a plan has the type into which the server decodes it exactly
-- if each of the plan's numbers is below 2 ^ 63; that of the credentials and of a restore always has.
-- To have the type means that each member stands under a name that the Go struct knows and has that
-- field's type, at every depth, and that a number fits into an `int` of 64 bits.
pub encode-conforms :
    (p : PlanInput) (c : Credentials) (b : RestoreBody)
    → (conforms (some plan_type) (encode_plan p) ≡ all_fit (plan_numbers p))
      × (conforms (some credentials_type) (encode_credentials c) ≡ true)
      × (conforms (some restore_type) (encode_restore b) ≡ true)
unfolding conforms members_conform items_conform encode_plan encode_credentials encode_restore
    plan_numbers
encode-conforms p c b = (
  rw
      (
        texts-conform p.sources,
        texts-conform p.excludes,
        texts-conform p.tags,
        retention-conforms p.retention,
        options-conform p.options,
        and_true (all_fit (p.options.upload_limit_kib ∷ p.options.download_limit_kib ∷ [])),
      )
      (ap (λ x. fits p.repo_id && x)
        (sym (
          all_fit-append
            (p.retention.keep_last ∷ p.retention.keep_hourly ∷ p.retention.keep_daily
              ∷ p.retention.keep_weekly ∷ p.retention.keep_monthly ∷ p.retention.keep_yearly ∷ [])
            (p.options.upload_limit_kib ∷ p.options.download_limit_kib ∷ [])))),
  refl,
  refl,
)
