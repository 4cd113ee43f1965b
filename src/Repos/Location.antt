-- ===== src/Repos/Location.antt =====
-- web/src/components/repos/RepoCard.tsx: the line that says where a repository points.
use restic_ui.Base.{Option, none, some, [], ◌∷◌, ◌++◌, ◌≡◌, refl, if◌then◌else◌, or_else}
use restic_ui.Base.Text.{Text, codes, is_empty}
use restic_ui.Types.{BackendType, RepoConfig, ℤ}
use restic_ui.Repos.Form.{FormData, str, config_of}

-- An optional text in a template literal.
abbrev pub shown : Option Text → Text
shown o = or_else o (codes "undefined")

abbrev prefix_part : Option Text → Text
prefix_part none = []
prefix_part (some p) = if is_empty p then [] else b'/' ∷ p

unfoldable pub location_summary : BackendType → RepoConfig → Text
location_summary BackendType.local_path c = or_else c.path []
location_summary BackendType.s3 c =
    shown c.endpoint ++ (b'/' ∷ (shown c.bucket ++ prefix_part c.prefix))
location_summary BackendType.sftp c =
    shown c.user ++ (b'@' ∷ (shown c.host ++ (b':' ∷ shown c.path)))
location_summary BackendType.rclone c = shown c.remote ++ (b':' ∷ shown c.path)

-- Where the inputs of a form say that the repository is.
abbrev pub typed_location : BackendType → FormData → Text
typed_location BackendType.local_path f = str f (codes "path")
typed_location BackendType.s3 f =
    str f (codes "endpoint")
    ++ (b'/' ∷ (str f (codes "bucket") ++ prefix_part (some (str f (codes "prefix")))))
typed_location BackendType.sftp f =
    str f (codes "user") ++ (b'@' ∷ (str f (codes "host") ++ (b':' ∷ str f (codes "path"))))
typed_location BackendType.rclone f = str f (codes "remote") ++ (b':' ∷ str f (codes "path"))

-- The configuration that the form makes for a backend has every field that the summary of that
-- backend reads: the summary shows the trimmed inputs, and never "undefined" for a missing field.
pub location_summary-config_of :
    (to_number : Text → ℤ) (backend : BackendType) (f : FormData)
    → location_summary backend (config_of to_number backend f) ≡ typed_location backend f
unfolding location_summary config_of
location_summary-config_of to_number BackendType.local_path f = refl
location_summary-config_of to_number BackendType.s3 f = refl
location_summary-config_of to_number BackendType.sftp f = refl
location_summary-config_of to_number BackendType.rclone f = refl
