-- ===== src/Repos/Form/Mounted.antt =====
-- web/src/components/repos/RepoForm.tsx: what is sent is what the form shows.
use restic_ui.Base.{
  Bool, true, false, some, List, [], ◌∷◌, ◌≡◌, refl, ap, if◌then◌else◌, filter, any, find?,
  Bool-cases, inl, inr,
}
use mathlib.Core.Option
use restic_ui.Base.Text.{Text, codes, text_eq, text_eq_iff}
use restic_ui.Types.{BackendType}
use restic_ui.Repos.Form.{FormData, RepoForm, get, config_of, secrets_of, repo_input, ℤ}
use restic_ui.Repos.Form.Inputs.{Input, mounted}

abbrev pub has_input : List Input → Text → Bool
has_input inputs k = any (λ i. text_eq i.name k) inputs

-- The entries whose inputs are among those.
abbrev pub restrict : List Input → FormData → FormData
restrict inputs f = filter (λ e. has_input inputs e.0) f

module _ (inputs : List Input) where
  other_name :
      (name k : Text)
      → has_input inputs k ≡ true
      → has_input inputs name ≡ false
      → text_eq name k ≡ false
  other_name name k h gone = elim (Bool-cases (text_eq name k)) [
    | inl e ↦ cc (h, gone, (text_eq_iff name k).0 e)
    | inr e ↦ e
  ]

  find?-restrict :
      (f : FormData) (k : Text)
      → has_input inputs k ≡ true
      → find? (λ e. text_eq e.0 k) (restrict inputs f) ≡ find? (λ e. text_eq e.0 k) f
  find?-restrict [] k h = refl
  find?-restrict (e ∷ f) k h = elim (Bool-cases (has_input inputs e.0)) [
    | inl kept ↦ rw kept (ap (λ o. if text_eq e.0 k then some e else o) (find?-restrict f k h))
    | inr gone ↦ rw (gone, other_name e.0 k h gone) (find?-restrict f k h)
  ]

  -- What is read under the name of an input is kept.
  get-restrict :
      (f : FormData) (k : Text) → has_input inputs k ≡ true → get (restrict inputs f) k ≡ get f k
  get-restrict f k h = ap (Option.map (λ e. e.1)) (find?-restrict f k h)

config_of-restrict :
    (to_number : Text → ℤ) (b : BackendType) (f : FormData)
    → config_of to_number b (restrict (mounted b) f) ≡ config_of to_number b f
unfolding config_of
config_of-restrict to_number BackendType.local_path f =
    cc (get-restrict (mounted BackendType.local_path) f (codes "path") refl)
config_of-restrict to_number BackendType.rclone f = cc (
  get-restrict (mounted BackendType.rclone) f (codes "path") refl,
  get-restrict (mounted BackendType.rclone) f (codes "remote") refl,
)
config_of-restrict to_number BackendType.s3 f = cc (
  get-restrict (mounted BackendType.s3) f (codes "endpoint") refl,
  get-restrict (mounted BackendType.s3) f (codes "bucket") refl,
  get-restrict (mounted BackendType.s3) f (codes "prefix") refl,
  get-restrict (mounted BackendType.s3) f (codes "region") refl,
  get-restrict (mounted BackendType.s3) f (codes "accessKeyId") refl,
  get-restrict (mounted BackendType.s3) f (codes "useHttp") refl,
)
config_of-restrict to_number BackendType.sftp f = cc (
  get-restrict (mounted BackendType.sftp) f (codes "host") refl,
  get-restrict (mounted BackendType.sftp) f (codes "sftpPort") refl,
  get-restrict (mounted BackendType.sftp) f (codes "user") refl,
  get-restrict (mounted BackendType.sftp) f (codes "path") refl,
)

secrets_of-restrict :
    (to_number : Text → ℤ) (b : BackendType) (f : FormData)
    → secrets_of to_number b (restrict (mounted b) f) ≡ secrets_of to_number b f
unfolding secrets_of
secrets_of-restrict to_number BackendType.local_path f = refl
secrets_of-restrict to_number BackendType.s3 f =
    cc (get-restrict (mounted BackendType.s3) f (codes "secretAccessKey") refl)
secrets_of-restrict to_number BackendType.sftp f =
    cc (get-restrict (mounted BackendType.sftp) f (codes "privateKey") refl)
secrets_of-restrict to_number BackendType.rclone f =
    cc (get-restrict (mounted BackendType.rclone) f (codes "rcloneConf") refl)

-- What the form sends depends on nothing but the inputs that it shows for the selected backend: to
-- leave out of the document's data whatever stands under another name gives the same request.
pub repo_input-restrict :
    (to_number : Text → ℤ) (f : FormData) (s : RepoForm)
    → repo_input to_number (restrict (mounted s.backend) f) s ≡ repo_input to_number f s
unfolding repo_input
repo_input-restrict to_number f s = cc (
  config_of-restrict to_number s.backend f,
  secrets_of-restrict to_number s.backend f,
  get-restrict (mounted s.backend) f (codes "name") refl,
  get-restrict (mounted s.backend) f (codes "password") refl,
)
