-- ===== src/Server/Arguments/Read.antt =====
-- internal/plan/plan.go with internal/ops/runner.go: restic reads from a command line what the plan
-- says.
use restic_ui.Base.{
  ℕ, ◌≡◌, refl, ap, ◌∙◌, Bool, true, false, Option, none, some, List, [], ◌∷◌, ◌++◌, All,
  append_assoc, append-nil, ltb, or_else, Bool-cases, inl, inr,
}
use restic_ui.Base.Text.{Text, codes, decimal}
use restic_ui.Types.{PlanInput, BackupOptions}
use restic_ui.Server.Arguments.{
  is_abs, validate, each_flag, count_flag, bool_flag, options_args, backup_args, has_separator,
}
use restic_ui.Server.Arguments.Line.{Line, no_arguments, IsReader, limit_text, line_of, tag_list}
use restic_ui.Server.Arguments.Accepted.{tag_list-plain, validate-abs, validate-plain, IsTag}

abbrev put_upload : Option Text → Line → Line
put_upload o l = record l { upload = o }

abbrev put_download : Option Text → Line → Line
put_download o l = record l { download = o }

abbrev put_caches : Bool → Line → Line
put_caches b l = record l { exclude_caches = b }

abbrev put_one_system : Bool → Line → Line
put_one_system b l = record l { one_file_system = b }

with_none_upload : (l : Line) → l.upload ≡ none → l ≡ record l { upload = none }
with_none_upload l h = ap (λ (o : Option Text). put_upload o l) h

with_none_download : (l : Line) → l.download ≡ none → l ≡ record l { download = none }
with_none_download l h = ap (λ (o : Option Text). put_download o l) h

with_same_caches : (l : Line) → l.exclude_caches ≡ false → l ≡ record l { exclude_caches = false }
with_same_caches l h = ap (λ (b : Bool). put_caches b l) h

module _ (is_space : ℕ → Bool) (read : List Text → Line) (reads : IsReader is_space read) where
  read-words :
      (sources rest : List Text)
      → All (λ s. is_abs s ≡ true) sources
      → read (sources ++ rest) ≡ record (read rest) { words = sources ++ (read rest).words }
  read-words [] rest h = refl
  read-words (s ∷ sources) rest h =
      reads.word s (sources ++ rest) h.0
      ∙ ap (λ (l : Line). record l { words = s ∷ l.words }) (read-words sources rest h.1)

  read-excludes :
      (values rest : List Text)
      → read (each_flag (codes "--exclude") values ++ rest)
        ≡ record (read rest) { excludes = values ++ (read rest).excludes }
  unfolding each_flag
  read-excludes [] rest = refl
  read-excludes (v ∷ values) rest =
      reads.exclude v (each_flag (codes "--exclude") values ++ rest)
      ∙ ap (λ (l : Line). record l { excludes = v ∷ l.excludes }) (read-excludes values rest)

  read-tags :
      (values rest : List Text)
      → All (λ t. has_separator t ≡ false) values
      → All (IsTag is_space) values
      → read (each_flag (codes "--tag") values ++ rest)
        ≡ record (read rest) { tags = values ++ (read rest).tags }
  unfolding each_flag
  read-tags [] rest h k = refl
  read-tags (v ∷ values) rest h k =
      let same : tag_list is_space v ≡ v ∷ [] = tag_list-plain is_space v h.0 k.0.1 in
      let others : List Text = each_flag (codes "--tag") values ++ rest in
      reads.tag v others (rw same (k.0.0, tt))
      ∙ ap (λ (ts : List Text). record (read others) { tags = ts ++ (read others).tags }) same
      ∙ ap (λ (l : Line). record l { tags = v ∷ l.tags }) (read-tags values rest h.1 k.1)

  read-upload :
      (n : Option ℕ) (rest : List Text)
      → (read rest).upload ≡ none
      → read (count_flag (codes "--limit-upload") n ++ rest)
        ≡ record (read rest) { upload = limit_text n }
  unfolding count_flag
  read-upload n rest h = elim (Bool-cases (ltb 0 (or_else n 0))) [
    | inl e ↦ rw e (reads.upload (decimal (or_else n 0)) rest h)
    | inr e ↦ rw e (with_none_upload (read rest) h)
  ]

  read-download :
      (n : Option ℕ) (rest : List Text)
      → (read rest).download ≡ none
      → read (count_flag (codes "--limit-download") n ++ rest)
        ≡ record (read rest) { download = limit_text n }
  unfolding count_flag
  read-download n rest h = elim (Bool-cases (ltb 0 (or_else n 0))) [
    | inl e ↦ rw e (reads.download (decimal (or_else n 0)) rest h)
    | inr e ↦ rw e (with_none_download (read rest) h)
  ]

  read-caches :
      (b : Option Bool) (rest : List Text)
      → (read rest).exclude_caches ≡ false
      → read (bool_flag (codes "--exclude-caches") b ++ rest)
        ≡ record (read rest) { exclude_caches = or_else b false }
  unfolding bool_flag
  read-caches none rest h = with_same_caches (read rest) h
  read-caches (some false) rest h = with_same_caches (read rest) h
  read-caches (some true) rest h = reads.exclude_caches rest

  read-one_system :
      (b : Option Bool) (rest : List Text)
      → (read rest).one_file_system ≡ false
      → read (bool_flag (codes "--one-file-system") b ++ rest)
        ≡ record (read rest) { one_file_system = or_else b false }
  unfolding bool_flag
  read-one_system none rest h = ap (λ (b : Bool). put_one_system b (read rest)) h
  read-one_system (some false) rest h = ap (λ (b : Bool). put_one_system b (read rest)) h
  read-one_system (some true) rest h = reads.one_file_system rest

  read-json : read (codes "--json" ∷ []) ≡ record no_arguments { json = true }
  read-json = reads.json [] ∙ ap (λ (l : Line). record l { json = true }) reads.ends

  options_line : BackupOptions → Line
  options_line o = record {
    words = [];
    excludes = [];
    tags = [];
    upload = limit_text o.upload_limit_kib;
    download = limit_text o.download_limit_kib;
    exclude_caches = or_else o.exclude_caches false;
    one_file_system = or_else o.one_file_system false;
    json = true;
  }

  read-options : (o : BackupOptions) → read (options_args o ++ codes "--json" ∷ []) ≡ options_line o
  unfolding options_args options_line
  read-options o =
      let last : List Text = codes "--json" ∷ [] in
      let one : List Text = bool_flag (codes "--one-file-system") o.one_file_system in
      let caches : List Text = bool_flag (codes "--exclude-caches") o.exclude_caches in
      let down : List Text = count_flag (codes "--limit-download") o.download_limit_kib in
      let up : List Text = count_flag (codes "--limit-upload") o.upload_limit_kib in
      let e1 =
        read-one_system o.one_file_system last (ap (λ (l : Line). l.one_file_system) read-json) in
      let e2 =
        read-caches o.exclude_caches (one ++ last) (
          ap (λ (l : Line). l.exclude_caches) e1 ∙ ap (λ (l : Line). l.exclude_caches) read-json) in
      let e3 =
        read-download o.download_limit_kib (caches ++ (one ++ last)) (cc (e2, e1, read-json)) in
      let e4 =
        read-upload o.upload_limit_kib (down ++ (caches ++ (one ++ last)))
          (cc (e3, e2, e1, read-json)) in
      let flat : options_args o ++ last ≡ up ++ (down ++ (caches ++ (one ++ last))) =
        simp (append_assoc) refl in
      ap read flat ∙ cc (e4, e3, e2, e1, read-json)

  -- Restic reads from the arguments of a backup exactly what the plan says, for a plan that the
  -- server has accepted: its sources and nothing else as words, its exclude patterns, in their
  -- order and whatever characters they are made of, its tags, in their order and each as one tag,
  -- its limits unless they are 0, and its two options. No tag is empty or has white space other
  -- than spaces, which the server refuses; and restic reads its command line as it is documented (IsReader), so
  -- that it takes a tag apart at commas and cuts off white space.
  pub read-backup_args :
      (is_blank can_parse : Text → Bool) (p : PlanInput)
      → validate is_blank can_parse p ≡ none
      → All (IsTag is_space) p.tags
      → read (backup_args p) ≡ line_of p
  unfolding backup_args options_line
  read-backup_args is_blank can_parse p ok plain =
      let rest : List Text = options_args p.options ++ codes "--json" ∷ [] in
      let tags : List Text = each_flag (codes "--tag") p.tags ++ rest in
      let e1 =
        read-words p.sources (each_flag (codes "--exclude") p.excludes ++ tags)
          (validate-abs is_blank can_parse p ok) in
      let e2 = read-excludes p.excludes tags in
      let e3 = read-tags p.tags rest (validate-plain is_blank can_parse p ok) plain in
      let e4 = read-options p.options in
      cc (e1, e2, e3, e4, append-nil p.sources, append-nil p.excludes, append-nil p.tags)
