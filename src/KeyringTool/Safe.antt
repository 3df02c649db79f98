-- ===== src/KeyringTool/Safe.antt =====
-- src/bin/keyring-tool.rs: what `write_private` leaves in the files.
use github_oidc_exchange.Prelude.{
  ◌≡◌, ◌≢◌, refl, sym, subst, ◌∙◌, inl, inr, Bool, true, false, not, ◌&&◌, Option, none, some,
  String, Result, ok, err, ◌==◌, nat_eq, list_eq, eq_iff, Bool-cases, Option-cases, Result-cases,
}
use github_oidc_exchange.Text.{Text}
use github_oidc_exchange.Effects.{◌>>◌, modify}
use github_oidc_exchange.Effects.Triple.{Triple, bind}
use github_oidc_exchange.Keys.{KeyRingFile}
use github_oidc_exchange.KeyringTool.{Algorithm, ToolError, Contents, Entry, Files}
use github_oidc_exchange.KeyringTool.Files.{
  System, T, put_entry, exists, metadata_refused, validate_private, validate_private_metadata,
  loads, written_algorithm, temporary, step_or_io, refuse_existing, rename, put_in_place, fill,
  write_temp, cleaned, write_private,
}

put_entry-same :
    (path : Text) (entry : Option Entry) (files : Files) → put_entry path entry files path ≡ entry
put_entry-same path entry files = rw ((eq_iff path path).1 refl) refl

put_entry-other :
    (path other : Text) (entry : Option Entry) (files : Files)
    → other ≢ path
    → put_entry path entry files other ≡ files other
put_entry-other path other entry files apart = elim (Bool-cases (other == path)) [
  | inl same ↦ absurd (apart ((eq_iff other path).0 same))
  | inr differs ↦ rw differs refl
]

module _ {K R : Type 0} (sys : System K R) (path other : Text) (apart : path ≢ sys.temp)
    (aside : other ≢ sys.temp) (elsewhere : other ≢ path) where
  -- A private file whose contents load.
  abbrev pub Sound : Option Entry → Type 0
  Sound none = ⊥
  Sound (some entry) =
      (metadata_refused entry ≡ false)
      × ((algorithm : Algorithm) × (loads sys algorithm entry.contents ≡ ok tt))

  -- A failed run leaves the target as it was, and a successful one leaves it a private file whose
  -- contents load; the other file stays.
  abbrev pub Left : Files → Result (Unit {0}) ToolError → Files → Type 0
  Left before (ok _) after = (after other ≡ before other) × Sound (after path)
  Left before (err e) after = (after other ≡ before other) × (after path ≡ before path)

  abbrev pub Same : Files → Files → Type 0
  Same before after = (after other ≡ before other) × (after path ≡ before path)

  abbrev Kept : Files → Result (Unit {0}) ToolError → Files → Type 0
  Kept before r after = Same before after

  put_temp-Same :
      (before after : Files) (entry : Option Entry)
      → Same before after
      → Same before (put_entry sys.temp entry after)
  put_temp-Same before after entry (o, p) = (
    put_entry-other sys.temp other entry after aside ∙ o,
    put_entry-other sys.temp path entry after apart ∙ p,
  )

  abbrev pub Checked : Text → Files → Result (Unit {0}) ToolError → Files → Type 0
  Checked place before (ok _) after =
      (after other ≡ before other) × (after path ≡ before path) × Sound (after place)
  Checked place before (err e) after = Same before after

  pub validate_private-Checked :
      (place : Text) (algorithm : Algorithm) (before : Files)
      → Triple (Same before) (validate_private sys place algorithm) (Checked place before)
  unfolding validate_private validate_private_metadata
  validate_private-Checked place algorithm before s (o, p) = elim (Option-cases (s place)) [
    | inl absent ↦ rw absent (o, p)
    | inr (entry, there) ↦ elim (Bool-cases (metadata_refused entry)) [
      | inl refused ↦ rw (there, refused) (o, p)
      | inr private ↦ elim (Result-cases (loads sys algorithm entry.contents)) [
        | inr (e, fails) ↦ rw (there, private, fails) (o, p)
        | inl (_, loaded) ↦
            rw (there, private, loaded)
              (o, p, subst Sound (sym there) (private, (algorithm, loaded)))
      ]
    ]
  ]

  rename-Left :
      (before : Files) → Triple (Checked sys.temp before (ok tt)) (rename sys path) (Left before)
  rename-Left before s (o, p, sound) = elim (Bool-cases sys.renamed) [
    | inr failed ↦ rw failed (o, p)
    | inl done ↦ rw done (
      put_entry-other sys.temp other none (put_entry path (s sys.temp) s) aside
          ∙ (put_entry-other path other (s sys.temp) s elsewhere ∙ o),
      subst Sound
          (sym (
            put_entry-other sys.temp path none (put_entry path (s sys.temp) s) apart
            ∙ put_entry-same path (s sys.temp) s))
          sound,
    )
  ]

  step_or_io-Kept :
      (before : Files) (b : Bool) → Triple (Same before) (step_or_io sys b) (Kept before)
  step_or_io-Kept before true s h = h
  step_or_io-Kept before false s h = h

  refuse_then-Left :
      (replace : Bool) (why : String) (before : Files)
      → Triple
          (Checked sys.temp before (ok tt))
          (refuse_existing sys replace why path >> rename sys path)
          (Left before)
  refuse_then-Left replace why before s (o, p, sound) =
      elim (Bool-cases (not replace && exists (s path))) [
        | inl refused ↦ rw refused (o, p)
        | inr passed ↦ rw passed (rename-Left before s (o, p, sound))
      ]

  put_in_place-Left :
      (file : KeyRingFile) (replace : Bool) (before : Files)
      → Triple (Same before) (put_in_place sys path file replace) (Left before)
  unfolding put_in_place
  put_in_place-Left file replace before =
      bind (Same before) (Checked sys.temp before) (Left before)
        (validate_private sys sys.temp (written_algorithm sys file))
        (λ _.
          refuse_existing sys replace "target appeared while generating; refusing overwrite" path
          >> rename sys path)
        (validate_private-Checked sys.temp (written_algorithm sys file) before)
        (λ _.
          refuse_then-Left replace "target appeared while generating; refusing overwrite" before)
        (λ e s h. h)

  -- A system call, then a write of the temporary file, then the rest.
  step_then-Left :
      (b : Bool) (entry : Entry) (rest : T (Unit {0})) (before : Files)
      → Triple (Same before) rest (Left before)
      → Triple
          (Same before)
          (step_or_io sys b >> (modify (put_entry sys.temp (some entry)) >> rest))
          (Left before)
  step_then-Left true entry rest before h s same =
      h (put_entry sys.temp (some entry) s) (put_temp-Same before s (some entry) same)
  step_then-Left false entry rest before h s same = same

  write_temp-Left :
      (algorithm : Algorithm) (file : KeyRingFile) (replace : Bool) (before : Files)
      → Triple (Same before) (write_temp sys path algorithm file replace) (Left before)
  unfolding write_temp fill
  write_temp-Left algorithm file replace before =
      step_then-Left sys.created (temporary sys Contents.unreadable)
        (fill sys path algorithm file replace) before
        (step_then-Left sys.written (temporary sys (Contents.document algorithm file))
          (put_in_place sys path file replace) before (put_in_place-Left file replace before))

  cleaned-Left :
      (before : Files) (r : Result (Unit {0}) ToolError) (after : Files)
      → Left before r after
      → Left before (cleaned sys (r, after)).0 (cleaned sys (r, after)).1
  cleaned-Left before (ok _) after h = h
  cleaned-Left before (err e) after h = elim (Bool-cases sys.removed) [
    | inl gone ↦ rw gone (put_temp-Same before after none h)
    | inr stays ↦ rw stays h
  ]

  pub write_private-Left :
      (algorithm : Algorithm) (file : KeyRingFile) (replace : Bool) (before : Files)
      → Triple (Same before) (write_private sys path algorithm file replace) (Left before)
  unfolding write_private
  write_private-Left algorithm file replace before s h =
      elim (Bool-cases (sys.parent_is_dir path)) [
        | inr nowhere ↦ rw nowhere h
        | inl there ↦ elim (Bool-cases (not replace && exists (s path))) [
          | inl refused ↦ rw (there, refused) h
          | inr passed ↦
              rw (there, passed)
                (cleaned-Left before (write_temp sys path algorithm file replace s).0
                  (write_temp sys path algorithm file replace s).1
                  (write_temp-Left algorithm file replace before s h))
        ]
      ]
