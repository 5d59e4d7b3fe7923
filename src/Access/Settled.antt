-- ===== src/Access/Settled.antt =====
-- What readAccessManifest has settled when it succeeds (access_manifest.go).
use mathlib.Core.Path.{subst}
use dalgo2ingitdb.Base.{
  String, ◌≡◌, ◌⊎◌, inl, inr, refl, sym, ap, ◌∙◌, Bool, true, false, not, ◌&&◌, ◌==◌, eq_iff, some,
  List, [], ◌∷◌, Bool-cases, Option-cases, map, length, ◌<>◌, arith,
}
use dalgo2ingitdb.Base.Result.{Error, failure, wrapped, Result, ok, >>=-eq-ok}
use dalgo2ingitdb.Disk.Action.{wrap_error, wrap_error-ok}
use dalgo2ingitdb.Access.{
  FileInfo, Lstat, found, missing, GenerationManifest, ManifestDocument, FilePolicyConfig, World,
  GenerationPolicy, refuse_if,
}
use dalgo2ingitdb.Access.Names.{is_sha256}
use dalgo2ingitdb.Access.Generation.{read_and_verify_generation}
use dalgo2ingitdb.Access.Manifest.{
  Manifest, absent, present, ingit_dir, access_dir, manifest_name, generation_dir, policy_prefix,
  policies_match, is_same_selection, config_of, has_policies, enabled_of, check_dir, when_dirs,
  read_document, verify_active, verify_unless_empty, read_selection, read_access_manifest,
}
use dalgo2ingitdb.Access.Verified.{
  refused_not, was_true, both_true, IsVerified, read_and_verify_generation-IsVerified,
}

Lstat-cases :
    (x : Lstat)
    → ((info : FileInfo) × (x ≡ found info))
      ⊎ ((x ≡ missing) ⊎ ((e : Error) × (x ≡ Lstat.failed e)))
Lstat-cases (found info) = inl (info, refl)
Lstat-cases missing = inr (inl refl)
Lstat-cases (Lstat.failed e) = inr (inr (e, refl))

same_bool_of : {a b : Bool} → ok a ≡ ok b → a ≡ b
same_bool_of h = cc h

same_reading : {a b : Manifest} → ok a ≡ ok b → a ≡ b
same_reading h = cc h

enabled_of-some :
    (doc : ManifestDocument) (enabled : Bool)
    → enabled_of doc ≡ ok enabled
    → doc.enabled ≡ some enabled
enabled_of-some doc enabled h = elim (Option-cases doc.enabled) [
  | inl e ↦ absurd (cc (rw e at h))
  | inr (b, e) ↦ let same : ok b ≡ ok enabled = rw e at h in e ∙ ap some (same_bool_of same)
]

implied : (a b : Bool) → (a && not b) ≡ false → a ≡ true → b ≡ true
implied a b h e = was_true b (rw e at h)

-- Where the file of a policy stands.
abbrev pub policy_path : String → GenerationPolicy → String
policy_path prefix p = prefix <> p.id <> ".yaml"

policies_match-map :
    (prefix : String) (policies : List String) (ps : List GenerationPolicy)
    → length ps ≡ length policies
    → policies_match prefix policies ps ≡ true
    → policies ≡ map (policy_path prefix) ps
unfolding policies_match
policies_match-map prefix [] [] l h = refl
policies_match-map prefix [] (p ∷ ps) l h = absurd (omega (arith, l))
policies_match-map prefix (policy ∷ policies) [] l h = absurd (omega (arith, l))
policies_match-map prefix (policy ∷ policies) (p ∷ ps) l h =
    let (here, rest) =
      both_true (policy == policy_path prefix p) (policies_match prefix policies ps) h in
    rw
      (
        (eq_iff policy (policy_path prefix p)).0 here,
        policies_match-map prefix policies ps (omega (arith, l)) rest,
      )
      refl

same_selection :
    (enabled : Bool) (doc : ManifestDocument) (m : GenerationManifest)
    → is_same_selection enabled doc m ≡ true
    → (m.enabled ≡ enabled)
      × (m.database ≡ doc.database)
      × (m.realm ≡ doc.realm)
      × (length m.policies ≡ length doc.policies)
same_selection enabled doc m h =
    ground (arith, eq_iff m.database doc.database, eq_iff m.realm doc.realm)

module _ (w : World) where
  -- The selected policies are the files of a generation that has been verified.
  pub record IsSelected (root : String) (enabled : Bool) (doc : ManifestDocument) : Type 0 where
    pub manifest : GenerationManifest
    pub verified : IsVerified w (generation_dir root doc.generation) doc.generation manifest
    pub same_enabled : manifest.enabled ≡ enabled
    pub same_database : manifest.database ≡ doc.database
    pub same_realm : manifest.realm ≡ doc.realm
    pub all_policies :
        doc.policies ≡ map (policy_path (policy_prefix doc.generation)) manifest.policies

  verify_active-IsSelected :
      (root : String) (enabled : Bool) (doc : ManifestDocument)
      → verify_active w root enabled doc ≡ ok tt
      → IsSelected root enabled doc
  unfolding verify_active
  verify_active-IsSelected root enabled doc h =
      let (u₁, e₁, h₁) =
        >>=-eq-ok
          (refuse_if (not (is_sha256 doc.generation))
            (failure "invalid access generation revision"))
          _ h in
      let read = read_and_verify_generation w (generation_dir root doc.generation) doc.generation in
      let (m, e₂, h₂) =
        >>=-eq-ok (wrap_error (wrapped "verify active access generation") read) _ h₁ in
      let (u₃, e₃, h₃) =
        >>=-eq-ok
          (refuse_if (not (is_same_selection enabled doc m))
            (failure "active manifest does not match its generation"))
          _ h₂ in
      let verified = wrap_error-ok (wrapped "verify active access generation") read e₂ in
      let (en, db, re, len) = same_selection enabled doc m (
        was_true (is_same_selection enabled doc m)
          (refused_not (failure "active manifest does not match its generation") e₃)) in
      record {
        manifest = m;
        verified =
            read_and_verify_generation-IsVerified w (generation_dir root doc.generation)
              doc.generation m verified;
        same_enabled = en;
        same_database = db;
        same_realm = re;
        all_policies =
            policies_match-map (policy_prefix doc.generation) doc.policies m.policies len (
              was_true (policies_match (policy_prefix doc.generation) doc.policies m.policies) (
                refused_not (failure "active generation policy path is outside its generation")
                  h₃));
      }

  -- The document of manifest.yaml as it was selected.
  pub record IsSettledBy (root : String) (config : FilePolicyConfig) : Type 0 where
    pub doc : ManifestDocument
    pub read : read_document w (manifest_name root) ≡ ok doc
    pub explicit : doc.enabled ≡ some config.enabled
    pub same : config ≡ config_of config.enabled doc
    pub some_policy : config.enabled ≡ true → has_policies config ≡ true
    pub selected : (doc.generation ≡ "") ⊎ IsSelected root config.enabled doc

  abbrev pub IsSettled : String → Manifest → Type 0
  IsSettled root absent =
      (w.lstat (ingit_dir root) ≡ missing) ⊎ (w.lstat (access_dir root) ≡ missing)
  IsSettled root (present config) = IsSettledBy root config

  verify_unless_empty-IsSelected :
      (root : String) (enabled : Bool) (doc : ManifestDocument)
      → verify_unless_empty w root enabled doc ≡ ok tt
      → (doc.generation ≡ "") ⊎ IsSelected root enabled doc
  verify_unless_empty-IsSelected root enabled doc h = elim (Bool-cases (doc.generation == "")) [
    | inl e ↦ inl ((eq_iff doc.generation "").0 e)
    | inr e ↦ inr (verify_active-IsSelected root enabled doc (rw e at h))
  ]

  read_selection-IsSettled :
      (root : String) (x : Manifest) → read_selection w root ≡ ok x → IsSettled root x
  unfolding read_selection
  read_selection-IsSettled root x h =
      let (doc, e₁, h₁) = >>=-eq-ok (read_document w (manifest_name root)) _ h in
      let (enabled, e₂, h₂) = >>=-eq-ok (enabled_of doc) _ h₁ in
      let (u₃, e₃, h₃) = >>=-eq-ok (verify_unless_empty w root enabled doc) _ h₂ in
      let (u₄, e₄, h₄) =
        >>=-eq-ok
          (refuse_if (enabled && not (has_policies (config_of enabled doc)))
            (failure "enabled access manifest requires at least one policy"))
          _ h₃ in
      subst (IsSettled root) (same_reading h₄) (record {
        doc = doc;
        read = e₁;
        explicit = enabled_of-some doc enabled e₂;
        same = refl;
        some_policy =
            implied enabled (has_policies (config_of enabled doc))
              (refused_not (failure "enabled access manifest requires at least one policy") e₄);
        selected = verify_unless_empty-IsSelected root enabled doc e₃;
      })

  -- With the directories there, the rest of the reading decides.
  when_dirs_then :
      (dir : String) (dirs : List String) (rest : Result Manifest) (x : Manifest)
      → when_dirs w (dir ∷ dirs) rest ≡ ok x
      → ((w.lstat dir ≡ missing) × (x ≡ absent)) ⊎ (when_dirs w dirs rest ≡ ok x)
  unfolding when_dirs
  when_dirs_then dir dirs rest x h = elim (Lstat-cases (w.lstat dir)) [
    | inl (info, e) ↦
        let (u, d, r) = >>=-eq-ok (check_dir w dir info) _ (rw (e, when_dirs) at h) in inr r
    | inr (inl e) ↦ inl (e, sym (same_reading (rw (e, when_dirs) at h)))
    | inr (inr (f, e)) ↦ absurd (cc (rw (e, when_dirs) at h))
  ]

  -- A reading of the manifest succeeds only where a directory for it is missing, or with a
  -- configuration that manifest.yaml holds and enables or disables explicitly: an enabled one has a
  -- policy, and with a generation, it has that verified generation's state, database, realm and
  -- exactly its policies, in their order.
  pub read_access_manifest-IsSettled :
      (root : String) (x : Manifest) → read_access_manifest w root ≡ ok x → IsSettled root x
  unfolding read_access_manifest when_dirs
  read_access_manifest-IsSettled root x h =
      elim (when_dirs_then (ingit_dir root) (access_dir root ∷ []) (read_selection w root) x h) [
        | inl (e, a) ↦ subst (IsSettled root) (sym a) (inl e)
        | inr h₁ ↦ elim (when_dirs_then (access_dir root) [] (read_selection w root) x h₁) [
          | inl (e, a) ↦ subst (IsSettled root) (sym a) (inr e)
          | inr h₂ ↦ read_selection-IsSettled root x h₂
        ]
      ]
