-- ===== src/Registry/Membership.antt =====
-- Registering a root collection and taking it out again (registry.go).
use dalgo2ingitdb.Base.{
  ◌≡◌, refl, sym, ap, ◌∙◌, inl, inr, String, ◌==◌, none, some, arith, eq_iff, eq_refl, Bool-cases,
  Option-cases,
}
use dalgo2ingitdb.Base.Dict.{Dict, lookup, insert, erase, lookup-insert, lookup-erase}
use dalgo2ingitdb.Base.Result.{ok}
use dalgo2ingitdb.Disk.{Os}
use dalgo2ingitdb.Registry.{Config, registered, deregistered}

module _ (os : Os) (config : Config os) where
  -- A registration that changes the registry adds the name alone; the next one changes nothing, and
  -- a deregistration takes the name out and leaves every other name.
  pub registered_then :
      (name : String) (m m' : Dict String)
      → registered os config name m ≡ ok (some m')
      → (registered os config name m' ≡ ok none)
        × (deregistered os config name m' ≡ some (erase name m'))
        × ((other : String) → lookup other (erase name m') ≡ lookup other m)
  unfolding registered deregistered
  registered_then name m m' h = elim (Option-cases (lookup name m)) [
    | inr (existing, e) ↦ elim (Bool-cases (existing == name)) [
      | inl f ↦ absurd (let h' = rw (e, f, registered) at h in ground arith)
      | inr f ↦ absurd (let h' = rw (e, f, registered) at h in ground arith)
    ]
    | inl e ↦
        let h' : ok (some (insert name name m)) ≡ ok (some m') = rw (e, registered) at h in
        let same : insert name name m ≡ m' = cc h' in
        let there : lookup name m' ≡ some name =
          ap (lookup name) (sym same)
          ∙ lookup-insert name name name m
          ∙ ground (arith, eq_refl name) in
        (
          rw (there, registered) (ground (arith, eq_refl name)),
          rw (there, deregistered) refl,
          λ other. restored name other m m' e same,
        )
  ]
    where
      restored :
          (name other : String) (m m' : Dict String)
          → lookup name m ≡ none
          → insert name name m ≡ m'
          → lookup other (erase name m') ≡ lookup other m
      restored name other m m' e same =
          let erased = lookup-erase name other m' in
          let inserted = ap (lookup other) (sym same) ∙ lookup-insert name other name m in
          elim (Bool-cases (name == other)) [
            | inl f ↦
                let same_name : name ≡ other = ground (arith, eq_iff name other) in
                (rw f at erased) ∙ sym e ∙ ap (λ k. lookup k m) same_name
            | inr f ↦ (rw f at erased) ∙ (rw f at inserted)
          ]
