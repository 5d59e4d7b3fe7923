-- ===== src/Query/Selection.antt =====
-- What groups of conditions and the selection of rows guarantee.
use dalgo2ingitdb.Base.{
  String, ◌≡◌, refl, sym, ap, ◌∙◌, ◌↔◌, Bool, true, false, List, [], ◌∷◌, select, arith,
  if◌then◌else◌,
}
use dalgo2ingitdb.Base.Value.{Value, Fields, Runtime}
use dalgo2ingitdb.Base.Result.{Result, ok, err, >>=-eq-ok}
use dalgo2ingitdb.Readers.Stored.{KeyedStored}
use dalgo2ingitdb.Query.{
  Condition, Conditions, end, also, and, or, evaluate_condition, evaluate_group_condition, stop_at,
  apply_where,
}

abbrev pub is_true : Result Bool → Bool
is_true (ok b) = b
is_true (err e) = false

module _ (rt : Runtime) (is_null_value : Value → Bool) where
  module _ (data' : Fields) (key : String) where
    -- Every condition of the group gives this value.
    abbrev pub Every : Bool → Conditions → Type 0
    Every b end = Unit
    Every b (also c cs) = (evaluate_condition rt is_null_value data' key c ≡ ok b) × Every b cs

    stop_false :
        (r rest : Result Bool)
        → stop_at rt is_null_value data' key false r rest ≡ ok true
        → (r ≡ ok true) × (rest ≡ ok true)
    stop_false (err e) rest h = cc h
    stop_false (ok true) rest h = (refl, h)
    stop_false (ok false) rest h = absurd (ground arith)

    stop_true :
        (r rest : Result Bool)
        → stop_at rt is_null_value data' key true r rest ≡ ok false
        → (r ≡ ok false) × (rest ≡ ok false)
    stop_true (err e) rest h = cc h
    stop_true (ok true) rest h = absurd (ground arith)
    stop_true (ok false) rest h = (refl, h)

    and_true :
        (cs : Conditions)
        → Every true cs
        → evaluate_group_condition rt is_null_value data' key and cs ≡ ok true
    unfolding evaluate_group_condition
    and_true end h = refl
    and_true (also c cs) (e, h) = rw e (and_true cs h)

    true_and :
        (cs : Conditions)
        → evaluate_group_condition rt is_null_value data' key and cs ≡ ok true
        → Every true cs
    unfolding evaluate_group_condition
    true_and end h = tt
    true_and (also c cs) h =
        let (e, h') = stop_false (evaluate_condition rt is_null_value data' key c) _ h in
        (e, true_and cs h')

    or_false :
        (cs : Conditions)
        → Every false cs
        → evaluate_group_condition rt is_null_value data' key or cs ≡ ok false
    unfolding evaluate_group_condition
    or_false end h = refl
    or_false (also c cs) (e, h) = rw e (or_false cs h)

    false_or :
        (cs : Conditions)
        → evaluate_group_condition rt is_null_value data' key or cs ≡ ok false
        → Every false cs
    unfolding evaluate_group_condition
    false_or end h = tt
    false_or (also c cs) h =
        let (e, h') = stop_true (evaluate_condition rt is_null_value data' key c) _ h in
        (e, false_or cs h')

    -- An AND group is true exactly when each of its conditions is, and an OR group is false exactly
    -- when each of its conditions is.
    pub evaluate_group_condition_iff :
        (cs : Conditions)
        → ((evaluate_group_condition rt is_null_value data' key and cs ≡ ok true) ↔ Every true cs)
          × ((evaluate_group_condition rt is_null_value data' key or cs ≡ ok false)
              ↔ Every false cs)
    evaluate_group_condition_iff cs = ((true_and cs, and_true cs), (false_or cs, or_false cs))

  abbrev pub matches : Condition → KeyedStored → Result Bool
  matches cond rec = evaluate_condition rt is_null_value rec.stored rec.key cond

  -- A selection that succeeds keeps, in their order, exactly the rows that the condition is true of.
  pub apply_where-select :
      (cond : Condition) (recs out : List KeyedStored)
      → apply_where rt is_null_value cond recs ≡ ok out
      → out ≡ select (λ rec. is_true (matches cond rec)) recs
  unfolding apply_where
  apply_where-select cond [] out h = cc h
  apply_where-select cond (rec ∷ recs) out h =
      let (b, e, h') = >>=-eq-ok (matches cond rec) _ h in
      let (rest, e', h'') = >>=-eq-ok (apply_where rt is_null_value cond recs) _ h' in
      let ih = apply_where-select cond recs rest e' in
      let sel = select (λ r. is_true (matches cond r)) recs in
      let made : out ≡ (if b then rec ∷ rest else rest) = cc h'' in
      made
      ∙ ap (λ l. if b then rec ∷ l else l) ih
      ∙ ap (λ r. if is_true r then rec ∷ sel else sel) (sym e)
