-- ===== src/Rules/Checked.antt =====
-- `analyze_checked` of src/rules/analyze.rs: the checks of a rules document against its form.
use colander.Prelude.{
  ℕ, ◌+◌, Bool, true, false, not, ◌||◌, ◌==◌, Str, List, [], ◌∷◌, ◌++◌, Option, none, some, str_eq,
  codes, length, any, Result, ok, fail, ok_or, ◌>>=◌, ◌>>◌, if◌then◌else◌,
}
use colander.Text.Decimal.{show_nat}
use colander.Json.{Json, Items, JsonMap, object, nil, cons, empty, entry}
use colander.Json.Map.{get, keys}
use colander.Json.Access.{get_array, get_str, get_object, is_null, as_object, as_array, type_name}
use colander.IndexMap.{contains, lookup}
use colander.Index.{FieldInfo}
use colander.Semantic.{FormSemantics, from_form, from_form_unchecked}
use colander.Rules.Refs.{collect_references}
use colander.Rules.Analyze.{
  RuleDependencyMetadata, analyze_with_semantics, validate_expression, validate_keys,
}

abbrev rule_keys : List Str
rule_keys =
    codes "visibleWhen" ∷ codes "enabledWhen" ∷ codes "requiredWhen" ∷ codes "calculate" ∷ []

abbrev predicate_keys : List Str
predicate_keys = codes "visibleWhen" ∷ codes "enabledWhen" ∷ codes "requiredWhen" ∷ []

abbrev validation_keys : List Str
validation_keys = codes "code" ∷ codes "when" ∷ codes "assert" ∷ codes "message" ∷ []

abbrev validation_expressions : List Str
validation_expressions = codes "when" ∷ codes "assert" ∷ []

-- the loop over the keys of an entry: the first that is not known is refused
unfoldable pub only_known : List Str → (Str → Str) → List Str → Result (Unit {0})
only_known known message [] = ok tt
only_known known message (key ∷ rest) =
    let later = only_known known message rest in
    if contains known key then later else fail (message key)

unknown_rule_key : Str → Str → Str → Str
unknown_rule_key field_id path key =
    codes "RULE_UNKNOWN_RULE_KEY: rules for field '"
    ++ (field_id
        ++ (codes "' at "
            ++ (path
                ++ (b'/'
                    ∷ (key
                        ++ (codes " use an unknown rule key '"
                            ++ (key
                                ++ codes
                                    "' (expected 'visibleWhen', 'enabledWhen', 'requiredWhen' or 'calculate').")))))))

not_read_only : Str → Str → Str
not_read_only field_id path =
    codes "RULE_CALCULATE_NOT_READONLY: calculated field '"
    ++ (field_id
        ++ (codes "' at " ++ (path ++ codes "/calculate must be readOnly in the form schema.")))

self_reference : Str → Str → Str → Str
self_reference field_id path code =
    codes "RULE_SELF_REFERENCE: calculated field '"
    ++ (field_id
        ++ (codes "' at "
            ++ (path
                ++ (codes "/calculate must not reference its own code '" ++ (code ++ codes "'.")))))

unknown_field : Str → Str → Str
unknown_field field_id path =
    codes "RULE_UNKNOWN_FIELD: rules reference unknown form field id '"
    ++ (field_id ++ (codes "' at " ++ (path ++ codes ".")))

module _ {F : Type 0} where
  -- the two checks of a `calculate` that is present
  unfoldable pub calculate_check : Str → Str → FieldInfo F → Option Json → Result (Unit {0})
  unfolding not_read_only self_reference
  calculate_check field_id path field_info none = ok tt
  calculate_check field_id path field_info (some calculate) =
      if is_null calculate
      then ok tt
      else if not field_info.read_only
      then fail (not_read_only field_id path)
      else if any (λ code. str_eq code field_info.code) (collect_references calculate)
      then fail (self_reference field_id path field_info.code)
      else ok tt

  -- the rules of one field, which the form knows
  unfoldable pub validate_rules : FormSemantics F → Str → FieldInfo F → Json → Result (Unit {0})
  unfolding unknown_rule_key
  validate_rules semantics field_id field_info (object rules) =
      let path = codes "/fields/" ++ field_id in
      (do
        only_known rule_keys (unknown_rule_key field_id path) (keys rules)
        validate_keys predicate_keys rules path semantics.fields_by_code
            semantics.child_repeater_by_code
        validate_expression (get rules (codes "calculate")) (path ++ codes "/calculate")
            semantics.fields_by_code semantics.child_repeater_by_code
            (lookup semantics.repeater_parent_by_id field_id)
        calculate_check field_id path field_info (get rules (codes "calculate")))
  validate_rules semantics field_id field_info _ = ok tt

  unfoldable pub validate_field_rules : FormSemantics F → JsonMap → Result (Unit {0})
  unfolding unknown_field
  validate_field_rules semantics empty = ok tt
  validate_field_rules semantics (entry field_id rules_node rest) = do
    field_info ←
        ok_or (lookup semantics.fields_by_id field_id)
          (unknown_field field_id (codes "/fields/" ++ field_id))
    validate_rules semantics field_id field_info rules_node
    validate_field_rules semantics rest

missing_assert : Str → Str
missing_assert path =
    codes "RULE_MISSING_ASSERT: validation at " ++ (path ++ codes " has no 'assert' to evaluate.")

duplicate_validation : Str → Str → Str
duplicate_validation path code =
    codes "RULE_DUPLICATE_VALIDATION_CODE: validation code '"
    ++ (code ++ (codes "' at " ++ (path ++ codes "/code is duplicated.")))

unknown_validation_key : Str → Str → Str
unknown_validation_key path key =
    codes "RULE_UNKNOWN_VALIDATION_KEY: validation at "
    ++ (path
        ++ (codes " carries unknown key '"
            ++ (key ++ codes "' (expected 'code', 'when', 'assert' or 'message').")))

invalid_validation : Str → Str → Str
invalid_validation path what = codes "RULE_INVALID_VALIDATION: " ++ (path ++ what)

is_present : Option Json → Bool
is_present none = false
is_present (some v) = not (is_null v)

-- `if !test { return Err(..) }`
ensure : Bool → Str → Result (Unit {0})
ensure true message = ok tt
ensure false message = fail message

module _ {F : Type 0} where
  -- one round of the loop; the value is the code, which `seen_codes` gets
  unfoldable pub validate_validation : FormSemantics F → List Str → Str → Json → Result Str
  unfolding missing_assert duplicate_validation unknown_validation_key invalid_validation is_present
      ensure
  validate_validation semantics seen_codes path value = do
    validation ← ok_or (as_object value) (invalid_validation path (codes " must be an object."))
    only_known validation_keys (unknown_validation_key path) (keys validation)
    code ←
        ok_or (get_str validation (codes "code"))
          (invalid_validation path (codes " is missing a string 'code'."))
    ensure (is_present (get validation (codes "assert"))) (missing_assert path)
    ensure (not (contains seen_codes code)) (duplicate_validation path code)
    validate_keys validation_expressions validation path semantics.fields_by_code
        semantics.child_repeater_by_code
    ok code

  unfoldable pub validate_validation_entries :
      FormSemantics F → List Str → ℕ → Items → Result (Unit {0})
  validate_validation_entries semantics seen_codes position nil = ok tt
  validate_validation_entries semantics seen_codes position (cons value rest) = do
    code ←
        validate_validation semantics seen_codes (codes "/validations/" ++ show_nat position) value
    validate_validation_entries semantics (seen_codes ++ code ∷ []) (position + 1) rest

version_mismatch : Str → Str → Str
version_mismatch rules_version form_version =
    codes "RULE_SCHEMA_VERSION_MISMATCH: rules formSchemaVersion '"
    ++ (rules_version
        ++ (codes "' does not match form schemaVersion '" ++ (form_version ++ codes "'.")))

same_version : Option Str → Option Str → Result (Unit {0})
unfolding version_mismatch
same_version (some rules_version) (some form_version) =
    if str_eq rules_version form_version
    then ok tt
    else fail (version_mismatch rules_version form_version)
same_version _ _ = ok tt

unfoldable pub validate_form_version_match : JsonMap → JsonMap → Result (Unit {0})
unfolding same_version
validate_form_version_match form_root rules_root =
    same_version (get_str rules_root (codes "formSchemaVersion"))
      (get_str form_root (codes "schemaVersion"))

is_some {ℓ} : {A : Type ℓ} → Option A → Bool
is_some none = false
is_some (some a) = true

-- A container that is present is null or of the kind that the test asks for.
container : (Json → Bool) → Str → Option Json → Result (Unit {0})
container test message none = ok tt
container test message (some v) =
    if is_null v || test v then ok tt else fail (message ++ (type_name v ++ codes "."))

fields_object : Option Json → Result (Unit {0})
unfolding container is_some
fields_object =
    container (λ v. is_some (as_object v))
      (codes "RULE_FIELDS_NOT_OBJECT: 'fields' must be an object keyed by field id, found ")

validations_array : Option Json → Result (Unit {0})
unfolding container is_some
validations_array =
    container (λ v. is_some (as_array v))
      (codes "RULE_VALIDATIONS_NOT_ARRAY: 'validations' must be an array, found ")

-- the last test: a field that is in a cycle is never evaluated
unfoldable pub acyclic : RuleDependencyMetadata → Result RuleDependencyMetadata
acyclic metadata =
    if length metadata.evaluation_order == length metadata.calculated_field_ids
    then ok metadata
    else fail (codes "RULE_CYCLIC_DEPENDENCY: calculated fields contain a cyclic dependency.")

module _ {F : Type 0} where
  rules_of_fields : FormSemantics F → Option JsonMap → Result (Unit {0})
  rules_of_fields semantics none = ok tt
  rules_of_fields semantics (some field_rules) = validate_field_rules semantics field_rules

  rules_of_form : FormSemantics F → Option Items → Result (Unit {0})
  rules_of_form semantics none = ok tt
  rules_of_form semantics (some validations) =
      validate_validation_entries semantics [] 0 validations

  unfoldable pub analyze_checked_with_semantics :
      JsonMap → FormSemantics F → JsonMap → Result RuleDependencyMetadata
  unfolding fields_object validations_array rules_of_fields rules_of_form
  analyze_checked_with_semantics form_root semantics rules_root = do
    validate_form_version_match form_root rules_root
    fields_object (get rules_root (codes "fields"))
    validations_array (get rules_root (codes "validations"))
    rules_of_fields semantics (get_object rules_root (codes "fields"))
    rules_of_form semantics (get_array rules_root (codes "validations"))
    metadata ← analyze_with_semantics semantics rules_root
    acyclic metadata

module _ {F : Type 0} (parse_f64 : Str → Option F) where
  unfoldable pub analyze : JsonMap → JsonMap → Result RuleDependencyMetadata
  analyze form_root rules_root = do
    semantics ← from_form_unchecked parse_f64 form_root
    analyze_with_semantics semantics rules_root

  unfoldable pub analyze_checked : JsonMap → JsonMap → Result RuleDependencyMetadata
  analyze_checked form_root rules_root = do
    semantics ← from_form parse_f64 form_root
    analyze_checked_with_semantics form_root semantics rules_root

  unfoldable pub validate_dependencies : JsonMap → JsonMap → Result (Unit {0})
  validate_dependencies form_root rules_root = do
    metadata ← analyze_checked form_root rules_root
    ok tt
